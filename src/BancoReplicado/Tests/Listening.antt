-- ===== src/BancoReplicado/Tests/Listening.antt =====
-- A listener that is gone when the second event comes, and the theorem on it.
use grupo.Prelude.{◌≡◌, refl, none, some, List, [], ◌∷◌, ◌++◌}
use grupo.Prelude.GoMap.{lookup, insert, keys}
use grupo.BancoReplicado.Instance.{Event, timer_event}
use grupo.BancoReplicado.Listeners.{
  receiving, writing, leaving, Hub, start_http_server, connect, post, broadcast, take_event, hand,
  unlock, fail, Reach, here, next,
}
use grupo.BancoReplicado.Listeners.Stuck.{Stuck, Stuck-lasts}

abbrev nine : Event
nine = timer_event 9

abbrev eight : Event
eight = timer_event 8

abbrev listening : Hub
listening = record {
  listeners = ("ana", receiving) ∷ [];
  posted = nine ∷ eight ∷ [];
  sending = none;
  written = [];
}

-- The listener writes the first event while the second one is taken.
abbrev too_late : Hub
too_late = record {
  listeners = ("ana", writing nine) ∷ [];
  posted = [];
  sending = some (eight, "ana" ∷ []);
  written = [];
}

abbrev stuck : Hub
stuck = record too_late { listeners = ("ana", leaving) ∷ [] }

-- Two events are posted, and the write of the first one fails.
to_stuck : Reach start_http_server stuck
unfolding lookup insert keys
to_stuck =
    let r1 : Reach start_http_server
        (record start_http_server { listeners = ("ana", receiving) ∷ [] }) =
      next here (connect "ana" refl refl) in
    let r2 : Reach start_http_server listening = next (next r1 (post nine)) (post eight) in
    let r3 : Reach start_http_server
        (record listening { listeners = ("ana", writing nine) ∷ []; posted = eight ∷ [] }) =
      next
        (next (next r2 (broadcast (take_event nine (eight ∷ []) refl refl)))
          (broadcast (hand nine "ana" [] refl refl)))
        (broadcast (unlock nine refl)) in
    next (next r3 (broadcast (take_event eight [] refl refl))) (fail "ana" nine refl)

is_stuck : Stuck eight "ana" [] stuck
unfolding lookup
is_stuck = record { sending = refl; waits = refl }

Stuck-lasts_example :
    Stuck eight "ana" [] (record stuck { posted = nine ∷ [] })
    × ((more : List Event) × (nine ∷ [] ≡ [] ++ more))
Stuck-lasts_example =
    Stuck-lasts eight "ana" [] stuck (record stuck { posted = nine ∷ [] }) is_stuck
      (next here (post nine))
