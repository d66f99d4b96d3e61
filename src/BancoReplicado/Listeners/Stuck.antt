-- ===== src/BancoReplicado/Listeners/Stuck.antt =====
-- A connection that leaves while an event is handed to it.
use grupo.Prelude.{
  String, ◌≡◌, ◌≢◌, refl, sym, ap, ◌∙◌, Option, some, List, [], ◌∷◌, ◌++◌, eq_iff, arith,
}
use mathlib.Core.Path.{subst}
use mathlib.Core.List.{append_assoc, append-nil}
use grupo.Prelude.GoMap.{lookup, insert, lookup-insert}
use grupo.BancoReplicado.Instance.{Event}
use grupo.BancoReplicado.Listeners.{
  Listener, receiving, writing, leaving, Hub, Step, connect, post, broadcast, take_event, hand,
  unlock, write, fail, disconnect, Reach, here, next,
}

-- The event `e` is to be handed to connection `c`, which has left its loop and waits for the lock.
pub record Stuck (e : Event) (c : String) (rest : List String) (h : Hub) : Type 0 where
  pub sending : h.sending ≡ some (e, c ∷ rest)
  pub waits : lookup c h.listeners ≡ some leaving

-- A write of another connection leaves this one where it is.
other_connection :
    (c d : String) (l : Listener) (h : Hub) (e : Event)
    → lookup c h.listeners ≡ some leaving
    → lookup d h.listeners ≡ some (writing e)
    → lookup c (insert d l h.listeners) ≡ some leaving
other_connection c d l h e w k = ground (arith, lookup-insert d c l h.listeners, eq_iff d c, w, k)

no_receiver : (l : Option Listener) → l ≡ some receiving → l ≢ some leaving
no_receiver l p q = ground (arith, p, q)

-- The connection that an event is handed to first is the one that it is to be handed to.
handed_to :
    (h : Hub) (e d : Event) (c b : String) (rest more : List String)
    → h.sending ≡ some (e, c ∷ rest)
    → h.sending ≡ some (d, b ∷ more)
    → b ≡ c
handed_to h e d c b rest more p q = cc (p, q)

Step-Stuck :
    (e : Event) (c : String) (rest : List String) (h k : Hub)
    → Step h k
    → Stuck e c rest h
    → Stuck e c rest k × ((more : List Event) × (k.posted ≡ h.posted ++ more))
Step-Stuck e c rest h k (connect d free new) s = absurd (ground (arith, free, s.sending))
Step-Stuck e c rest h k (post d) s =
    (record { sending = s.sending; waits = s.waits }, (d ∷ [], refl))
Step-Stuck e c rest h k (broadcast (take_event d more free q)) s =
    absurd (ground (arith, free, s.sending))
Step-Stuck e c rest h k (broadcast (hand d b more q ready)) s =
    let same = handed_to h e d c b rest more s.sending q in
    absurd (
      no_receiver (lookup c h.listeners)
        (subst (λ a. lookup a h.listeners ≡ some receiving) same ready) s.waits)
Step-Stuck e c rest h k (broadcast (unlock d q)) s = absurd (ground (arith, q, s.sending))
Step-Stuck e c rest h k (write d f q) s = (
  record { sending = s.sending; waits = other_connection c d receiving h f s.waits q },
  ([], sym (append-nil h.posted)),
)
Step-Stuck e c rest h k (fail d f q) s = (
  record { sending = s.sending; waits = other_connection c d leaving h f s.waits q },
  ([], sym (append-nil h.posted)),
)
Step-Stuck e c rest h k (disconnect d free q) s = absurd (ground (arith, free, s.sending))

-- When a write to a connection fails while an event is to be handed to it, the goroutine that hands
-- events on waits for a reader that will not come back, with the lock, and the connection waits for the
-- lock: whatever happens afterwards, this stays so, and no event that a handler posted before or posts
-- later is ever taken, so that every handler that posts one waits for ever.
pub Stuck-lasts :
    (e : Event) (c : String) (rest : List String) (h k : Hub)
    → Stuck e c rest h
    → Reach h k
    → Stuck e c rest k × ((more : List Event) × (k.posted ≡ h.posted ++ more))
Stuck-lasts e c rest h k s here = (s, ([], sym (append-nil h.posted)))
Stuck-lasts e c rest h k s (next {k = l} run step) =
    let (before, (more, p)) = Stuck-lasts e c rest h l s run in
    let (after, (last, q)) = Step-Stuck e c rest l k step before in
    (
      after,
      (more ++ last, q ∙ ap (λ (es : List Event). es ++ last) p ∙ append_assoc h.posted more last),
    )
