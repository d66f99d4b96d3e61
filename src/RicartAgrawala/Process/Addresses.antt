-- ===== src/RicartAgrawala/Process/Addresses.antt =====
-- The channels of a process, and a multicast over them.
use grupo.Prelude.{
  ℕ, zero, suc, String, true, false, ◌==◌, ◌≡◌, refl, ap, sym, ◌∙◌, Option, none, some, List, [],
  ◌∷◌, ◌++◌, contains, length, ◌+◌, arith, eq_iff, str_eq, if◌then◌else◌,
}
use grupo.Prelude.GoMap.{GoMap, has, lookup, insert, lookup-insert}
use mathlib.Core.List.{append_assoc, append-nil}
use grupo.RicartAgrawala.Process.{
  Process, tick, update_timestamp, index_addresses, open_all_connections, get_index_from_address,
  do_multicast, run_spawned, send_message, others, goroutines,
}
use grupo.RicartAgrawala.Process.Leaving.{sent_to, sent_to-append}

-- The place of an address in a list, the last one if it stands there more than once.
pub place : String → List String → Option ℕ
place a [] = none
place a (b ∷ bs) = elim (place a bs) [
  | some i ↦ some (suc i)
  | none ↦ if str_eq b a then some 0 else none
]

index_addresses-lookup :
    (as' : List String) (i : ℕ) (m : GoMap ℕ) (a : String)
    → lookup a (index_addresses as' i m)
      ≡ elim (place a as') [ some j ↦ some (i + j) | none ↦ lookup a m ]
unfolding index_addresses place
index_addresses-lookup [] i m a = refl
index_addresses-lookup (b ∷ bs) i m a =
    ground (arith, index_addresses-lookup bs (i + 1) (insert b i m) a, lookup-insert b a i m)

-- After the connections are opened, the channel of each listed address is its place in the list of
-- the register server; any other address gets the channel that it had before, or channel 0.
pub open_all_connections-index :
    (p : Process) (a : String)
    → get_index_from_address a (open_all_connections p)
      ≡ elim (place a p.processes_addresses) [ some i ↦ i | none ↦ get_index_from_address a p ]
unfolding open_all_connections get_index_from_address
open_all_connections-index p a =
    ground (arith, index_addresses-lookup p.processes_addresses 0 p.channel_index a)

contains-place :
    (a : String) (bs : List String)
    → contains a bs ≡ elim (place a bs) [ none ↦ false | some _ ↦ true ]
unfolding contains place
contains-place a [] = refl
contains-place a (b ∷ bs) = ground (arith, contains-place a bs, eq_iff a b, eq_iff b a)

place_same :
    (a b : String) (cs : List String) (k : ℕ) → place a cs ≡ some k → place b cs ≡ some k → a ≡ b
unfolding place
place_same a b [] k ha hb = absurd (ground arith)
place_same a b (c ∷ cs) zero ha hb = ground (arith, eq_iff c a, eq_iff c b)
place_same a b (c ∷ cs) (suc k) ha hb = ground (arith, place_same a b cs k)

-- Exactly the listed addresses get a channel, where there were none.
pub open_all_connections-has :
    (p : Process) (a : String)
    → p.channel_index ≡ []
    → has a (open_all_connections p).channel_index ≡ contains a p.processes_addresses
unfolding open_all_connections has lookup
open_all_connections-has p a e = ground (
  arith,
  index_addresses-lookup p.processes_addresses 0 p.channel_index a,
  contains-place a p.processes_addresses,
)

-- Two listed addresses have the same channel only when they are the same.
pub open_all_connections-apart :
    (p : Process) (a b : String)
    → contains a p.processes_addresses ≡ true
    → contains b p.processes_addresses ≡ true
    → (get_index_from_address a (open_all_connections p)
        == get_index_from_address b (open_all_connections p))
      ≡ str_eq a b
open_all_connections-apart p a b ha hb =
    let as' = p.processes_addresses in
    ground (
      arith,
      open_all_connections-index p a,
      open_all_connections-index p b,
      contains-place a as',
      contains-place b as',
      place_same a b as' (get_index_from_address a (open_all_connections p)),
      eq_iff a b,
    )

-- The goroutines of a multicast, run one after another.
pub run_all : ℕ → Process → Process
run_all zero p = p
run_all (suc n) p = run_all n (run_spawned p)

abbrev pub targets : ℕ → Process → List String → List (ℕ × ℕ)
targets t p [] = []
targets t p (a ∷ as') = (get_index_from_address a p, t) ∷ targets t p as'

targets-index :
    (t : ℕ) (p p' : Process) (as' : List String)
    → p'.channel_index ≡ p.channel_index
    → targets t p' as' ≡ targets t p as'
unfolding get_index_from_address
targets-index t p p' [] e = refl
targets-index t p p' (a ∷ as') e = ground (arith, targets-index t p p' as' e)

abbrev with_spawned : ℕ → List String → Process → Process
with_spawned t as' p = record p { spawned = goroutines t as' }

sent_first :
    (t : ℕ) (a : String) (p : Process) (as' : List String)
    → sent_to (send_message t a p).channels ++ targets t (send_message t a p) as'
      ≡ sent_to p.channels ++ targets t p (a ∷ as')
unfolding send_message
sent_first t a p as' =
    rw (sent_to-append, targets-index t p (send_message t a p) as' refl)
      (append_assoc (sent_to p.channels) ((get_index_from_address a p, t) ∷ []) (targets t p as'))

run_all-goroutines :
    (t : ℕ) (as' : List String) (p : Process)
    → ((run_all (length as') (with_spawned t as' p)).spawned ≡ [])
      × (sent_to (run_all (length as') (with_spawned t as' p)).channels
          ≡ sent_to p.channels ++ targets t p as')
      × ((run_all (length as') (with_spawned t as' p)).state ≡ p.state)
unfolding run_all run_spawned goroutines send_message get_index_from_address
run_all-goroutines t [] p = (refl, sym (append-nil (sent_to p.channels)), refl)
run_all-goroutines t (a ∷ as') p =
    let rest = run_all-goroutines t as' (send_message t a p) in
    (rest.0, rest.1 ∙ sent_first t a p as', rest.2)

-- A multicast by a process with no goroutine left over sends one message of the given type to every
-- address of the list but its own, in the list's order, once its goroutines have run.
pub do_multicast-sends :
    (t : ℕ) (p : Process)
    → p.spawned ≡ []
    → ((run_all (length (others p.address p.processes_addresses)) (do_multicast t p)).spawned ≡ [])
      × (sent_to
            (run_all (length (others p.address p.processes_addresses)) (do_multicast t p)).channels
          ≡ sent_to p.channels ++ targets t p (others p.address p.processes_addresses))
unfolding do_multicast update_timestamp get_index_from_address
do_multicast-sends t p e =
    let names = others p.address p.processes_addresses in
    let sends = run_all-goroutines t names (tick p) in
    rw e
      (sends.0, sends.1 ∙ ap (λ l. sent_to p.channels ++ l) (targets-index t p (tick p) names refl))

-- The other addresses are exactly those of the list that differ from the own one.
pub contains-others :
    (own a : String) (as' : List String)
    → contains a (others own as') ≡ (if str_eq a own then false else contains a as')
unfolding others contains
contains-others own a [] = ground arith
contains-others own a (b ∷ bs) =
    ground (arith, contains-others own a bs, eq_iff b own, eq_iff a own, eq_iff b a)
