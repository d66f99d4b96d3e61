-- ===== src/RicartAgrawala/Register.antt =====
-- ricart_agrawala/server/main.go: the register of addresses. A connection registers its address, waits
-- three seconds and replies with the keys of the map, so a run is a list of registrations and replies.
pub mod Listing
use grupo.Prelude.{
  String, ◌+◌, Bool, true, ◌≡◌, refl, ◌∙◌, ap, List, [], ◌∷◌, ◌++◌, arith, contains, str_eq, eq_iff,
  ◌||◌, if◌then◌else◌,
}
use grupo.Prelude.GoMap.{GoMap, insert, keys, has, lookup, lookup-insert}
use grupo.RicartAgrawala.System.Tally.{bit, tally}

-- The field data of the server.
abbrev pub Server : Type 0
Server = GoMap Bool

abbrev pub run_server : Server
run_server = []

-- handle_connection, up to its sleep
unfoldable pub register : String → Server → Server
register address all = insert address true all

-- handle_connection, from its sleep on
unfoldable pub reply_keys : Server → List String
reply_keys all = keys all

-- Registrations and replies, as they take the lock and read the map.
pub data Event : Type 0 where
  registered : String → Event
  replied : Event

-- The replies of a run, and the map after it.
unfoldable pub replies : List Event → Server → List (List String) × Server
replies [] all = ([], all)
replies (registered a ∷ rest) all = replies rest (register a all)
replies (replied ∷ rest) all = let (later, end) = replies rest all in (reply_keys all ∷ later, end)

-- The addresses that a run registers.
abbrev pub addresses_of : List Event → List String
addresses_of [] = []
addresses_of (registered a ∷ rest) = a ∷ addresses_of rest
addresses_of (replied ∷ rest) = addresses_of rest

tally-insert :
    (a address : String) (all : Server)
    → tally (λ b. str_eq b a) (keys (insert address true all))
      ≡ tally (λ b. str_eq b a) (keys all) + (if has address all then 0 else bit (str_eq address a))
unfolding tally keys insert has lookup
tally-insert a address [] = ground arith
tally-insert a address ((b, v) ∷ all) = ground (arith, tally-insert a address all, eq_iff b address)

tally-replies :
    (a : String) (events : List Event) (all : Server)
    → tally (λ b. str_eq b a) (keys all) ≡ bit (has a all)
    → tally (λ b. str_eq b a) (keys (replies events all).1)
      ≡ bit (contains a (addresses_of events) || has a all)
unfolding replies register contains has
tally-replies a [] all h = h
tally-replies a (registered c ∷ rest) all h =
    let known =
      tally-replies a rest (insert c true all)
        (ground (arith, tally-insert a c all, lookup-insert c a true all, eq_iff c a, h)) in
    known ∙ ground (arith, lookup-insert c a true all, eq_iff c a, eq_iff a c)
tally-replies a (replied ∷ rest) all h = tally-replies a rest all h

replies-append :
    (before after : List Event) (all : Server)
    → (replies (before ++ after) all).0
      ≡ (replies before all).0 ++ (replies after (replies before all).1).0
unfolding replies
replies-append [] after all = refl
replies-append (registered a ∷ before) after all = replies-append before after (register a all)
replies-append (replied ∷ before) after all =
    ap (λ l. reply_keys all ∷ l) (replies-append before after all)

-- Whatever registrations and replies come before it and after it, a reply of the server lists every
-- address that was registered before it exactly once, however often it was, and no other address.
pub reply_after :
    (before after : List Event)
    → ((replies (before ++ replied ∷ after) run_server).0
        ≡ (replies before run_server).0
          ++ (reply_keys (replies before run_server).1
              ∷ (replies after (replies before run_server).1).0))
      × ((a : String)
          → tally (λ b. str_eq b a) (reply_keys (replies before run_server).1)
            ≡ bit (contains a (addresses_of before)))
unfolding replies reply_keys has lookup keys tally
reply_after before after = (
  replies-append before (replied ∷ after) run_server,
  λ a. tally-replies a before run_server refl ∙ ground arith,
)
