-- ===== src/RicartAgrawala/Handling/Races.antt =====
-- What goroutines without a common lock do to each other in handleRequest.
use grupo.Prelude.{◌+◌, Bool, true, false, ◌≡◌, List, [], ◌∷◌, ◌||◌, ◌==◌, arith}
use grupo.RicartAgrawala.Utils.{reply, permission}
use grupo.RicartAgrawala.Message.{Message}
use grupo.RicartAgrawala.Counter.{add_reply}
use grupo.RicartAgrawala.Process.{Process, update_timestamp, number_of_processes}
use grupo.RicartAgrawala.Handling.{received, handled, stage, interleave}

-- Both add their reply before either tests the size; and one after the other.
abbrev pub both_add : List Bool
both_add = true ∷ true ∷ true ∷ false ∷ false ∷ false ∷ true ∷ true ∷ false ∷ false ∷ []

abbrev pub in_turn : List Bool
in_turn = true ∷ true ∷ true ∷ true ∷ true ∷ false ∷ false ∷ false ∷ false ∷ false ∷ []

-- When a process handles the last two replies, or permissions, that it waits for, and both of the
-- goroutines add theirs before either tests the size, both send the signal; when one goroutine follows
-- the other, only one signal is sent. The counter is the same in the end.
pub double_signal :
    (m m' : Message) (p : Process)
    → ((m.type_message == reply) || (m.type_message == permission)) ≡ true
    → ((m'.type_message == reply) || (m'.type_message == permission)) ≡ true
    → p.s.counter + 3 ≡ number_of_processes p
    → let raced = interleave both_add (received m, received m', p) in
      let ordered = interleave in_turn (received m, received m', p) in
      (raced.0 ≡ handled)
      × (raced.1 ≡ handled)
      × (raced.2.received_all_replies ≡ p.received_all_replies + 2)
      × (ordered.0 ≡ handled)
      × (ordered.1 ≡ handled)
      × (ordered.2.received_all_replies ≡ p.received_all_replies + 1)
      × (raced.2.s.counter ≡ ordered.2.s.counter)
unfolding interleave stage add_reply update_timestamp
double_signal m m' p r r' last = ground arith
