-- ===== src/RicartAgrawala/Process/Replies.antt =====
-- Counting replies: the signal that lets the process in.
use grupo.Prelude.{◌≡◌, ◌≢◌, ◌⊎◌, refl, List, [], ◌∷◌, All, length, ◌<◌, ◌+◌, arith}
use grupo.RicartAgrawala.Utils.{reply, permission}
use grupo.RicartAgrawala.Message.{Message}
use grupo.RicartAgrawala.Process.{
  Process, update_timestamp, increment_reply, handle_request, number_of_processes,
}

abbrev pub IsReply : Message → Type 0
IsReply msg = (msg.type_message ≡ reply) ⊎ (msg.type_message ≡ permission)

-- handleRequest on one message after another.
pub handle_all : List Message → Process → Process
handle_all [] p = p
handle_all (m ∷ ms) p = handle_all ms (handle_request m p)

pub handle_reply :
    (msg : Message) (p : Process)
    → IsReply msg
    → ((handle_request msg p).s.counter ≡ p.s.counter + 1)
      × ((handle_request msg p).processes_addresses ≡ p.processes_addresses)
      × ((handle_request msg p).channels ≡ p.channels)
      × ((handle_request msg p).q ≡ p.q)
      × ((handle_request msg p).state ≡ p.state)
      × (p.s.counter + 2 ≡ number_of_processes p
          → (handle_request msg p).received_all_replies ≡ p.received_all_replies + 1)
      × (p.s.counter + 2 ≢ number_of_processes p
          → (handle_request msg p).received_all_replies ≡ p.received_all_replies)
unfolding handle_request increment_reply update_timestamp
handle_reply msg p h = (
  ground arith,
  ground arith,
  ground arith,
  ground arith,
  ground arith,
  λ e. ground arith,
  λ e. ground arith,
)

-- Replies and permissions, no more than complete the replies of the other processes, are counted:
-- with fewer than all there is no signal to go on, and with the last of them there is one. They
-- change neither the state nor the queue of the process, and it sends nothing.
pub handle_all_replies :
    (ms : List Message) (p : Process)
    → All IsReply ms
    → p.s.counter + length ms < number_of_processes p
    → ((handle_all ms p).s.counter ≡ p.s.counter + length ms)
      × ((handle_all ms p).channels ≡ p.channels)
      × ((handle_all ms p).q ≡ p.q)
      × ((handle_all ms p).state ≡ p.state)
      × (p.s.counter + length ms + 1 < number_of_processes p
          → (handle_all ms p).received_all_replies ≡ p.received_all_replies)
      × (0 < length ms
          → p.s.counter + length ms + 1 ≡ number_of_processes p
          → (handle_all ms p).received_all_replies ≡ p.received_all_replies + 1)
unfolding handle_all
handle_all_replies [] p h b = (omega arith, refl, refl, refl, λ _. refl, λ z. absurd (omega arith))
handle_all_replies (m ∷ []) p h b =
    let one = handle_reply m p h.0 in
    (ground arith, ground arith, ground arith, ground arith, λ z. ground arith, λ y z. ground arith)
handle_all_replies (m ∷ n ∷ ms) p h b =
    let one = handle_reply m p h.0 in
    let rest = handle_all_replies (n ∷ ms) (handle_request m p) h.1 (ground arith) in
    (ground arith, ground arith, ground arith, ground arith, λ z. ground arith, λ y z. ground arith)
