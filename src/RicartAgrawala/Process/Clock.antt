-- ===== src/RicartAgrawala/Process/Clock.antt =====
-- The logical clock of a process only moves forward, and past every message that it receives.
use grupo.Prelude.{◌≡◌, ◌⊎◌, ◌<◌, ◌+◌, ◌^◌, arith}
use grupo.Prelude.Int.{IsNatural, add64_one, ℤ, pos, pos_part, ◌<ℤ◌}
use grupo.RicartAgrawala.Utils.{max}
use grupo.RicartAgrawala.Message.{Message}
use grupo.RicartAgrawala.Process.{
  Process, update_timestamp, increment_reply, handle_request, enqueue_message, send_message,
}

pub update_timestamp-later :
    (t : ℤ) (p : Process)
    → IsNatural t
    → IsNatural p.timestamp
    → pos_part t + 1 < 2 ^ 63
    → pos_part p.timestamp + 1 < 2 ^ 63
    → IsNatural (update_timestamp t p).timestamp
      × (t <ℤ (update_timestamp t p).timestamp)
      × (p.timestamp <ℤ (update_timestamp t p).timestamp)
      × (((update_timestamp t p).timestamp ≡ pos (pos_part p.timestamp + 1))
          ⊎ ((update_timestamp t p).timestamp ≡ pos (pos_part t + 1)))
unfolding update_timestamp max
update_timestamp-later t p nt np rt rp = (
  ground (arith, add64_one t, add64_one p.timestamp),
  ground (arith, add64_one t, add64_one p.timestamp),
  ground (arith, add64_one t, add64_one p.timestamp),
  ground (arith, add64_one t, add64_one p.timestamp),
)

-- After a message the clock of a process is later than it was, and later than the message's clock,
-- when neither clock is negative or within two of the greatest int.
pub handle_request-later :
    (msg : Message) (p : Process)
    → IsNatural msg.timestamp
    → IsNatural p.timestamp
    → pos_part msg.timestamp + 2 < 2 ^ 63
    → pos_part p.timestamp + 2 < 2 ^ 63
    → (p.timestamp <ℤ (handle_request msg p).timestamp)
      × (msg.timestamp <ℤ (handle_request msg p).timestamp)
unfolding handle_request increment_reply enqueue_message send_message
handle_request-later msg p nm np rm rp =
    let first = update_timestamp-later msg.timestamp p nm np (omega arith) (omega arith) in
    let p' = update_timestamp msg.timestamp p in
    let second =
      update_timestamp-later p'.timestamp p' first.0 first.0 (ground arith) (ground arith) in
    (ground arith, ground arith)

pub handle_request-IsNatural :
    (msg : Message) (p : Process)
    → IsNatural msg.timestamp
    → IsNatural p.timestamp
    → pos_part msg.timestamp + 2 < 2 ^ 63
    → pos_part p.timestamp + 2 < 2 ^ 63
    → IsNatural (handle_request msg p).timestamp
unfolding handle_request increment_reply enqueue_message send_message
handle_request-IsNatural msg p nm np rm rp =
    let first = update_timestamp-later msg.timestamp p nm np (omega arith) (omega arith) in
    let p' = update_timestamp msg.timestamp p in
    let second =
      update_timestamp-later p'.timestamp p' first.0 first.0 (ground arith) (ground arith) in
    (ground arith, ground arith)
