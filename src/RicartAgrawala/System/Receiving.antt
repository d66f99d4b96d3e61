-- ===== src/RicartAgrawala/System/Receiving.antt =====
-- What a process does with a message, for each process of the group.
use grupo.Prelude.{◌+◌, ◌<◌, ◌^◌, true, false, ◌≡◌, ◌≢◌, ◌⊎◌, ap, arith}
use grupo.Prelude.Int.{IsNatural, pos_part, ◌<ℤ◌}
use grupo.RicartAgrawala.Utils.{is_minor}
use grupo.RicartAgrawala.Message.{Message}
use grupo.RicartAgrawala.Queue
use grupo.RicartAgrawala.Process.{
  Process, number_of_processes, get_index_from_address, handle_request, update_timestamp,
  enqueue_message, increment_reply, send_message,
}
use grupo.RicartAgrawala.Process.Clock.{handle_request-later, handle_request-IsNatural}
use grupo.RicartAgrawala.Process.Requests.{Defers, Deferred, Replied}
use grupo.RicartAgrawala.Process.Replies.{handle_reply}
use grupo.RicartAgrawala.System.Later.{Later}
use grupo.RicartAgrawala.System.Views.{is_reply}

-- A message leaves the request, the goroutines and the state of a process alone.
pub record Undisturbed (p p' : Process) : Type 0 where
  pub request_timestamp : p'.request_timestamp ≡ p.request_timestamp
  pub spawned : p'.spawned ≡ p.spawned
  pub state : p'.state ≡ p.state

pub handle_request-Undisturbed : (m : Message) (p : Process) → Undisturbed p (handle_request m p)
unfolding handle_request increment_reply enqueue_message send_message update_timestamp
handle_request-Undisturbed m p = record {
  request_timestamp = ground arith;
  spawned = ground arith;
  state = ground arith;
}

pub handle_request-Later :
    (m : Message) (p : Process)
    → IsNatural m.timestamp
    → IsNatural p.timestamp
    → pos_part m.timestamp + 3 < 2 ^ 63
    → pos_part p.timestamp + 3 < 2 ^ 63
    → Later p (handle_request m p) × (m.timestamp <ℤ (handle_request m p).timestamp)
unfolding handle_request increment_reply enqueue_message send_message update_timestamp
handle_request-Later m p nm np rm rp =
    let (passed, heard) = handle_request-later m p nm np (omega arith) (omega arith) in
    (
      record {
        address = ground arith;
        id = ground arith;
        addresses = ground arith;
        channel_index = ground arith;
        natural = handle_request-IsNatural m p nm np (omega arith) (omega arith);
        passed = omega arith;
      },
      heard,
    )

-- The reply case, and the two request cases, as equations on the lists.
pub record Counted (p p' : Process) : Type 0 where
  pub counter : p'.s.counter ≡ p.s.counter + 1
  pub channels : p'.channels ≡ p.channels
  pub buffer : p'.q.buffer ≡ p.q.buffer
  pub last :
      p.s.counter + 2 ≡ number_of_processes p → p'.received_all_replies ≡ p.received_all_replies + 1
  pub not_last :
      p.s.counter + 2 ≢ number_of_processes p → p'.received_all_replies ≡ p.received_all_replies

pub handle_request-Counted :
    (m : Message) (p : Process) → is_reply m ≡ true → Counted p (handle_request m p)
handle_request-Counted m p h =
    let (counter, _, channels, q, _, last, not_last) = handle_reply m p (ground arith) in
    record {
      counter = counter;
      channels = channels;
      buffer = ap (λ (r : Queue.MessageQueue). r.buffer) q;
      last = last;
      not_last = not_last;
    }

pub record Unsignalled (p p' : Process) : Type 0 where
  pub counter : p'.s.counter ≡ p.s.counter
  pub received : p'.received_all_replies ≡ p.received_all_replies

pub handle_request-Unsignalled :
    (m : Message) (p : Process) → is_reply m ≡ false → Unsignalled p (handle_request m p)
unfolding handle_request enqueue_message send_message update_timestamp
handle_request-Unsignalled m p h = record { counter = ground arith; received = ground arith }

-- A request is deferred, or answered when the own request does not precede it.
pub handle_request-cases :
    (m : Message) (p : Process)
    → is_reply m ≡ false
    → Deferred m p (handle_request m p)
      ⊎ (Replied m p (handle_request m p)
          × ¬ (Defers p m)
          × ((handle_request m p).timestamp ≡ (update_timestamp m.timestamp p).timestamp))
unfolding handle_request update_timestamp enqueue_message Queue.push send_message
    get_index_from_address is_minor
handle_request-cases m p h = ground arith
