-- ===== src/RicartAgrawala/Tests.antt =====
-- Two processes with their requests, and the theorems at concrete inputs.
use grupo.Prelude.Bytes.{Bytes, codes, split}
use grupo.Prelude.Numerals.{itoa, digits_of}
use grupo.RicartAgrawala.CriticalRegion.{
  handle_connection, handle_info, handle_address, region_message, IsDrawn,
  handle_connection-region_message,
}
use grupo.Prelude.{none, All, leb, if◌then◌else◌, ◌≡◌, refl, some, [], ◌∷◌, ◌++◌, length, arith}
use grupo.Prelude.Int.{pos}
use grupo.RicartAgrawala.Utils.{request, wanted, released, held}
use grupo.RicartAgrawala.Message.{Message}
use grupo.RicartAgrawala.Process.{Process, handle_request, new_message, leave_critical_section}
use grupo.RicartAgrawala.Utils.{reply}
use grupo.RicartAgrawala.Handling.{received, handled, interleave}
use grupo.RicartAgrawala.Handling.Races.{both_add, in_turn, double_signal}
use grupo.RicartAgrawala.Process.Requests.{
  Defers, Deferred, Replied, handle_request_lem, interrupted, both_defer,
}
use grupo.RicartAgrawala.Process.Leaving.{sent_to, replies_to, leave_critical_section_lem}

-- Process 1 in a group of three; it wants the critical section since time 4.
abbrev ana : Process
ana = record {
  address = "localhost:1";
  id = pos 1;
  state = wanted;
  timestamp = pos 6;
  request_timestamp = pos 4;
  processes_addresses = "localhost:1" ∷ "localhost:2" ∷ "localhost:3" ∷ [];
  s = record { counter = 0 };
  q = record { buffer = [] };
  channel_index = ("localhost:1", 0) ∷ ("localhost:2", 1) ∷ ("localhost:3", 2) ∷ [];
  channels = [];
  received_all_replies = 0;
  spawned = [];
}

-- Process 2, whose request is of time 5.
abbrev bia : Process
bia = record ana {
  address = "localhost:2";
  id = pos 2;
  timestamp = pos 7;
  request_timestamp = pos 5;
}

abbrev bia_asks : Message
bia_asks = new_message request bia

-- Process 1 in the critical section, with the request of process 2 in its queue.
abbrev ana_inside : Process
ana_inside = record ana { state = held; q = record { buffer = bia_asks ∷ [] } }

-- The last two replies that process 1 waits for.
abbrev bia_replies : Message
bia_replies = new_message reply bia

abbrev carla_replies : Message
carla_replies = record bia_replies { id = pos 3; address = "localhost:3" }

double_signal_example :
    let raced = interleave both_add (received bia_replies, received carla_replies, ana) in
    let ordered = interleave in_turn (received bia_replies, received carla_replies, ana) in
    (raced.0 ≡ handled)
    × (raced.1 ≡ handled)
    × (raced.2.received_all_replies ≡ 2)
    × (ordered.0 ≡ handled)
    × (ordered.1 ≡ handled)
    × (ordered.2.received_all_replies ≡ 1)
    × (raced.2.s.counter ≡ ordered.2.s.counter)
double_signal_example = double_signal bia_replies carla_replies ana refl refl refl

handle_request_lem_example :
    (Defers ana_inside bia_asks → Deferred bia_asks ana_inside (handle_request bia_asks ana_inside))
    × (¬ (Defers ana_inside bia_asks)
        → Replied bia_asks ana_inside (handle_request bia_asks ana_inside))
    × ((handle_request bia_asks ana_inside).state ≡ held)
    × ((handle_request bia_asks ana_inside).request_timestamp ≡ pos 4)
    × ((handle_request bia_asks ana_inside).s ≡ ana_inside.s)
handle_request_lem_example = handle_request_lem bia_asks ana_inside refl

both_defer_example :
    Deferred bia_asks ana (interrupted ana bia)
    × Deferred
        (new_message request (interrupted ana bia))
        bia
        (handle_request (new_message request (interrupted ana bia)) bia)
both_defer_example =
    both_defer ana bia (refl, ground arith) (ground arith) (refl, ground arith) (ground arith) refl
      (ground arith) (ground arith)

leave_critical_section_lem_example :
    (r : Process) × (leave_critical_section ana_inside ≡ some r)
    × (r.state ≡ released)
    × (r.q.buffer ≡ [])
    × (r.s.counter ≡ 0)
    × (sent_to r.channels ≡ [] ++ replies_to ana_inside (bia_asks ∷ []))
    × (r.request_timestamp ≡ pos 4)
leave_critical_section_lem_example = leave_critical_section_lem ana_inside

handle_connection-region_message_example :
    (answer : Bytes) × (handle_connection (λ i. if leb i 61 then i else 0) (region_message ana)
      ≡ some (record {
        address = codes "localhost:1";
        timestamp = itoa (pos 6);
        port = pos 1;
        answer = answer;
      }))
    × (length answer ≡ 10)
    × All IsDrawn answer
unfolding itoa digits_of
handle_connection-region_message_example =
    handle_connection-region_message (λ i. if leb i 61 then i else 0) ana (codes "localhost") 1 6
      refl refl (ground arith) (ground arith) (omega arith) (λ k. ground arith)

-- An address without a port panics.
no_port : handle_connection (λ i. 0) (codes "localhost|3") ≡ none
unfolding handle_connection handle_info handle_address split
no_port = refl
