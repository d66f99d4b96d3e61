-- ===== src/RicartAgrawala/Shared/Tests.antt =====
-- Two processes, of which the first enters the critical section, or which wait for each other, and the
-- theorems at these runs.
use grupo.Prelude.{[]}
use grupo.RicartAgrawala.Counter
use grupo.RicartAgrawala.Queue
use grupo.RicartAgrawala.Utils.{request, reply, wanted, held}
use grupo.RicartAgrawala.Message.{Message}
use grupo.RicartAgrawala.Process.{
  Process, new_message, change_state, update_request_timestamp, update_timestamp, do_multicast,
  send_message, handle_request,
}
use grupo.RicartAgrawala.System.{System, wanting, stamped, waiting, granted, inside, idle, advance}
use grupo.RicartAgrawala.Shared
use grupo.RicartAgrawala.Shared.TestRuns.{first}

-- Process 0 wants the critical section, gets the reply of process 1 and enters.
abbrev wanted_by_0 : System
wanted_by_0 = advance first 0 (change_state wanted (first 0).process) wanting

abbrev stamped_by_0 : System
stamped_by_0 = advance wanted_by_0 0 (update_request_timestamp (wanted_by_0 0).process) stamped

abbrev asked_by_0 : System
asked_by_0 = advance stamped_by_0 0 (do_multicast request (stamped_by_0 0).process) waiting

abbrev sent_by_0 : System
sent_by_0 =
    advance asked_by_0 0
      (send_message request "localhost:2" (record (asked_by_0 0).process { spawned = [] })) waiting

abbrev asking : Message
asking = new_message request (asked_by_0 0).process

abbrev answered_by_1 : System
answered_by_1 =
    advance (advance sent_by_0 0 (record (sent_by_0 0).process { channels = [] }) waiting) 1
      (handle_request asking (sent_by_0 1).process) idle

abbrev answering : Message
answering = new_message reply (update_timestamp asking.timestamp (sent_by_0 1).process)

abbrev heard_by_0 : System
heard_by_0 =
    advance (advance answered_by_1 1 (record (answered_by_1 1).process { channels = [] }) idle) 0
      (handle_request answering (answered_by_1 0).process) waiting

abbrev granted_to_0 : System
granted_to_0 =
    advance heard_by_0 0 (record (heard_by_0 0).process { received_all_replies = 0 }) granted

abbrev entered_by_0 : System
entered_by_0 = advance granted_to_0 0 (change_state held (granted_to_0 0).process) inside

-- Process 1 asks before process 0 has stamped its request: each defers the other.
abbrev both_wanted : System
both_wanted = advance wanted_by_0 1 (change_state wanted (wanted_by_0 1).process) wanting

abbrev stamped_by_1 : System
stamped_by_1 = advance both_wanted 1 (update_request_timestamp (both_wanted 1).process) stamped

abbrev asked_by_1 : System
asked_by_1 = advance stamped_by_1 1 (do_multicast request (stamped_by_1 1).process) waiting

abbrev sent_by_1 : System
sent_by_1 =
    advance asked_by_1 1
      (send_message request "localhost:1" (record (asked_by_1 1).process { spawned = [] })) waiting

abbrev early : Message
early = new_message request (asked_by_1 1).process

abbrev deferred_by_0 : System
deferred_by_0 =
    advance (advance sent_by_1 1 (record (sent_by_1 1).process { channels = [] }) waiting) 0
      (handle_request early (sent_by_1 0).process) wanting

abbrev late_stamp : System
late_stamp = advance deferred_by_0 0 (update_request_timestamp (deferred_by_0 0).process) stamped

abbrev late_asked : System
late_asked = advance late_stamp 0 (do_multicast request (late_stamp 0).process) waiting

abbrev late_sent : System
late_sent =
    advance late_asked 0
      (send_message request "localhost:2" (record (late_asked 0).process { spawned = [] })) waiting

abbrev late : Message
late = new_message request (late_asked 0).process

abbrev both_deferred : System
both_deferred =
    advance (advance late_sent 0 (record (late_sent 0).process { channels = [] }) waiting) 1
      (handle_request late (late_sent 1).process) waiting
