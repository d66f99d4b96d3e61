-- ===== src/RicartAgrawala/Main/Tests.antt =====
-- The three processes of main.go, of which the first enters the critical section.
use grupo.Prelude.{ℕ, List, [], ◌∷◌}
use grupo.RicartAgrawala.Counter
use grupo.RicartAgrawala.Queue
use grupo.RicartAgrawala.Utils.{request, reply, permission, wanted, held}
use grupo.RicartAgrawala.Message.{Message}
use grupo.RicartAgrawala.Register.{Event, registered, replied}
use grupo.RicartAgrawala.Process.{
  new_message, change_state, update_request_timestamp, update_timestamp, do_multicast, send_message,
  handle_request, send_permission_to_all_processes, clear_reply_counter,
}
use grupo.RicartAgrawala.System.{
  System, opened, greeting, greeted, idle, wanting, stamped, waiting, granted, inside, advance,
}
use grupo.RicartAgrawala.Main.{address_of, main}

-- A reply of the server comes before the last registration, to somebody else.
abbrev before : ℕ → List Event
before i =
    registered (address_of 2) ∷ registered (address_of 0) ∷ replied ∷ registered (address_of 1) ∷ []

abbrev all_started : System
all_started = main before

abbrev greeting_1 : System
greeting_1 =
    advance all_started 1 (send_permission_to_all_processes (all_started 1).process) greeting

abbrev permission_1 : Message
permission_1 = new_message permission (greeting_1 1).process

abbrev greeting_2 : System
greeting_2 = advance greeting_1 2 (send_permission_to_all_processes (greeting_1 2).process) greeting

abbrev permission_2 : Message
permission_2 = new_message permission (greeting_2 2).process

abbrev invited_by_1 : System
invited_by_1 =
    advance greeting_2 1
      (send_message permission (address_of 0)
        (record (greeting_2 1).process { spawned = (permission, address_of 2) ∷ [] }))
      greeting

abbrev invited_by_2 : System
invited_by_2 =
    advance invited_by_1 2
      (send_message permission (address_of 0)
        (record (invited_by_1 2).process { spawned = (permission, address_of 1) ∷ [] }))
      greeting

abbrev counted_1 : System
counted_1 =
    advance (advance invited_by_2 1 (record (invited_by_2 1).process { channels = [] }) greeting) 0
      (handle_request permission_1 (invited_by_2 0).process) opened

abbrev counted_2 : System
counted_2 =
    advance (advance counted_1 2 (record (counted_1 2).process { channels = [] }) greeting) 0
      (handle_request permission_2 (counted_1 0).process) opened

abbrev greeting_0 : System
greeting_0 = advance counted_2 0 (send_permission_to_all_processes (counted_2 0).process) greeting

abbrev greeted_0 : System
greeted_0 =
    advance greeting_0 0 (record (greeting_0 0).process { received_all_replies = 0 }) greeted

abbrev ready_0 : System
ready_0 = advance greeted_0 0 (clear_reply_counter (greeted_0 0).process) idle

abbrev wanted_0 : System
wanted_0 = advance ready_0 0 (change_state wanted (ready_0 0).process) wanting

abbrev stamped_0 : System
stamped_0 = advance wanted_0 0 (update_request_timestamp (wanted_0 0).process) stamped

abbrev asked_0 : System
asked_0 = advance stamped_0 0 (do_multicast request (stamped_0 0).process) waiting

abbrev asking : Message
asking = new_message request (asked_0 0).process

abbrev sent_to_1 : System
sent_to_1 =
    advance asked_0 0
      (send_message request (address_of 1) (record (asked_0 0).process {
        spawned =
            (permission, address_of 2) ∷ (permission, address_of 1) ∷ (request, address_of 2) ∷ [];
      }))
      waiting

abbrev sent_to_2 : System
sent_to_2 =
    advance sent_to_1 0
      (send_message request (address_of 2) (record (sent_to_1 0).process {
        spawned = (permission, address_of 2) ∷ (permission, address_of 1) ∷ [];
      }))
      waiting

abbrev answered_1 : System
answered_1 =
    advance
      (advance sent_to_2 0 (record (sent_to_2 0).process { channels = (0, asking) ∷ [] }) waiting) 1
      (handle_request asking (sent_to_2 1).process) greeting

abbrev answer_1 : Message
answer_1 = new_message reply (update_timestamp asking.timestamp (sent_to_2 1).process)

abbrev answered_2 : System
answered_2 =
    advance (advance answered_1 0 (record (answered_1 0).process { channels = [] }) waiting) 2
      (handle_request asking (answered_1 2).process) greeting

abbrev answer_2 : Message
answer_2 = new_message reply (update_timestamp asking.timestamp (answered_1 2).process)

abbrev heard_1 : System
heard_1 =
    advance (advance answered_2 1 (record (answered_2 1).process { channels = [] }) greeting) 0
      (handle_request answer_1 (answered_2 0).process) waiting

abbrev heard_2 : System
heard_2 =
    advance (advance heard_1 2 (record (heard_1 2).process { channels = [] }) greeting) 0
      (handle_request answer_2 (heard_1 0).process) waiting

abbrev granted_0 : System
granted_0 = advance heard_2 0 (record (heard_2 0).process { received_all_replies = 0 }) granted

abbrev entered_0 : System
entered_0 = advance granted_0 0 (change_state held (granted_0 0).process) inside
