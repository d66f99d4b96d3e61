-- ===== src/RicartAgrawala/Handling.antt =====
-- ricart_agrawala/ricart_agrawala.go and process.go: handleRequest taken apart at its accesses to the
-- process, since each connection has a goroutine of its own and they share no lock. A process may have
-- any number of messages at any of these stages, and its own methods may run in between.
pub mod Stages
pub mod Races
use grupo.Prelude.{
  ℕ, zero, suc, ◌+◌, Bool, true, false, List, [], ◌∷◌, ◌&&◌, ◌||◌, ◌==◌, if◌then◌else◌,
}
use grupo.RicartAgrawala.Utils.{reply, permission, wanted, held}
use grupo.RicartAgrawala.Message.{Message}
use grupo.RicartAgrawala.Counter.{add_reply, size}
use grupo.RicartAgrawala.Process.{
  Process, tick, update_timestamp, number_of_processes, signal_if_all, increment_reply,
  enqueue_message, send_message, less, handle_request,
}

-- How far the handling of a message is: the message has been decoded; the clock is updated; in
-- incrementReply, the clock is updated again, the reply is added, all replies are there and the send
-- of the signal comes next; p.state has been read once and was not HELD; the message is to be
-- enqueued, or to be answered; nothing is left to do.
pub data Handling : Type 0 where
  received clocked not_held deferring answering : Message → Handling
  counting added signalling handled : Handling

-- The next access of a goroutine that handles a message.
unfoldable pub stage : Handling → Process → Handling × Process
stage (received msg) p = (clocked msg, update_timestamp msg.timestamp p)
stage (clocked msg) p =
    if (msg.type_message == reply) || (msg.type_message == permission)
    then (counting, tick p)
    else if p.state == held
    then (deferring msg, p)
    else (not_held msg, p)
stage counting p = (added, record p { s = add_reply p.s })
stage added p = if size p.s + 1 == number_of_processes p then (signalling, p) else (handled, p)
stage signalling p = (handled, record p { received_all_replies = p.received_all_replies + 1 })
stage (not_held msg) p =
    if (p.state == wanted) && less p msg then (deferring msg, p) else (answering msg, p)
stage (deferring msg) p = (handled, enqueue_message msg p)
stage (answering msg) p = (handled, send_message reply msg.address p)
stage handled p = (handled, p)

unfoldable pub stages : ℕ → Handling → Process → Handling × Process
stages zero h p = (h, p)
stages (suc n) h p = let (h', p') = stage h p in stages n h' p'

-- What is left of the handling, when nothing comes in between.
unfoldable pub rest_of : Handling → Process → Process
rest_of (received msg) p = handle_request msg p
rest_of (clocked msg) p =
    if (msg.type_message == reply) || (msg.type_message == permission)
    then increment_reply p
    else if (p.state == held) || ((p.state == wanted) && less p msg)
    then enqueue_message msg p
    else send_message reply msg.address p
rest_of counting p = signal_if_all (record p { s = add_reply p.s })
rest_of added p = signal_if_all p
rest_of signalling p = record p { received_all_replies = p.received_all_replies + 1 }
rest_of (not_held msg) p =
    if (p.state == wanted) && less p msg
    then enqueue_message msg p
    else send_message reply msg.address p
rest_of (deferring msg) p = enqueue_message msg p
rest_of (answering msg) p = send_message reply msg.address p
rest_of handled p = p

-- The messages in progress, one after the other.
unfoldable pub settle_all : List Handling → Process → Process
settle_all [] p = p
settle_all (h ∷ hs) p = settle_all hs (rest_of h p)

-- Two messages in progress: `true` is an access of the first, `false` of the second.
unfoldable pub interleave :
    List Bool → Handling × Handling × Process → Handling × Handling × Process
interleave [] s = s
interleave (true ∷ order) (h, h', p) = let (next, p') = stage h p in interleave order (next, h', p')
interleave (false ∷ order) (h, h', p) =
    let (next, p') = stage h' p in interleave order (h, next, p')
