-- ===== src/RicartAgrawala/Process.antt =====
-- ricart_agrawala/process.go and ricart_agrawala.go: one process and its methods, each as it runs when
-- no other goroutine of the process comes in between. What a process hands over to its connections is a
-- list of channels and messages, and a send of the reply signal, for which its goroutine waits, is
-- counted. `Handling` takes handleRequest apart.
pub mod Requests
pub mod Replies
pub mod Leaving
pub mod Clock
pub mod Addresses
use grupo.Prelude.{
  ℕ, zero, suc, ◌+◌, String, Bool, true, false, Option, none, some, List, [], ◌∷◌, ◌++◌, length,
  not, ◌&&◌, ◌||◌, ◌==◌, str_eq, ◌>>=◌, if◌then◌else◌,
}
use grupo.Prelude.Int.{ℤ, pos, add64}
use grupo.Prelude.GoMap.{GoMap, lookup, insert}
use grupo.RicartAgrawala.Utils.{reply, request, permission, wanted, released, held, max, is_minor}
use grupo.RicartAgrawala.Message.{Message}
use grupo.RicartAgrawala.Counter.{ReplyCounter, new_reply_counter, add_reply, size, clear}
use grupo.RicartAgrawala.Queue
use grupo.RicartAgrawala.Queue.{MessageQueue}

pub record Process : Type 0 where
  pub address : String
  pub id : ℤ
  pub state : ℕ
  pub timestamp : ℤ
  pub request_timestamp : ℤ
  pub processes_addresses : List String
  pub s : ReplyCounter
  pub q : MessageQueue
  pub channel_index : GoMap ℕ
  -- messages handed to the channels, with the channel's index
  pub channels : List (ℕ × Message)
  -- sends on receivedAllReplies that nobody has received yet
  pub received_all_replies : ℕ
  -- goroutines of doMulticast that have not run yet: the type of message and the address
  pub spawned : List (ℕ × String)

-- newProcess(port), where `address` is "localhost:" with the port's digits: the state is the zero
-- value, which is WANTED.
unfoldable pub new_process : ℤ → String → Process
unfolding new_reply_counter Queue.new_message_queue
new_process port address = record {
  address = address;
  id = port;
  state = wanted;
  timestamp = pos 0;
  request_timestamp = pos 0;
  processes_addresses = [];
  s = new_reply_counter;
  q = Queue.new_message_queue;
  channel_index = [];
  channels = [];
  received_all_replies = 0;
  spawned = [];
}

-- getState()
get_state : Process → String
get_state p =
    if p.state == held
    then "HELD"
    else if p.state == released
    then "RELEASED"
    else if p.state == wanted
    then "WANTED"
    else ""

abbrev pub number_of_processes : Process → ℕ
number_of_processes p = length p.processes_addresses

-- updateTimestamp(timestamp)
unfoldable pub update_timestamp : ℤ → Process → Process
update_timestamp t p = record p { timestamp = add64 (max p.timestamp t) (pos 1) }

-- updateTimestamp(p.timestamp)
abbrev pub tick : Process → Process
tick p = update_timestamp p.timestamp p

unfoldable pub signal_if_all : Process → Process
signal_if_all p =
    if size p.s + 1 == number_of_processes p
    then record p { received_all_replies = p.received_all_replies + 1 }
    else p

-- incrementReply(): `size() == numberOfProcesses() - 1`, written without the subtraction.
unfoldable pub increment_reply : Process → Process
unfolding signal_if_all add_reply
increment_reply p = let p' = tick p in signal_if_all (record p' { s = add_reply p'.s })

unfoldable pub clear_reply_counter : Process → Process
unfolding clear
clear_reply_counter p = let p' = tick p in record p' { s = clear p'.s }

unfoldable pub enqueue_message : Message → Process → Process
enqueue_message msg p = let p' = tick p in record p' { q = Queue.push msg p'.q }

-- getMessageQueueTopRequest(): `none` is the panic of a pop of an empty queue.
unfoldable pub get_message_queue_top_request : Process → Option (String × Process)
get_message_queue_top_request p = do
  let p' = tick p
  (msg, q') ← Queue.pop p'.q
  some (msg.address, record p' { q = q' })

unfoldable pub is_message_queue_empty : Process → Bool × Process
is_message_queue_empty p = let p' = tick p in (Queue.empty p'.q, p')

unfoldable pub change_state : ℕ → Process → Process
change_state state p = record (tick p) { state = state }

unfoldable pub update_request_timestamp : Process → Process
update_request_timestamp p = record p { request_timestamp = p.timestamp }

-- getIndexFromAddress(address): a missing key gives 0.
unfoldable pub get_index_from_address : String → Process → ℕ
get_index_from_address address p = elim (lookup address p.channel_index) [ none ↦ 0 | some i ↦ i ]

-- The message that sendMessage makes.
abbrev pub new_message : ℕ → Process → Message
new_message type_message p = record {
  request_timestamp = p.request_timestamp;
  timestamp = p.timestamp;
  type_message = type_message;
  id = p.id;
  address = p.address;
}

-- sendMessage(typeMessage, address)
unfoldable pub send_message : ℕ → String → Process → Process
send_message type_message address p = record p {
  channels = p.channels ++ (get_index_from_address address p, new_message type_message p) ∷ [];
}

unfoldable pub others : String → List String → List String
others own [] = []
others own (a ∷ as') = let rest = others own as' in if str_eq a own then rest else a ∷ rest

unfoldable pub goroutines : ℕ → List String → List (ℕ × String)
goroutines type_message [] = []
goroutines type_message (a ∷ as') = (type_message, a) ∷ goroutines type_message as'

-- doMulticast(typeMessage): one goroutine for each other process.
unfoldable pub do_multicast : ℕ → Process → Process
unfolding others goroutines
do_multicast type_message p =
    let p' = tick p in
    record p' {
      spawned = p'.spawned ++ goroutines type_message (others p'.address p'.processes_addresses);
    }

-- The goroutine at the head of the list runs: its message holds the clock of this moment.
unfoldable pub run_spawned : Process → Process
run_spawned p = elim p.spawned [
  | [] ↦ p
  | (t, a) ∷ rest ↦ send_message t a (record p { spawned = rest })
]

-- less(p, msg)
abbrev pub less : Process → Message → Bool
less p msg = is_minor p.request_timestamp p.id msg.request_timestamp msg.id

-- The body of handleRequest's loop, for one message.
unfoldable pub handle_request : Message → Process → Process
handle_request msg p =
    let p' = update_timestamp msg.timestamp p in
    if (msg.type_message == reply) || (msg.type_message == permission)
    then increment_reply p'
    else if (p'.state == held) || ((p'.state == wanted) && less p' msg)
    then enqueue_message msg p'
    else send_message reply msg.address p'

-- <-p.receivedAllReplies: `none` while there is nothing to receive.
unfoldable pub wait_all_processes_replies : Process → Option Process
wait_all_processes_replies p = elim p.received_all_replies [
  | zero ↦ none
  | suc n ↦ some (record p { received_all_replies = n })
]

-- sendPermissionToAllProcesses(), up to its wait and from it on.
unfoldable pub send_permission_to_all_processes : Process → Process
send_permission_to_all_processes p = do_multicast permission p

unfoldable pub permission_received : Process → Option Process
permission_received p = do p' ← wait_all_processes_replies p; some (clear_reply_counter p')

-- enterOnCriticalSection(), up to its wait and from it on.
unfoldable pub request_critical_section : Process → Process
request_critical_section p = do_multicast request (update_request_timestamp (change_state wanted p))

unfoldable pub enter_critical_section : Process → Option Process
enter_critical_section p = do p' ← wait_all_processes_replies p; some (change_state held p')

-- replyAllEnqueuedRequests(), with `fuel` rounds; `none` is a panic, or that the fuel ran out.
unfoldable pub reply_all_enqueued_requests : ℕ → Process → Option Process
reply_all_enqueued_requests zero p = none
reply_all_enqueued_requests (suc fuel) p =
    let (is_empty, p') = is_message_queue_empty p in
    elim is_empty [
      | true ↦ some p'
      | false ↦ do
        (address, p2) ← get_message_queue_top_request p'
        reply_all_enqueued_requests fuel (send_message reply address p2)
    ]

-- leaveCriticalSection(): a queue of n messages takes n + 1 tests of the loop.
unfoldable pub leave_critical_section : Process → Option Process
leave_critical_section p = do
  let p' = change_state released p
  p2 ← reply_all_enqueued_requests (Queue.size p'.q + 1) p'
  let p3 = clear_reply_counter p2
  some (tick p3)

-- openAllProcessesTCPConnections(), but for the connections: the index of each address.
index_addresses : List String → ℕ → GoMap ℕ → GoMap ℕ
index_addresses [] i m = m
index_addresses (a ∷ as') i m = index_addresses as' (i + 1) (insert a i m)

unfoldable pub open_all_connections : Process → Process
unfolding index_addresses
open_all_connections p = record p {
  channel_index = index_addresses p.processes_addresses 0 p.channel_index;
}

-- startProcess(), given the addresses that the register server replies with.
unfoldable pub start_process : List String → Process → Process
start_process addresses p =
    let p' = change_state released p in
    open_all_connections (record p' { processes_addresses = addresses })
