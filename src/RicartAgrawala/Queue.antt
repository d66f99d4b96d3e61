-- ===== src/RicartAgrawala/Queue.antt =====
-- ricart_agrawala/queue.go: the requests that wait for their reply.
pub mod Fifo
use grupo.Prelude.{ℕ, Bool, Option, none, some, List, [], ◌∷◌, ◌++◌, length, ◌==◌}
use grupo.RicartAgrawala.Message.{Message}

pub record MessageQueue : Type 0 where
  pub buffer : List Message

-- NewMessageQueue()
unfoldable pub new_message_queue : MessageQueue
new_message_queue = record { buffer = [] }

-- push(msg)
unfoldable pub push : Message → MessageQueue → MessageQueue
push msg q = record q { buffer = q.buffer ++ msg ∷ [] }

pop_buffer : List Message → Option (Message × MessageQueue)
pop_buffer [] = none
pop_buffer (msg ∷ rest) = some (msg, record { buffer = rest })

-- pop(): `none` is the panic of buffer[0] on an empty queue.
unfoldable pub pop : MessageQueue → Option (Message × MessageQueue)
unfolding pop_buffer
pop q = pop_buffer q.buffer

-- empty() and size()
unfoldable pub empty : MessageQueue → Bool
empty q = length q.buffer == 0

unfoldable pub size : MessageQueue → ℕ
size q = length q.buffer
