-- ===== src/RicartAgrawala/Queue/Fifo.antt =====
-- The queue hands messages out in the order of their arrival.
use grupo.Prelude.{ℕ, ◌≡◌, refl, ap, sym, ◌∙◌, Option, none, some, List, [], ◌∷◌, ◌++◌, length}
use mathlib.Core.List.{append-nil, append_assoc}
use grupo.RicartAgrawala.Message.{Message}
use grupo.RicartAgrawala.Queue.{MessageQueue, new_message_queue, push, pop, size}

pub push_all : List Message → MessageQueue → MessageQueue
push_all [] q = q
push_all (m ∷ ms) q = push_all ms (push m q)

-- What `n` calls of pop return, with the queue that is left.
pub pop_many : ℕ → MessageQueue → Option (List Message × MessageQueue)
pop_many ℕ.zero q = some ([], q)
pop_many (ℕ.suc n) q = elim (pop q) [
  | none ↦ none
  | some (m, q') ↦ elim (pop_many n q') [ none ↦ none | some (ms, r) ↦ some (m ∷ ms, r) ]
]

buffer-push_all : (ms : List Message) (q : MessageQueue) → (push_all ms q).buffer ≡ q.buffer ++ ms
unfolding push_all push
buffer-push_all [] q = sym (append-nil q.buffer)
buffer-push_all (m ∷ ms) q = buffer-push_all ms (push m q) ∙ append_assoc q.buffer (m ∷ []) ms

pop_many-buffer :
    (xs ys : List Message)
    → pop_many (length xs) (record { buffer = xs ++ ys }) ≡ some (xs, record { buffer = ys })
unfolding pop_many pop
pop_many-buffer [] ys = refl
pop_many-buffer (x ∷ xs) ys = rw (pop_many-buffer xs ys)

-- Messages pushed on a queue come out of it behind those that it held, each once and in order, and
-- leave it empty; a pop of the empty queue fails.
pub pop_many-push_all :
    (ms : List Message) (q : MessageQueue)
    → (pop_many (size (push_all ms q)) (push_all ms q) ≡ some (q.buffer ++ ms, new_message_queue))
      × (pop new_message_queue ≡ none)
unfolding new_message_queue pop size
pop_many-push_all ms q = (
  rw append-nil at (pop_many-buffer (push_all ms q).buffer [])
      ∙ ap (λ (b : List Message). some (b, record { buffer = [] })) (buffer-push_all ms q),
  refl,
)
