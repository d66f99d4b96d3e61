-- ===== src/RicartAgrawala/Counter.antt =====
-- ricart_agrawala/counter.go: replyCounter, with NewReplyCounter, addReply, size and clear.
use grupo.Prelude.{ℕ, ◌+◌}

pub record ReplyCounter : Type 0 where
  pub counter : ℕ

unfoldable pub new_reply_counter : ReplyCounter
new_reply_counter = record { counter = 0 }

unfoldable pub add_reply : ReplyCounter → ReplyCounter
add_reply s = record { counter = s.counter + 1 }

abbrev pub size : ReplyCounter → ℕ
size s = s.counter

unfoldable pub clear : ReplyCounter → ReplyCounter
clear s = record { counter = 0 }
