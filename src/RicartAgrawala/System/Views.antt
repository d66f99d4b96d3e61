-- ===== src/RicartAgrawala/System/Views.antt =====
-- What the lists of a process hold for another process, and how the methods change it.
use grupo.Prelude.{ℕ, ◌≤◌, String, Bool, not, ◌&&◌, ◌||◌, arith, ◌==◌, str_eq}
use grupo.Prelude.Int.{ℤ, ◌==ℤ◌}
use grupo.RicartAgrawala.Utils.{reply, request, permission}
use grupo.RicartAgrawala.Message.{Message}
use grupo.RicartAgrawala.Process.{Process}
use grupo.RicartAgrawala.System.Tally.{tally, tally-le}

abbrev pub is_reply : Message → Bool
is_reply m = (m.type_message == reply) || (m.type_message == permission)

-- The goroutines that are to send a request to address `a`.
abbrev pub calls : String → ℕ × String → Bool
calls a g = str_eq g.1 a && (g.0 == request)

-- The goroutines that are to send a permission to address `a`.
abbrev pub invites : String → ℕ × String → Bool
invites a g = str_eq g.1 a && (g.0 == permission)

unfoldable pub unsent : String → Process → ℕ
unsent a p = tally (calls a) p.spawned

-- The requests and the replies in channel `k`.
abbrev pub asks : ℕ → ℕ × Message → Bool
asks k e = (e.0 == k) && not (is_reply e.1)

abbrev pub answers : ℕ → ℕ × Message → Bool
answers k e = (e.0 == k) && (e.1.type_message == reply)

-- The permissions in channel `k`.
abbrev pub permits : ℕ → ℕ × Message → Bool
permits k e = (e.0 == k) && (e.1.type_message == permission)

-- The requests in channel `k` that do not carry the timestamp `t`.
abbrev pub stale : ℤ → ℕ → ℕ × Message → Bool
stale t k e = asks k e && not (e.1.request_timestamp ==ℤ t)

unfoldable pub asked : ℕ → Process → ℕ
asked k p = tally (asks k) p.channels

unfoldable pub answered : ℕ → Process → ℕ
answered k p = tally (answers k) p.channels

unfoldable pub outdated : ℕ → Process → ℕ
outdated k p = tally (stale p.request_timestamp k) p.channels

unfoldable pub permitted : ℕ → Process → ℕ
permitted k p = tally (permits k) p.channels

unfoldable pub uninvited : String → Process → ℕ
uninvited a p = tally (invites a) p.spawned

-- The requests of address `a` in the queue.
abbrev pub comes_from : String → Message → Bool
comes_from a m = str_eq m.address a

unfoldable pub deferred : String → Process → ℕ
deferred a p = tally (comes_from a) p.q.buffer

pub outdated-le-asked : (k : ℕ) (p : Process) → outdated k p ≤ asked k p
unfolding outdated asked
outdated-le-asked k p =
    tally-le (stale p.request_timestamp k) (asks k) p.channels (λ e h. ground arith)
