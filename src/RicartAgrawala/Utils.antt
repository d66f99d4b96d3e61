-- ===== src/RicartAgrawala/Utils.antt =====
-- ricart_agrawala/utils.go: the constants, and the order of two requests.
use grupo.Prelude.{ℕ, Bool, true, false, ◌≡◌, ◌≢◌, ◌⊎◌, ◌↔◌, not, ◌&&◌, arith, if◌then◌else◌}
use grupo.Prelude.Int.{ℤ, ltb_ℤ, ◌<ℤ◌, ◌==ℤ◌}

-- types of message
abbrev pub reply : ℕ
reply = 0

abbrev pub request : ℕ
request = 1

abbrev pub permission : ℕ
permission = 2

-- states of process
abbrev pub wanted : ℕ
wanted = 0

abbrev pub released : ℕ
released = 1

abbrev pub held : ℕ
held = 2

-- max(x, y int)
unfoldable pub max : ℤ → ℤ → ℤ
max x y = if ltb_ℤ x y then y else x

-- checkProcessIsMinorThanMessage
unfoldable pub is_minor : ℤ → ℤ → ℤ → ℤ → Bool
is_minor timestamp_process id_process timestamp_message id_message =
    if ltb_ℤ timestamp_process timestamp_message
    then true
    else if (timestamp_process ==ℤ timestamp_message) && ltb_ℤ id_process id_message
    then true
    else false

-- A request precedes another when its timestamp is smaller, or equal with a smaller process id.
pub is_minor_iff : (t i u j : ℤ) → (is_minor t i u j ≡ true) ↔ ((t <ℤ u) ⊎ ((t ≡ u) × (i <ℤ j)))
unfolding is_minor
is_minor_iff t i u j = ground arith

-- Of two requests of different processes exactly one precedes the other.
pub is_minor_total : (t i u j : ℤ) → i ≢ j → is_minor t i u j ≡ not (is_minor u j t i)
unfolding is_minor
is_minor_total t i u j h = ground arith
