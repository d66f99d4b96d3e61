-- ===== src/Prelude/Text.antt =====
-- Go's fmt.Sprintf of a number with %d.
use Prim.Native.String.{◌++◌ as append, slice}
use Prim.Native.Nat.{ℕ, zero, suc, ◌+◌, ◌/◌, ◌%◌}
use Prim.Native.String.{String}
use grupo.Prelude.Tests.{ltb, if◌then◌else◌}

-- The decimal digits of a number below 10 ^ fuel.
abbrev pub decimal : ℕ → ℕ → String
decimal zero n = ""
decimal (suc fuel) n =
    let before = decimal fuel (n / 10) in
    let last = slice "0123456789" (n % 10) (n % 10 + 1) in
    if ltb n 10 then last else append before last
