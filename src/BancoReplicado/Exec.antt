-- ===== src/BancoReplicado/Exec.antt =====
-- Go functions that return an error or panic, over a state that they change. An error leaves the
-- state as it was when the function returned.
use grupo.Prelude.{Option, none, some, String}

-- The errors that the program makes itself, by their texts, and those that a library returned.
pub data Error : Type 0 where
  table_does_not_exist table_already_exists document_does_not_exist : Error
  not_a_crdt_table node_is_offline : Error
  library : String → Error

pub data Result {ℓ} (A : Type ℓ) : Type ℓ where
  ok : A → Result A
  err : Error → Result A
  panic : Result A

abbrev pub Exec {ℓ κ} : Type ℓ → Type κ → Type (ℓ ⊔ κ)
Exec S A = S → Result A × S

abbrev pub pure {ℓ κ} : {S : Type ℓ} {A : Type κ} → A → Exec S A
pure a s = (ok a, s)

abbrev pub lift {ℓ κ} : {S : Type ℓ} {A : Type κ} → Result A → Exec S A
lift r s = (r, s)

abbrev pub fail {ℓ κ} : {S : Type ℓ} {A : Type κ} → Error → Exec S A
fail e s = (err e, s)

abbrev pub and_then {ℓ κ μ} :
    {S : Type ℓ} {A : Type κ} {B : Type μ} → Result A × S → (A → Exec S B) → Result B × S
and_then (ok a, s) f = f a s
and_then (err e, s) f = (err e, s)
and_then (panic, s) f = (panic, s)

infixl 5 ◌>>=◌ ◌>>◌
abbrev pub ◌>>=◌ {ℓ κ μ} :
    {S : Type ℓ} {A : Type κ} {B : Type μ} → Exec S A → (A → Exec S B) → Exec S B
◌>>=◌ m f s = and_then (m s) f

abbrev pub ◌>>◌ {ℓ κ} : {S : Type ℓ} {B : Type κ} → Exec S (Unit {0}) → Exec S B → Exec S B
m >> k = m >>= λ _. k

-- A value that must be there.
abbrev pub require {ℓ κ} : {S : Type ℓ} {A : Type κ} → Option A → Error → Exec S A
require (some a) e = pure a
require none e = fail e
