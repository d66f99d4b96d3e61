-- ===== src/Exercises/Credit.antt =====
-- problemas/ex8/main.go: a server gives a credit for a balance, by bands of the balance. A connection is the
-- balances that binary.Read gives up to its first error, with whether the answer could be written. The
-- client's text is parsed by strconv.ParseFloat, and its float64 arrives as it is.
use grupo.Prelude.{
  ℕ, Bool, true, false, ◌≡◌, refl, arith, Option, none, some, List, [], ◌∷◌, ◌&&◌, leb,
  if◌then◌else◌, inl, inr, Bool-cases,
}
use grupo.Prelude.Bytes.{Bytes}

-- Go's float64 as far as it is used: its order, whole constants and tenths, the product, and ParseFloat
-- of a trimmed line. The order is transitive, also with a NaN, which stands in no relation.
pub record Float64 (F : Type 0) : Type 0 where
  pub number : ℕ → F
  pub tenths : ℕ → F
  pub le : F → F → Bool
  pub times : F → F → F
  pub parse : Bytes → Option F
  pub le_trans : (a b c : F) → le a b ≡ true → le b c ≡ true → le a c ≡ true
  pub le-number : (m n : ℕ) → le (number m) (number n) ≡ leb m n

module _ {F : Type 0} (float : Float64 F) where
  -- saldo >= m && saldo <= n
  abbrev pub between : ℕ → ℕ → F → Bool
  between m n saldo = float.le (float.number m) saldo && float.le saldo (float.number n)

  -- The credit of serverHandleConn.
  unfoldable pub credito : F → F
  credito saldo =
      if between 0 200 saldo
      then float.number 0
      else if between 201 400 saldo
      then float.times (float.tenths 2) saldo
      else if between 401 600 saldo
      then float.times (float.tenths 3) saldo
      else if float.le (float.number 601) saldo
      then float.times (float.tenths 4) saldo
      else float.number 0

  -- serverHandleConn: it ends when a balance cannot be read or an answer cannot be written.
  unfoldable pub server_handle_conn : List (F × Bool) → List F
  server_handle_conn [] = []
  server_handle_conn ((saldo, written) ∷ rest) =
      let others = server_handle_conn rest in if written then credito saldo ∷ others else []

  -- client(), one line, over a connection that works: the balance and the credit that it prints, or
  -- "Saldo invalido".
  unfoldable pub client_round : Bytes → Option (F × F)
  client_round line = elim (float.parse line) [
    | none ↦ none
    | some saldo ↦ some (saldo, credito saldo)
  ]

  -- Two bands that do not meet.
  apart :
      (m n : ℕ) (saldo : F)
      → leb m n ≡ false
      → float.le (float.number m) saldo ≡ true
      → float.le saldo (float.number n) ≡ false
  apart m n saldo h e = elim (Bool-cases (float.le saldo (float.number n))) [
    | inl f ↦ absurd (
        ground (
          arith,
          h,
          float.le-number m n,
          float.le_trans (float.number m) saldo (float.number n) e f,
        ))
    | inr f ↦ f
  ]

  -- What is below a lower bound is below a higher one, and what is above a bound is above a lower one.
  above :
      (m n : ℕ) (saldo : F)
      → leb m n ≡ true
      → float.le (float.number m) saldo ≡ false
      → float.le (float.number n) saldo ≡ false
  above m n saldo h e = elim (Bool-cases (float.le (float.number n) saldo)) [
    | inl f ↦ absurd (
        ground (
          arith,
          h,
          e,
          float.le-number m n,
          float.le_trans (float.number m) (float.number n) saldo,
        ))
    | inr f ↦ f
  ]

  wider :
      (m n : ℕ) (saldo : F)
      → leb m n ≡ true
      → float.le saldo (float.number n) ≡ false
      → float.le saldo (float.number m) ≡ false
  wider m n saldo h e = elim (Bool-cases (float.le saldo (float.number m))) [
    | inl f ↦ absurd (
        ground (
          arith,
          h,
          e,
          float.le-number m n,
          float.le_trans saldo (float.number m) (float.number n),
        ))
    | inr f ↦ f
  ]

  -- Whatever the order of the tests, a balance from 201 to 400 has a fifth of itself as its credit, one
  -- from 401 to 600 three tenths, one from 601 on four tenths, and every other has none: also one that
  -- lies between 400 and 401 or between 600 and 601.
  pub credito-bands :
      (saldo : F)
      → (between 201 400 saldo ≡ true → credito saldo ≡ float.times (float.tenths 2) saldo)
        × (between 401 600 saldo ≡ true → credito saldo ≡ float.times (float.tenths 3) saldo)
        × (float.le (float.number 601) saldo ≡ true
            → credito saldo ≡ float.times (float.tenths 4) saldo)
        × (between 201 400 saldo ≡ false
            → between 401 600 saldo ≡ false
            → float.le (float.number 601) saldo ≡ false
            → credito saldo ≡ float.number 0)
        × (float.le saldo (float.number 400) ≡ false
            → float.le (float.number 401) saldo ≡ false
            → credito saldo ≡ float.number 0)
        × (float.le saldo (float.number 600) ≡ false
            → float.le (float.number 601) saldo ≡ false
            → credito saldo ≡ float.number 0)
  unfolding credito
  credito-bands saldo = (
    λ h. ground (arith, h, apart 201 200 saldo refl),
    λ h. ground (arith, h, apart 401 200 saldo refl, apart 401 400 saldo refl),
    λ h.
        ground
          (arith, h, apart 601 200 saldo refl, apart 601 400 saldo refl, apart 601 600 saldo refl),
    λ a b c. ground (arith, a, b, c),
    λ a b. ground (arith, a, b, above 401 601 saldo refl, wider 200 400 saldo refl),
    λ a b. ground (arith, a, b, wider 200 600 saldo refl, wider 400 600 saldo refl),
  )
