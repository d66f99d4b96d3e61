-- ===== src/Prelude/Numerals.antt =====
-- Go's strconv over the bytes of a text: a number from its digits and back.
use grupo.Prelude.{
  ℕ, zero, suc, ◌+◌, ◌-◌, ◌*◌, ◌/◌, ◌%◌, ◌^◌, ◌≤◌, ◌<◌, true, false, ◌&&◌, ◌≡◌, ◌≢◌, refl, sym, ap,
  ◌∙◌, inl, inr, Bool-cases, Option, none, some, [], ◌∷◌, ◌++◌, All, arith, ◌==◌, ltb, leb,
  if◌then◌else◌,
}
use mathlib.Core.Path.{subst}
use grupo.Prelude.Int.{ℤ, pos, negsuc}
use grupo.Prelude.Bytes.{Bytes, Free}

-- The decimal digits of a number below 10 ^ fuel.
unfoldable pub digits_of : ℕ → ℕ → Bytes
digits_of zero n = []
digits_of (suc fuel) n =
    let before = digits_of fuel (n / 10) in
    if ltb n 10 then (b'0' + n) ∷ [] else before ++ (b'0' + n % 10) ∷ []

-- Reads digits behind those of a number.
unfoldable pub read_digits : Bytes → ℕ → Option ℕ
read_digits [] n = some n
read_digits (c ∷ cs) n =
    let rest = read_digits cs (10 * n + (c - b'0')) in
    if leb b'0' c && leb c b'9' then rest else none

-- strconv.Itoa: an int64 has at most 19 digits.
unfoldable pub itoa : ℤ → Bytes
itoa (pos n) = digits_of 19 n
itoa (negsuc n) = b'-' ∷ digits_of 19 (n + 1)

-- The digits of a number up to a bound; none at all is an error.
unfoldable pub read_up_to : ℕ → Bytes → Option ℕ
read_up_to bound [] = none
read_up_to bound (c ∷ cs) = elim (read_digits (c ∷ cs) 0) [
  | none ↦ none
  | some n ↦ if leb n bound then some n else none
]

abbrev negative : ℕ → ℤ
negative zero = pos 0
negative (suc n) = negsuc n

-- strconv.Atoi
unfoldable pub atoi : Bytes → Option ℤ
atoi [] = none
atoi (c ∷ cs) =
    if c == b'-'
    then elim (read_up_to (2 ^ 63) cs) [ none ↦ none | some n ↦ some (negative n) ]
    else if c == b'+'
    then elim (read_up_to (2 ^ 63 - 1) cs) [ none ↦ none | some n ↦ some (pos n) ]
    else elim (read_up_to (2 ^ 63 - 1) (c ∷ cs)) [ none ↦ none | some n ↦ some (pos n) ]

abbrev pub IsDigit : ℕ → Type 0
IsDigit c = (b'0' ≤ c) × (c ≤ b'9')

all-append : (xs : Bytes) (c : ℕ) → All IsDigit xs → IsDigit c → All IsDigit (xs ++ c ∷ [])
all-append [] c h k = (k, tt)
all-append (x ∷ xs) c h k = (h.0, all-append xs c h.1 k)

pub digits_of-IsDigit : (fuel n : ℕ) → All IsDigit (digits_of fuel n)
unfolding digits_of
digits_of-IsDigit zero n = tt
digits_of-IsDigit (suc fuel) n = elim (Bool-cases (ltb n 10)) [
  | inl e ↦ rw e ((omega arith, ground arith), tt)
  | inr e ↦ rw e (
      all-append (digits_of fuel (n / 10)) (b'0' + n % 10) (digits_of-IsDigit fuel (n / 10))
        (omega arith, omega arith))
]

pub digits-Free : (c : ℕ) (xs : Bytes) → ¬ (IsDigit c) → All IsDigit xs → Free c xs
digits-Free c [] h k = tt
digits-Free c (x ∷ xs) h k = (ground arith, digits-Free c xs h k.1)

read_digits-append :
    (xs : Bytes) (d n : ℕ)
    → d < 10
    → read_digits (xs ++ (b'0' + d) ∷ []) n
      ≡ elim (read_digits xs n) [ none ↦ none | some m ↦ some (10 * m + d) ]
unfolding read_digits
read_digits-append [] d n h = ground arith
read_digits-append (x ∷ xs) d n h = ground (arith, read_digits-append xs d (10 * n + (x - b'0')) h)

more_digits :
    (fuel n : ℕ)
    → ltb n 10 ≡ false
    → digits_of (suc fuel) n ≡ digits_of fuel (n / 10) ++ (b'0' + n % 10) ∷ []
unfolding digits_of
more_digits fuel n e = rw e refl

one_digit : (fuel n : ℕ) → ltb n 10 ≡ true → digits_of (suc fuel) n ≡ (b'0' + n) ∷ []
unfolding digits_of
one_digit fuel n e = rw e refl

read_one : (n : ℕ) → n < 10 → read_digits ((b'0' + n) ∷ []) 0 ≡ some n
unfolding read_digits
read_one n h = ground arith

no_digits : (n : ℕ) → n ≡ 0 → read_digits (digits_of 0 n) 0 ≡ some n
unfolding read_digits digits_of
no_digits n h = rw h refl

-- What is read from the digits of a number is the number.
pub read_digits-digits_of : (fuel n : ℕ) → n < 10 ^ fuel → read_digits (digits_of fuel n) 0 ≡ some n
read_digits-digits_of zero n h = no_digits n (omega arith)
read_digits-digits_of (suc fuel) n h = elim (Bool-cases (ltb n 10)) [
  | inl e ↦ rw (one_digit fuel n e) (read_one n (ground arith))
  | inr e ↦
      let small : n / 10 < 10 ^ fuel = omega arith in
      let last : n % 10 < 10 = omega arith in
      let whole : 10 * (n / 10) + n % 10 ≡ n = omega arith in
      rw (more_digits fuel n e) (
        read_digits-append (digits_of fuel (n / 10)) (n % 10) 0 last
        ∙ rw (read_digits-digits_of fuel (n / 10) small, whole) refl)
]

read_up_to_lem :
    (bound : ℕ) (xs : Bytes) (n : ℕ)
    → xs ≢ []
    → read_digits xs 0 ≡ some n
    → n ≤ bound
    → read_up_to bound xs ≡ some n
unfolding read_up_to
read_up_to_lem bound [] n ne e h = absurd (ne refl)
read_up_to_lem bound (c ∷ cs) n ne e h = rw (e, read_up_to) (ground arith)

some_byte : (xs : Bytes) (c : ℕ) → (d : ℕ) × (ds : Bytes) × (xs ++ c ∷ [] ≡ d ∷ ds)
some_byte [] c = (c, [], refl)
some_byte (x ∷ xs) c = (x, xs ++ c ∷ [], refl)

digits_of-some : (fuel n : ℕ) → (c : ℕ) × (cs : Bytes) × (digits_of (suc fuel) n ≡ c ∷ cs)
unfolding digits_of
digits_of-some fuel n = elim (Bool-cases (ltb n 10)) [
  | inl e ↦ (b'0' + n, [], rw e refl)
  | inr e ↦ let (c, cs, f) = some_byte (digits_of fuel (n / 10)) (b'0' + n % 10) in (c, cs, rw e f)
]

-- strconv.Atoi of what strconv.Itoa makes of a number is the number.
pub atoi-itoa : (n : ℕ) → n < 2 ^ 63 → atoi (itoa (pos n)) ≡ some (pos n)
unfolding atoi itoa
atoi-itoa n h =
    let (c, cs, e) = digits_of-some 18 n in
    let first : IsDigit c = (subst (All IsDigit) e (digits_of-IsDigit 19 n)).0 in
    let read : read_up_to (2 ^ 63 - 1) (c ∷ cs) ≡ some n =
      read_up_to_lem (2 ^ 63 - 1) (c ∷ cs) n (λ q. ground arith)
        (ap (λ (xs : Bytes). read_digits xs 0) (sym e) ∙ read_digits-digits_of 19 n (omega arith))
        (omega arith) in
    rw e (ground (arith, read, first))
