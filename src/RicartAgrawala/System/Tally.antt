-- ===== src/RicartAgrawala/System/Tally.antt =====
-- Counting the elements of a list that pass a test.
use grupo.Prelude.{
  ℕ, zero, suc, ◌+◌, ◌≤◌, ◌<◌, Bool, true, false, ◌≡◌, ◌≢◌, refl, List, [], ◌∷◌, ◌++◌, All, arith,
  ◌==◌, if◌then◌else◌,
}

abbrev pub bit : Bool → ℕ
bit true = 1
bit false = 0

module _ {ℓ} {A : Type ℓ} where
  unfoldable pub tally : (A → Bool) → List A → ℕ
  tally f [] = 0
  tally f (x ∷ xs) = bit (f x) + tally f xs

  pub tally-append : (f : A → Bool) (xs ys : List A) → tally f (xs ++ ys) ≡ tally f xs + tally f ys
  unfolding tally
  tally-append f [] ys = omega arith
  tally-append f (x ∷ xs) ys = omega (arith, tally-append f xs ys)

  pub tally-nil : (f : A → Bool) → tally f [] ≡ 0
  unfolding tally
  tally-nil f = refl

  pub tally-cons : (f : A → Bool) (x : A) (xs : List A) → tally f (x ∷ xs) ≡ bit (f x) + tally f xs
  unfolding tally
  tally-cons f x xs = refl

  -- One element more at the end.
  pub tally-snoc :
      (f : A → Bool) (xs : List A) (x : A) → tally f (xs ++ x ∷ []) ≡ tally f xs + bit (f x)
  unfolding tally
  tally-snoc f xs x = omega (arith, tally-append f xs (x ∷ []))

  -- One element fewer in the middle.
  pub tally-middle :
      (f : A → Bool) (xs ys : List A) (x : A)
      → tally f (xs ++ (x ∷ ys)) ≡ bit (f x) + tally f (xs ++ ys)
  unfolding tally
  tally-middle f xs ys x = omega (arith, tally-append f xs (x ∷ ys), tally-append f xs ys)

  -- A stronger test passes fewer elements.
  pub tally-le :
      (f g : A → Bool) (xs : List A) → ((x : A) → f x ≡ true → g x ≡ true) → tally f xs ≤ tally g xs
  unfolding tally
  tally-le f g [] h = omega arith
  tally-le f g (x ∷ xs) h = ground (arith, h x, tally-le f g xs h)

  pub All-append {κ} : (P : A → Type κ) (xs ys : List A) → All P xs → All P ys → All P (xs ++ ys)
  All-append P [] ys hx hy = hy
  All-append P (x ∷ xs) ys hx hy = (hx.0, All-append P xs ys hx.1 hy)

  pub All-middle {κ} :
      (P : A → Type κ) (xs ys : List A) (x : A) → All P (xs ++ (x ∷ ys)) → P x × All P (xs ++ ys)
  All-middle P [] ys x h = h
  All-middle P (y ∷ xs) ys x h = let rest = All-middle P xs ys x h.1 in (rest.0, (h.0, rest.1))

  pub All_mono {κ} : (P Q : A → Type κ) (xs : List A) → ((x : A) → P x → Q x) → All P xs → All Q xs
  All_mono P Q [] f h = tt
  All_mono P Q (x ∷ xs) f h = (f x h.0, All_mono P Q xs f h.1)

-- How many of the first `n` numbers pass a test.
pub total : ℕ → (ℕ → Bool) → ℕ
total zero f = 0
total (suc n) f = total n f + bit (f n)

abbrev pub mark : (ℕ → Bool) → ℕ → ℕ → Bool
mark f i j = if i == j then true else f j

total-mark_above : (n : ℕ) (f : ℕ → Bool) (i : ℕ) → n ≤ i → total n (mark f i) ≡ total n f
unfolding total
total-mark_above zero f i h = refl
total-mark_above (suc n) f i h = ground (arith, total-mark_above n f i)

pub total-mark :
    (n : ℕ) (f : ℕ → Bool) (i : ℕ) → i < n → f i ≡ false → total n (mark f i) ≡ total n f + 1
unfolding total
total-mark zero f i h e = absurd (omega arith)
total-mark (suc n) f i h e = ground (arith, total-mark n f i, total-mark_above n f i)

pub total-le : (n : ℕ) (f : ℕ → Bool) → total n f ≤ n
unfolding total
total-le zero f = omega arith
total-le (suc n) f = ground (arith, total-le n f)

pub total-lt : (n : ℕ) (f : ℕ → Bool) (i : ℕ) → i < n → f i ≡ false → total n f + 1 ≤ n
unfolding total
total-lt zero f i h e = absurd (omega arith)
total-lt (suc n) f i h e = ground (arith, total-lt n f i, total-le n f)

-- Two that fail the test leave at most n - 2.
pub total-lt_two :
    (n : ℕ) (f : ℕ → Bool) (i j : ℕ)
    → i < n
    → j < n
    → i ≢ j
    → f i ≡ false
    → f j ≡ false
    → total n f + 2 ≤ n
unfolding total
total-lt_two zero f i j hi hj ne ei ej = absurd (omega arith)
total-lt_two (suc n) f i j hi hj ne ei ej =
    ground (arith, total-lt_two n f i j, total-lt n f i, total-lt n f j)

pub total-none : (n : ℕ) → total n (λ j. false) ≡ 0
unfolding total
total-none zero = refl
total-none (suc n) = omega (arith, total-none n)

-- When all but one pass the test, every other one does.
pub total-full :
    (n : ℕ) (f : ℕ → Bool) (i j : ℕ)
    → i < n
    → j < n
    → i ≢ j
    → f i ≡ false
    → total n f + 1 ≡ n
    → f j ≡ true
total-full n f i j hi hj ne e h = ground (arith, total-lt_two n f i j hi hj ne e)
