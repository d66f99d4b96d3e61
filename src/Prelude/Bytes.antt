-- ===== src/Prelude/Bytes.antt =====
-- What the programs use of Go's package strings, over the bytes of a text.
use Prim.Native.Char.{code}
use grupo.Prelude.{
  ℕ, zero, suc, ◌+◌, ◌≤◌, String, Bool, true, false, ◌&&◌, ◌≡◌, refl, ap, List, [], ◌∷◌, ◌++◌, All,
  length, arith, ◌==◌, inl, inr, Bool-cases, if◌then◌else◌,
}

abbrev pub Bytes : Type 0
Bytes = List ℕ

-- The bytes of an ASCII text.
abbrev pub codes : String → Bytes
codes String.[] = []
codes (String.◌∷◌ c s) = code c ∷ codes s

unfoldable pub same_bytes : Bytes → Bytes → Bool
same_bytes [] [] = true
same_bytes [] (y ∷ ys) = false
same_bytes (x ∷ xs) [] = false
same_bytes (x ∷ xs) (y ∷ ys) = (x == y) && same_bytes xs ys

unfoldable pub take : ℕ → Bytes → Bytes
take zero xs = []
take (suc n) [] = []
take (suc n) (x ∷ xs) = x ∷ take n xs

unfoldable pub drop : ℕ → Bytes → Bytes
drop zero xs = xs
drop (suc n) [] = []
drop (suc n) (x ∷ xs) = drop n xs

pub take-drop : (n : ℕ) (xs : Bytes) → take n xs ++ drop n xs ≡ xs
unfolding take drop
take-drop zero xs = refl
take-drop (suc n) [] = refl
take-drop (suc n) (x ∷ xs) = ap (λ (ys : Bytes). x ∷ ys) (take-drop n xs)

pub length-drop : (n : ℕ) (xs : Bytes) → length xs ≤ length (drop n xs) + n
unfolding drop
length-drop zero xs = omega arith
length-drop (suc n) [] = omega arith
length-drop (suc n) (x ∷ xs) = omega (arith, length-drop n xs)

pub take-append : (n : ℕ) (xs ys : Bytes) → n ≤ length xs → take n (xs ++ ys) ≡ take n xs
unfolding take
take-append zero xs ys h = refl
take-append (suc n) [] ys h = absurd (omega arith)
take-append (suc n) (x ∷ xs) ys h = ap (λ (zs : Bytes). x ∷ zs) (take-append n xs ys (omega arith))

pub take-all : (n : ℕ) (xs : Bytes) → length xs ≤ n → take n xs ≡ xs
unfolding take
take-all zero [] h = refl
take-all zero (x ∷ xs) h = absurd (omega arith)
take-all (suc n) [] h = refl
take-all (suc n) (x ∷ xs) h = ap (λ (zs : Bytes). x ∷ zs) (take-all n xs (omega arith))

pub drop-append : (n : ℕ) (xs ys : Bytes) → n ≤ length xs → drop n (xs ++ ys) ≡ drop n xs ++ ys
unfolding drop
drop-append zero xs ys h = refl
drop-append (suc n) [] ys h = absurd (omega arith)
drop-append (suc n) (x ∷ xs) ys h = drop-append n xs ys (omega arith)

-- strings.Replace(s, c, "", -1)
unfoldable pub without : ℕ → Bytes → Bytes
without c [] = []
without c (x ∷ xs) = let rest = without c xs in if x == c then rest else x ∷ rest

-- Adds a byte to the first piece.
abbrev pub on_first : ℕ → List Bytes → List Bytes
on_first x [] = (x ∷ []) ∷ []
on_first x (piece ∷ rest) = (x ∷ piece) ∷ rest

-- strings.Split(s, c), which gives one piece more than there are separators.
unfoldable pub split : ℕ → Bytes → List Bytes
split c [] = [] ∷ []
split c (x ∷ xs) = let rest = split c xs in if x == c then [] ∷ rest else on_first x rest

-- A piece in which the separator does not stand.
abbrev pub Free : ℕ → Bytes → Type 0
Free c = All (λ (x : ℕ). (x == c) ≡ false)

on_first-Free :
    (c x : ℕ) (pieces : List Bytes)
    → (x == c) ≡ false
    → All (Free c) pieces
    → All (Free c) (on_first x pieces)
on_first-Free c x [] e h = ((e, tt), tt)
on_first-Free c x (piece ∷ rest) e h = ((e, h.0), h.1)

pub split-Free : (c : ℕ) (xs : Bytes) → All (Free c) (split c xs)
unfolding split
split-Free c [] = (tt, tt)
split-Free c (x ∷ xs) = elim (Bool-cases (x == c)) [
  | inl e ↦ rw e (tt, split-Free c xs)
  | inr e ↦ rw e (on_first-Free c x (split c xs) e (split-Free c xs))
]

-- A piece before a separator is the first one of the text.
pub split-append :
    (c : ℕ) (piece rest : Bytes) → Free c piece → split c (piece ++ c ∷ rest) ≡ piece ∷ split c rest
unfolding split
split-append c [] rest h = ground arith
split-append c (x ∷ xs) rest h = rw (h.0) (ap (on_first x) (split-append c xs rest h.1))

pub split-piece : (c : ℕ) (piece : Bytes) → Free c piece → split c piece ≡ piece ∷ []
unfolding split
split-piece c [] h = refl
split-piece c (x ∷ xs) h = rw (h.0) (ap (on_first x) (split-piece c xs h.1))
