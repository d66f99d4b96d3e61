-- ===== src/RicartAgrawala/Register/Listing.antt =====
-- How long a list is that holds each of some addresses once and no other.
use grupo.Prelude.{
  ◌+◌, String, Bool, true, ◌≡◌, refl, ◌∙◌, inl, inr, Bool-cases, List, [], ◌∷◌, arith, contains,
  length, str_eq, eq_iff, not, ◌&&◌,
}
use grupo.RicartAgrawala.Process.{others}
use grupo.RicartAgrawala.System.Tally.{bit, tally}
use grupo.RicartAgrawala.System.Asking.{others-tally}

unfoldable pub distinct : List String → Bool
distinct [] = true
distinct (a ∷ as') = let rest = distinct as' in not (contains a as') && rest

length-others :
    (a : String) (xs : List String) → length xs ≡ tally (λ b. str_eq b a) xs + length (others a xs)
unfolding others tally
length-others a [] = refl
length-others a (x ∷ xs) = ground (arith, length-others a xs)

tally-others_own : (a : String) (xs : List String) → tally (λ b. str_eq b a) (others a xs) ≡ 0
unfolding others tally
tally-others_own a [] = refl
tally-others_own a (x ∷ xs) = ground (arith, tally-others_own a xs)

pub length_by_names :
    (names xs : List String)
    → distinct names ≡ true
    → ((a : String) → tally (λ b. str_eq b a) xs ≡ bit (contains a names))
    → length xs ≡ length names
unfolding distinct contains tally
length_by_names [] [] d h = refl
length_by_names [] (x ∷ xs) d h = absurd (ground (arith, h x, eq_iff x x))
length_by_names (y ∷ names) xs d h =
    let rest = length_by_names names (others y xs) (ground (arith, d)) (λ a.
      elim (Bool-cases (str_eq a y)) [
        | inl e ↦ ground (arith, tally-others_own y xs, d, e, eq_iff a y)
        | inr e ↦ others-tally y a xs e ∙ h a ∙ ground (arith, e, eq_iff a y, eq_iff y a)
      ]) in
    ground (arith, length-others y xs, h y, eq_iff y y, rest)
