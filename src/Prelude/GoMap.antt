-- ===== src/Prelude/GoMap.antt =====
-- Go's map[string]V as an association list. `range` visits the entries in the list's order; Go
-- leaves that order open, and every order is the order of a list.
use Prim.Native.String.{String}
use mathlib.Core.Path.{◌≡◌, refl}
use mathlib.Core.Bool.{Bool, true, false, ◌||◌}
use mathlib.Core.Option
use mathlib.Core.Option.{Option, none, some}
use mathlib.Core.List.{List, [], ◌∷◌}
use native.Mathlib.Omega.{arith}
use text.Mathlib.Text.{◌==◌}
use text.Mathlib.TextEquality.{eq_iff}
use grupo.Prelude.Tests.{if◌then◌else◌}
use grupo.Prelude.Lists.{contains}

abbrev pub GoMap {ℓ} : Type ℓ → Type ℓ
GoMap V = List (String × V)

module _ {ℓ} {V : Type ℓ} where
  -- v, ok := m[key]
  unfoldable pub lookup : String → GoMap V → Option V
  lookup key [] = none
  lookup key ((at, value) ∷ rest) = if at == key then some value else lookup key rest

  -- m[key] = new
  unfoldable pub insert : String → V → GoMap V → GoMap V
  insert key new [] = (key, new) ∷ []
  insert key new ((at, value) ∷ rest) =
      if at == key then (key, new) ∷ rest else (at, value) ∷ insert key new rest

  -- delete(m, k)
  unfoldable pub delete : String → GoMap V → GoMap V
  delete k [] = []
  delete k ((j, w) ∷ m) = let rest = delete k m in if j == k then rest else (j, w) ∷ rest

  -- The keys that `range m` visits.
  unfoldable pub keys : GoMap V → List String
  keys [] = []
  keys ((j, w) ∷ m) = j ∷ keys m

  unfoldable pub has : String → GoMap V → Bool
  has k m = elim (lookup k m) [ none ↦ false | some _ ↦ true ]

  -- Reading a key after a write reads the written value there, and the old one elsewhere.
  pub lookup-insert :
      (written key : String) (new : V) (all : GoMap V)
      → lookup key (insert written new all) ≡ (if written == key then some new else lookup key all)
  unfolding lookup insert
  lookup-insert written key new [] = refl
  lookup-insert written key new ((at, value) ∷ rest) = ground (
    arith,
    lookup-insert written key new rest,
    eq_iff at written,
    eq_iff at key,
    eq_iff written key,
  )

  pub lookup-delete :
      (removed key : String) (all : GoMap V)
      → lookup key (delete removed all) ≡ (if removed == key then none else lookup key all)
  unfolding lookup delete
  lookup-delete removed key [] = ground arith
  lookup-delete removed key ((at, value) ∷ rest) =
      ground (
        arith,
        lookup-delete removed key rest,
        eq_iff at removed,
        eq_iff at key,
        eq_iff removed key,
      )

  -- A key is among the keys exactly when it is bound.
  pub contains-keys : (k : String) (m : GoMap V) → contains k (keys m) ≡ has k m
  unfolding contains keys has lookup
  contains-keys k [] = refl
  contains-keys k ((j, w) ∷ m) = ground (arith, contains-keys k m)

module _ {ℓ κ} {V : Type ℓ} {W : Type κ} where
  -- for k, v := range m { m2[k] = f(v) }, into an empty map, the last entry first.
  unfoldable pub copy_with : (V → W) → GoMap V → GoMap W
  copy_with f [] = []
  copy_with f ((k, v) ∷ m) = insert k (f v) (copy_with f m)

  pub lookup-copy_with :
      (f : V → W) (k : String) (m : GoMap V) → lookup k (copy_with f m) ≡ Option.map f (lookup k m)
  unfolding lookup copy_with
  lookup-copy_with f k [] = refl
  lookup-copy_with f k ((j, v) ∷ m) =
      ground (arith, lookup-insert j k (f v) (copy_with f m), lookup-copy_with f k m)

-- for key := range m { all[key] = true }
unfoldable pub mark : List String → GoMap Bool → GoMap Bool
mark [] all = all
mark (k ∷ ks) all = mark ks (insert k true all)

pub has-mark :
    (k : String) (ks : List String) (all : GoMap Bool)
    → has k (mark ks all) ≡ (contains k ks || has k all)
unfolding mark contains has
has-mark k [] all = refl
has-mark k (j ∷ ks) all =
    ground (arith, has-mark k ks (insert j true all), lookup-insert j k true all)

-- The keys of a Go map: none twice.
abbrev pub Distinct {ℓ} : {V : Type ℓ} → GoMap V → Type 0
Distinct [] = Unit
Distinct ((k, v) ∷ m) = (has k m ≡ false) × Distinct m
