-- ===== src/BancoReplicado/Transaction/Listing.antt =====
-- Filling a listing with the documents of a bucket.
use text.Mathlib.Text.{starts_with}
use grupo.Prelude.{
  String, true, false, ◌≡◌, arith, Option, none, some, List, [], ◌∷◌, eq_iff, if◌then◌else◌,
  Option-cases, inl, inr,
}
use grupo.Prelude.GoMap.{GoMap, lookup, has, insert, lookup-insert, Distinct}
use grupo.BancoReplicado.Exec.{Result, ok, err, panic}

-- What ForEach makes of a value: `none` for a panic, `some none` for a document that it passes over.
abbrev pub Reading : Type 0 → Type 0
Reading Bytes = Bytes → Option (Option (GoMap String))

abbrev pub ended : {A : Type 0} → Option A → Result A
ended none = panic
ended (some a) = ok a

-- The value of a call, if it returned one.
abbrev pub returned : {A : Type 0} → Result A → Option A
returned (ok a) = some a
returned (err e) = none
returned panic = none

module _ {Bytes : Type 0} (read : Reading Bytes) where
  abbrev shown_at : Option (Option (GoMap String)) → Option (GoMap String)
  shown_at none = none
  shown_at (some d) = d

  -- The document that the listing shows for a stored value.
  abbrev pub shown_for : Option Bytes → Option (GoMap String)
  shown_for none = none
  shown_for (some v) = shown_at (read v)

  unfoldable pub fill : List (String × Bytes) → GoMap (GoMap String) → Option (GoMap (GoMap String))
  fill [] values = some values
  fill ((doc_id, v) ∷ rest) values =
      if starts_with doc_id "__" then fill rest values else elim (read v) [
        | none ↦ none
        | some none ↦ fill rest values
        | some (some d) ↦ fill rest (insert doc_id d values)
      ]

  pub lookup-fill :
      (es : List (String × Bytes)) (values all : GoMap (GoMap String)) (k : String)
      → Distinct es
      → fill es values ≡ some all
      → (starts_with k "__" ≡ true → lookup k all ≡ lookup k values)
        × (starts_with k "__" ≡ false
            → lookup k values ≡ none
            → lookup k all ≡ shown_for (lookup k es))
        × (has k es ≡ false → lookup k all ≡ lookup k values)
  unfolding fill lookup has
  lookup-fill [] values all k d e = ground arith
  lookup-fill ((doc_id, v) ∷ es) values all k d e =
      let passed = lookup-fill es values all k d.1 in
      elim (Option-cases (read v)) [
        | inl unread ↦ ground (arith, eq_iff doc_id k, passed)
        | inr (found, is_found) ↦ elim (Option-cases found) [
          | inl hidden ↦ ground (arith, eq_iff doc_id k, passed)
          | inr (doc, is_doc) ↦ ground (
            arith,
            eq_iff doc_id k,
            passed,
            lookup-fill es (insert doc_id doc values) all k d.1,
            lookup-insert doc_id k doc values,
          )
        ]
      ]
