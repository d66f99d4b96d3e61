-- ===== src/Crdt/MergeableMap/Tombstones.antt =====
-- The keys that the loops of a merge visit, and what mergeTombstones returns.
use grupo.Prelude.{
  String, true, false, ◌≡◌, refl, sym, ◌∙◌, Option, none, some, List, [], ◌∷◌, ◌||◌, contains, All,
  All-contains, arith, eq_iff, if◌then◌else◌,
}
use grupo.Prelude.GoMap.{
  GoMap, lookup, insert, keys, mark, has, has-mark, contains-keys, lookup-insert,
}
use grupo.Crdt.Hlc
use grupo.Crdt.Hlc.{Hlc}
use grupo.Crdt.MergeableMap.Merge.{all_keys, latest_point, tombstones_loop, merge_tombstones}

module _ {ℓ} {V : Type ℓ} where
  pub contains-all_keys :
      (k : String) (m o : GoMap V) → contains k (all_keys m o) ≡ (has k m || has k o)
  unfolding all_keys has lookup
  contains-all_keys k m o =
      (contains-keys k (mark (keys o) (mark (keys m) []))
        ∙ ground (
          arith,
          has-mark k (keys o) (mark (keys m) []),
          has-mark k (keys m) [],
          contains-keys k m,
          contains-keys k o,
        ))

  pub all_keys-bound : (m o : GoMap V) → All (λ k. (has k m || has k o) ≡ true) (all_keys m o)
  all_keys-bound m o = All-contains (all_keys m o) (λ k h. sym (contains-all_keys k m o) ∙ h)

latest_point-some :
    (a b : Option Hlc)
    → ((elim a [ none ↦ false | some _ ↦ true ]) || (elim b [ none ↦ false | some _ ↦ true ]))
      ≡ true
    → (p : Hlc) × (latest_point a b ≡ some p)
unfolding latest_point
latest_point-some (some p) (some q) h = (Hlc.merge p q, refl)
latest_point-some (some p) none h = (p, refl)
latest_point-some none (some q) h = (q, refl)
latest_point-some none none h = cc

-- The loop of mergeTombstones ends, and binds each key that it visits to the latest point.
tombstones_loop-lookup :
    (ts1 ts2 : GoMap Hlc) (ks : List String) (merged : GoMap Hlc)
    → All (λ k. (has k ts1 || has k ts2) ≡ true) ks
    → (r : GoMap Hlc) × (tombstones_loop ts1 ts2 ks merged ≡ some r)
      × ((j : String)
          → lookup j r ≡ (
              if contains j ks
              then latest_point (lookup j ts1) (lookup j ts2)
              else lookup j merged))
unfolding tombstones_loop contains latest_point has
tombstones_loop-lookup ts1 ts2 [] merged h = (merged, refl, λ j. refl)
tombstones_loop-lookup ts1 ts2 (k ∷ ks) merged h =
    let (p, e) = latest_point-some (lookup k ts1) (lookup k ts2) h.0 in
    let (r, f, g) = tombstones_loop-lookup ts1 ts2 ks (insert k p merged) h.1 in
    (r, rw e f, λ j. ground (arith, g j, lookup-insert k j p merged, eq_iff k j))

pub merge_tombstones-lookup :
    (ts1 ts2 : GoMap Hlc)
    → (r : GoMap Hlc) × (merge_tombstones ts1 ts2 ≡ some r)
      × ((j : String) → lookup j r ≡ latest_point (lookup j ts1) (lookup j ts2))
unfolding merge_tombstones has latest_point lookup
merge_tombstones-lookup ts1 ts2 =
    let (r, e, f) = tombstones_loop-lookup ts1 ts2 (all_keys ts1 ts2) [] (all_keys-bound ts1 ts2) in
    (r, e, λ j. ground (arith, f j, contains-all_keys j ts1 ts2))
