-- ===== src/Crdt/MergeableMap/Refines.antt =====
-- `merge` never panics, keeps documents well-formed, and joins the cells key by key.
use grupo.Prelude.{
  String, Bool-cases, inl, inr, Bool, true, false, ◌≡◌, refl, ap, ◌∙◌, Option, none, some, List, [],
  ◌∷◌, ◌&&◌, ◌||◌, contains, All, arith, eq_iff, str_eq, if◌then◌else◌,
}
use grupo.Prelude.Int.{nonneg}
use grupo.Prelude.GoMap.{GoMap, lookup, has, lookup-insert, lookup-delete}
use grupo.Crdt.Hlc
use grupo.Crdt.Hlc.{Hlc}
use grupo.Crdt.MergeableString
use grupo.Crdt.MergeableString.{MergeableString}
use grupo.Crdt.MergeableMap.{MergeableMap}
use grupo.Crdt.MergeableMap.Merge.{
  all_keys, latest_point, pick_winner, Merging, settle, merge_loop, merge,
}
use grupo.Crdt.MergeableMap.Cells.{to_cell, cell, join, IsWellFormed}
use grupo.Crdt.MergeableMap.Tombstones.{contains-all_keys, all_keys-bound, merge_tombstones-lookup}

-- What `iter` makes of the element and the tombstone of its own key.
abbrev Pair : Type 0
Pair = Option MergeableString × Option Hlc

abbrev settled : Option MergeableString → Pair → Pair
settled none s = s
settled (some w) (e, none) = (some w, none)
settled (some w) (e, some p) = if nonneg (Hlc.cmp w.point p) then (some w, none) else (e, some p)

abbrev at : String → Merging → Pair
at j s = (lookup j s.elements, lookup j s.all_tombstones)

at-settle :
    (k j : String) (w : MergeableString) (s : Merging)
    → at j (settle k w s) ≡ (if str_eq k j then settled (some w) (at j s) else at j s)
unfolding settle
at-settle k j w s =
    ground (arith, lookup-insert k j w s.elements, lookup-delete k j s.all_tombstones, eq_iff k j)

pick_winner-some :
    (a b : Option MergeableString)
    → ((elim a [ none ↦ false | some _ ↦ true ]) || (elim b [ none ↦ false | some _ ↦ true ]))
      ≡ true
    → (w : MergeableString) × (pick_winner a b ≡ some w)
unfolding pick_winner
pick_winner-some (some v) (some w) h = (MergeableString.merge v w, refl)
pick_winner-some (some v) none h = (v, refl)
pick_winner-some none (some w) h = (w, refl)
pick_winner-some none none h = cc

if-same {ℓ} : {A : Type ℓ} (b : Bool) (x : A) → (if b then x else x) ≡ x
if-same true x = refl
if-same false x = refl

settled_twice : (w : Option MergeableString) (s : Pair) → settled w (settled w s) ≡ settled w s
settled_twice none s = refl
settled_twice (some w) (e, none) = refl
settled_twice (some w) (e, some p) = ground arith

visit :
    (m o : GoMap MergeableString) (k j : String) (w : MergeableString) (ks : List String)
    (s r : Merging)
    → pick_winner (lookup k m) (lookup k o) ≡ some w
    → at j r ≡ (
        if contains j ks
        then settled (pick_winner (lookup j m) (lookup j o)) (at j (settle k w s))
        else at j (settle k w s))
    → at j r ≡ (
        if contains j (k ∷ ks)
        then settled (pick_winner (lookup j m) (lookup j o)) (at j s)
        else at j s)
unfolding contains
visit m o k j w ks s r e g = elim (Bool-cases (str_eq k j)) [
  | inl here ↦
      let q = (eq_iff k j).0 here in
      let e' : pick_winner (lookup j m) (lookup j o) ≡ some w = rw (← q) e in
      g ∙ rw (at-settle k j w s, here, e', settled_twice) (if-same (contains j ks) _)
  | inr other ↦ g ∙ rw (at-settle k j w s, other)
]

-- The loop of Merge ends, and settles each key that it visits.
merge_loop-lookup :
    (m o : GoMap MergeableString) (ks : List String) (s : Merging)
    → All (λ k. (has k m || has k o) ≡ true) ks
    → (r : Merging) × (merge_loop m o ks s ≡ some r)
      × ((j : String)
          → at j r ≡ (
              if contains j ks
              then settled (pick_winner (lookup j m) (lookup j o)) (at j s)
              else at j s))
unfolding merge_loop contains has
merge_loop-lookup m o [] s h = (s, refl, λ j. refl)
merge_loop-lookup m o (k ∷ ks) s h =
    let (w, e) = pick_winner-some (lookup k m) (lookup k o) h.0 in
    let (r, f, g) = merge_loop-lookup m o ks (settle k w s) h.1 in
    (r, rw e f, λ j. visit m o k j w ks s r e (g j))

abbrev bound {ℓ} : {A : Type ℓ} → Option A → Bool
bound o = elim o [ none ↦ false | some _ ↦ true ]

-- One key of the result, from what the two replicas hold for it.
settled-join :
    (a b : Option MergeableString) (p q : Option Hlc)
    → (bound a && bound p) ≡ false
    → (bound b && bound q) ≡ false
    → (to_cell
          (settled (pick_winner a b) (none, latest_point p q)).0
          (settled (pick_winner a b) (none, latest_point p q)).1
        ≡ join (to_cell a p) (to_cell b q))
      × ((bound (settled (pick_winner a b) (none, latest_point p q)).0
            && bound (settled (pick_winner a b) (none, latest_point p q)).1)
          ≡ false)
unfolding pick_winner latest_point
settled-join a b p q h k = ground arith

at-start :
    (m o : MergeableMap) (ts : GoMap Hlc) (s : Merging) (j : String)
    → lookup j ts ≡ latest_point (lookup j m.tombstones) (lookup j o.tombstones)
    → at j s ≡ (
        if contains j (all_keys m.map o.map)
        then settled (pick_winner (lookup j m.map) (lookup j o.map)) (none, lookup j ts)
        else (none, lookup j ts))
    → at j s
      ≡ settled
          (pick_winner (lookup j m.map) (lookup j o.map))
          (none, latest_point (lookup j m.tombstones) (lookup j o.tombstones))
unfolding pick_winner has
at-start m o ts s j f g = rw (← f) (g ∙ ground (arith, contains-all_keys j m.map o.map))

-- Merging two well-formed documents does not panic. The result is well-formed, holds for each key
-- the join of what the two replicas hold, and has the merged clock; its deletion mark is that of
-- the document with the later clock, and the receiver's on a tie.
pub merge_refines_join :
    (m o : MergeableMap)
    → IsWellFormed m
    → IsWellFormed o
    → (r : MergeableMap) × (merge m o ≡ some r)
      × IsWellFormed r
      × ((k : String) → cell r k ≡ join (cell m k) (cell o k))
      × (r.point ≡ Hlc.merge m.point o.point)
      × (r.deleted ≡ (if nonneg (Hlc.cmp m.point o.point) then m.deleted else o.deleted))
unfolding merge has lookup latest_point pick_winner
merge_refines_join m o wm wo =
    let (ts, e, f) = merge_tombstones-lookup m.tombstones o.tombstones in
    let (s, e', g) =
      merge_loop-lookup m.map o.map (all_keys m.map o.map)
        (record { elements = []; all_tombstones = ts }) (all_keys-bound m.map o.map) in
    let there = λ (j : String). at-start m o ts s j (f j) (g j) in
    let key = λ (j : String).
      settled-join (lookup j m.map) (lookup j o.map) (lookup j m.tombstones) (lookup j o.tombstones)
        (wm j) (wo j) in
    (
      record {
        point = Hlc.merge m.point o.point;
        deleted = if nonneg (Hlc.cmp m.point o.point) then m.deleted else o.deleted;
        map = s.elements;
        tombstones = s.all_tombstones;
      },
      rw (e, e'),
      λ k. ap (λ (x : Pair). bound x.0 && bound x.1) (there k) ∙ (key k).1,
      λ k. ap (λ (x : Pair). to_cell x.0 x.1) (there k) ∙ (key k).0,
      refl,
      refl,
    )
