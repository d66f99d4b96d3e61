-- ===== src/Crdt/MergeableMap/Sync.antt =====
-- What two replicas read after they have merged each other's document.
use grupo.Prelude.{
  String, inl, inr, Bool, true, false, ◌≡◌, refl, ap, sym, ◌∙◌, Option, none, some, arith, eq_iff,
}
use grupo.Prelude.Int.{ℤ}
use grupo.Prelude.GoMap.{lookup}
use grupo.Crdt.Hlc
use grupo.Crdt.Hlc.{Hlc, IsValid, Before, cmp}
use grupo.Crdt.Hlc.Order.{cmp-neg, cmp_later, Before-trichotomy}
use grupo.Crdt.MergeableString
use grupo.Crdt.MergeableString.{MergeableString}
use grupo.Crdt.MergeableString.Merging.{value-merge, merge_later_wins}
use grupo.Crdt.MergeableMap.{MergeableMap, get, put, remove}
use grupo.Crdt.MergeableMap.Merge.{merge}
use grupo.Crdt.MergeableMap.Cells.{Cell, absent, live, dead, to_cell, cell, join, IsWellFormed}
use grupo.Crdt.MergeableMap.Refines.{merge_refines_join}
use grupo.Crdt.MergeableMap.Writes.{put-cell, remove-cell}

-- What Get finds in a cell.
abbrev pub read : Cell → String × Bool
read absent = ("", false)
read (live v) = (v.value, true)
read (dead p) = ("", false)

read-to_cell :
    (a : Option MergeableString) (t : Option Hlc)
    → (elim a as (λ _. String × Bool) [ none ↦ ("", false) | some v ↦ (v.value, true) ])
      ≡ read (to_cell a t)
read-to_cell (some v) t = refl
read-to_cell none (some p) = refl
read-to_cell none none = refl

pub get-eq-read : (m : MergeableMap) (k : String) → get k m ≡ read (cell m k)
unfolding get
get-eq-read m k = read-to_cell (lookup k m.map) (lookup k m.tombstones)

-- Two registers with one clock hold one value, and all clocks are valid.
abbrev pub Agree : Cell → Cell → Type 0
Agree (live v) (live w) =
    IsValid v.point × IsValid w.point × (v.point ≡ w.point → v.value ≡ w.value)
Agree _ _ = Unit

value-merge_comm :
    (v w : MergeableString)
    → IsValid v.point
    → IsValid w.point
    → (v.point ≡ w.point → v.value ≡ w.value)
    → (MergeableString.merge v w).value ≡ (MergeableString.merge w v).value
value-merge_comm v w p q h = elim (Before-trichotomy v.point w.point) [
  | inl (inl first) ↦ (merge_later_wins v w p q first).0 ∙ sym (merge_later_wins v w p q first).1
  | inl (inr second) ↦ (merge_later_wins w v q p second).1 ∙ sym (merge_later_wins w v q p second).0
  | inr tie ↦ ground (arith, value-merge v w, value-merge w v, h tie)
]

read-join_comm : (c d : Cell) → Agree c d → read (join c d) ≡ read (join d c)
read-join_comm absent absent h = refl
read-join_comm absent (live w) h = refl
read-join_comm absent (dead q) h = refl
read-join_comm (live v) absent h = refl
read-join_comm (live v) (live w) h =
    ap (λ (s : String). (s, true)) (value-merge_comm v w h.0 h.1 h.2)
read-join_comm (live v) (dead q) h = refl
read-join_comm (dead p) absent h = refl
read-join_comm (dead p) (live w) h = refl
read-join_comm (dead p) (dead q) h = refl

-- Two well-formed replicas that merge each other's document read the same afterwards, at every key:
-- provided that two registers of one key with equal clocks hold equal values, and that the clocks
-- are valid.
pub get-merge_comm :
    (m o : MergeableMap)
    → IsWellFormed m
    → IsWellFormed o
    → ((k : String) → Agree (cell m k) (cell o k))
    → (r s : MergeableMap) × (merge m o ≡ some r)
      × (merge o m ≡ some s)
      × ((k : String) → get k r ≡ get k s)
get-merge_comm m o wm wo h =
    let (r, er, _, cr, _, _) = merge_refines_join m o wm wo in
    let (s, es, _, cs, _, _) = merge_refines_join o m wo wm in
    (
      r,
      s,
      er,
      es,
      λ k.
          get-eq-read r k
          ∙ (ap read (cr k)
              ∙ (read-join_comm (cell m k) (cell o k) (h k)
                  ∙ (ap read (sym (cs k)) ∙ sym (get-eq-read s k)))),
    )

-- Everything that a cell says was said before a clock.
abbrev pub CellBefore : Cell → Hlc → Type 0
CellBefore absent p = Unit
CellBefore (live v) p = IsValid v.point × Before v.point p
CellBefore (dead q) p = IsValid q × Before q p

read-join_live :
    (v : MergeableString) (c : Cell)
    → IsValid v.point
    → CellBefore c v.point
    → (read (join (live v) c) ≡ (v.value, true)) × (read (join c (live v)) ≡ (v.value, true))
read-join_live v absent p h = (refl, refl)
read-join_live v (live w) p h =
    let later_wins = merge_later_wins w v h.0 p h.1 in
    (ap (λ (s : String). (s, true)) later_wins.1, ap (λ (s : String). (s, true)) later_wins.0)
read-join_live v (dead q) p h =
    (rw (cmp_later q v.point h.0 p h.1), rw (cmp_later q v.point h.0 p h.1))

read-join_dead :
    (p : Hlc) (c : Cell)
    → IsValid p
    → CellBefore c p
    → (read (join (dead p) c) ≡ ("", false)) × (read (join c (dead p)) ≡ ("", false))
read-join_dead p absent v h = (refl, refl)
read-join_dead p (live w) v h =
    (rw ((cmp-neg w.point p h.0 v).1 h.1), rw ((cmp-neg w.point p h.0 v).1 h.1))
read-join_dead p (dead q) v h = (refl, refl)

-- A put is read by both replicas after a merge in either direction, when the replicas are
-- well-formed, the clock of the put is valid, and everything the other replica says of the key is
-- valid and earlier than that clock.
pub put_survives_merge :
    (now : ℤ) (k v : String) (m o : MergeableMap)
    → IsWellFormed m
    → IsWellFormed o
    → IsValid (Hlc.increment now m.point)
    → CellBefore (cell o k) (Hlc.increment now m.point)
    → (r s : MergeableMap) × (merge (put now k v m) o ≡ some r)
      × (merge o (put now k v m) ≡ some s)
      × (get k r ≡ (v, true))
      × (get k s ≡ (v, true))
put_survives_merge now k v m o wm wo ok h =
    let (cells, _, _, wf) = put-cell now k v m wm in
    let (r, er, _, cr, _, _) = merge_refines_join (put now k v m) o wf wo in
    let (s, es, _, cs, _, _) = merge_refines_join o (put now k v m) wo wf in
    let written : cell (put now k v m) k
        ≡ live (record { value = v; point = Hlc.increment now m.point }) =
      cells k ∙ rw ((eq_iff k k).1 refl) in
    let both =
      read-join_live (record { value = v; point = Hlc.increment now m.point }) (cell o k) ok h in
    (
      r,
      s,
      er,
      es,
      get-eq-read r k ∙ (ap read (cr k) ∙ rw written both.0),
      get-eq-read s k ∙ (ap read (cs k) ∙ rw written both.1),
    )

-- A removal is seen by both replicas after a merge in either direction, when the replicas are
-- well-formed, the clock of the removal is valid, and everything the other replica says of the key
-- is valid and earlier than that clock.
pub remove_survives_merge :
    (now : ℤ) (k : String) (m o : MergeableMap)
    → IsWellFormed m
    → IsWellFormed o
    → IsValid (Hlc.increment now m.point)
    → CellBefore (cell o k) (Hlc.increment now m.point)
    → (r s : MergeableMap) × (merge (remove now k m) o ≡ some r)
      × (merge o (remove now k m) ≡ some s)
      × (get k r ≡ ("", false))
      × (get k s ≡ ("", false))
remove_survives_merge now k m o wm wo ok h =
    let (cells, _, _, wf) = remove-cell now k m wm in
    let (r, er, _, cr, _, _) = merge_refines_join (remove now k m) o wf wo in
    let (s, es, _, cs, _, _) = merge_refines_join o (remove now k m) wo wf in
    let removed : cell (remove now k m) k ≡ dead (Hlc.increment now m.point) =
      cells k ∙ rw ((eq_iff k k).1 refl) in
    let both = read-join_dead (Hlc.increment now m.point) (cell o k) ok h in
    (
      r,
      s,
      er,
      es,
      get-eq-read r k ∙ (ap read (cr k) ∙ rw removed both.0),
      get-eq-read s k ∙ (ap read (cs k) ∙ rw removed both.1),
    )
