-- ===== src/Crdt/MergeableMap/Merge.antt =====
-- (m MergeableMap) Merge(other) and mergeTombstones of BancoReplicado/crdt/crdt.go. `none` is the
-- panic "This should never happen".
use grupo.Prelude.{String, Option, none, some, List, [], ◌∷◌, ◌>>=◌, if◌then◌else◌}
use grupo.Prelude.Int.{nonneg}
use grupo.Prelude.GoMap.{GoMap, lookup, insert, delete, keys, mark}
use grupo.Crdt.Hlc
use grupo.Crdt.Hlc.{Hlc}
use grupo.Crdt.MergeableString
use grupo.Crdt.MergeableString.{MergeableString}
use grupo.Crdt.MergeableMap.{MergeableMap}

-- allKeys, for two maps.
unfoldable pub all_keys {ℓ} : {V : Type ℓ} → GoMap V → GoMap V → List String
all_keys m other = keys (mark (keys other) (mark (keys m) []))

-- The `iter` of mergeTombstones.
unfoldable pub latest_point : Option Hlc → Option Hlc → Option Hlc
latest_point none none = none
latest_point (some p1) (some p2) = some (Hlc.merge p1 p2)
latest_point (some p1) none = some p1
latest_point none (some p2) = some p2

unfoldable pub tombstones_loop :
    GoMap Hlc → GoMap Hlc → List String → GoMap Hlc → Option (GoMap Hlc)
tombstones_loop ts1 ts2 [] merged = some merged
tombstones_loop ts1 ts2 (k ∷ ks) merged = do
  p ← latest_point (lookup k ts1) (lookup k ts2)
  tombstones_loop ts1 ts2 ks (insert k p merged)

unfoldable pub merge_tombstones : GoMap Hlc → GoMap Hlc → Option (GoMap Hlc)
merge_tombstones ts1 ts2 = tombstones_loop ts1 ts2 (all_keys ts1 ts2) []

-- The first half of the `iter` of Merge: the winner of two registers.
unfoldable pub pick_winner :
    Option MergeableString → Option MergeableString → Option MergeableString
pick_winner none none = none
pick_winner (some left) none = some left
pick_winner none (some right) = some right
pick_winner (some left) (some right) = some (MergeableString.merge left right)

-- The variables that `iter` writes: elements and allTombstones.
pub record Merging : Type 0 where
  pub elements : GoMap MergeableString
  pub all_tombstones : GoMap Hlc

-- The second half: the winner against the tombstone of its key.
unfoldable pub settle : String → MergeableString → Merging → Merging
settle key winner s = elim (lookup key s.all_tombstones) [
  | none ↦ record s { elements = insert key winner s.elements }
  | some p ↦
      if nonneg (Hlc.cmp winner.point p)
      then record {
        elements = insert key winner s.elements;
        all_tombstones = delete key s.all_tombstones;
      }
      else s
]

unfoldable pub merge_loop :
    GoMap MergeableString → GoMap MergeableString → List String → Merging → Option Merging
merge_loop m other [] s = some s
merge_loop m other (k ∷ ks) s = do
  winner ← pick_winner (lookup k m) (lookup k other)
  merge_loop m other ks (settle k winner s)

-- (m MergeableMap) Merge(other MergeableMap)
unfoldable pub merge : MergeableMap → MergeableMap → Option MergeableMap
merge m other = do
  ts ← merge_tombstones m.tombstones other.tombstones
  s ←
      merge_loop m.map other.map (all_keys m.map other.map)
        (record { elements = []; all_tombstones = ts })
  some (record {
    point = Hlc.merge m.point other.point;
    deleted = if nonneg (Hlc.cmp m.point other.point) then m.deleted else other.deleted;
    map = s.elements;
    tombstones = s.all_tombstones;
  })
