-- ===== src/Crdt/MergeableMap.antt =====
-- The document of BancoReplicado/crdt/crdt.go: a map from keys to registers, with a tombstone for
-- each removed key. A method that reads the wall clock takes the readings to come as a stream, and
-- a panic is `none`.
pub mod Merge
pub mod Cells
pub mod Writes
pub mod Tombstones
pub mod Refines
pub mod Sync
use grupo.Prelude.{
  ℕ, suc, String, Bool, true, false, Option, none, some, List, [], ◌∷◌, length, if◌then◌else◌,
}
use grupo.Prelude.Int.{ℤ, pos}
use grupo.Prelude.GoMap
use grupo.Prelude.GoMap.{GoMap, lookup, insert, delete, keys, copy_with, mark}
use grupo.Crdt.Hlc
use grupo.Crdt.Hlc.{Hlc}
use grupo.Crdt.MergeableString
use grupo.Crdt.MergeableString.{MergeableString}

pub record MergeableMap : Type 0 where
  pub point : Hlc
  pub deleted : Bool
  pub map : GoMap MergeableString
  pub tombstones : GoMap Hlc

-- What the calls of time.Now().UnixNano() return, the next one first.
abbrev pub Readings : Type 0
Readings = ℕ → ℤ

abbrev pub later : Readings → Readings
later now n = now (suc n)

-- NewMergeableMap(NodeID)
unfoldable pub new_mergeable_map : ℤ → MergeableMap
new_mergeable_map node = record {
  point = record { timestamp = pos 0; counter = pos 0; node_id = node };
  deleted = false;
  map = [];
  tombstones = [];
}

-- clone(): Deleted is not copied, and has the zero value.
unfoldable pub clone : MergeableMap → MergeableMap
clone m = record {
  point = m.point;
  deleted = false;
  map = copy_with (λ v. v) m.map;
  tombstones = copy_with (λ p. p) m.tombstones;
}

-- Put(key, value)
unfoldable pub put : ℤ → String → String → MergeableMap → MergeableMap
unfolding clone
put now key value m =
    let m2 = clone m in
    let p = Hlc.increment now m2.point in
    record m2 {
      point = p;
      map = insert key (record { value = value; point = p }) m2.map;
      tombstones = delete key m2.tombstones;
    }

-- Remove(key)
unfoldable pub remove : ℤ → String → MergeableMap → MergeableMap
unfolding clone
remove now key m =
    let m2 = clone m in
    let p = Hlc.increment now m2.point in
    record m2 { point = p; map = delete key m2.map; tombstones = insert key p m2.tombstones }

-- for _, key := range keys { m2 = m2.Remove(key) }
unfoldable pub remove_all : Readings → List String → MergeableMap → MergeableMap × Readings
remove_all now [] m = (m, now)
remove_all now (k ∷ ks) m = remove_all (later now) ks (remove (now 0) k m)

same : Bool → Bool → Bool
same true b = b
same false true = false
same false false = true

-- SetDeleted(deleted)
unfoldable pub set_deleted : Readings → Bool → MergeableMap → MergeableMap × Readings
unfolding same
set_deleted now deleted m =
    if same m.deleted deleted
    then (m, now)
    else (let m2 = clone m in
        let (m3, now') = remove_all now (keys m2.map) m2 in
        (record m3 { point = Hlc.increment (now' 0) m3.point; deleted = deleted }, later now'))

-- Get(key): a missing key gives the zero value "" and false.
unfoldable pub get : String → MergeableMap → String × Bool
get key m = elim (lookup key m.map) [ none ↦ ("", false) | some v ↦ (v.value, true) ]

-- Len()
len : MergeableMap → ℕ
len m = length m.map
