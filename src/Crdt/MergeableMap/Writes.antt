-- ===== src/Crdt/MergeableMap/Writes.antt =====
-- What Put, Remove and SetDeleted make of a document, key by key.
use grupo.Prelude.{
  zero, String, Bool, false, not, ◌≡◌, refl, ◌∙◌, none, List, [], ◌∷◌, contains, arith, str_eq,
  if◌then◌else◌,
}
use grupo.Prelude.Int.{ℤ}
use grupo.Prelude.GoMap.{
  GoMap, lookup, keys, copy_with, has, contains-keys, lookup-insert, lookup-delete,
  lookup-copy_with,
}
use grupo.Crdt.Hlc
use grupo.Crdt.Hlc.{Hlc}
use grupo.Crdt.MergeableMap.{
  MergeableMap, Readings, later, clone, put, remove, remove_all, set_deleted, get,
}
use grupo.Crdt.MergeableMap.Cells.{live, dead, cell, IsWellFormed}

pub map-copy {ℓ} :
    {V : Type ℓ} (k : String) (m : GoMap V) → lookup k (copy_with (λ v. v) m) ≡ lookup k m
map-copy k m = lookup-copy_with (λ v. v) k m ∙ ground arith

-- A copy says of each key what the original says, is well-formed with it, and is never marked deleted.
pub cell-clone : (m : MergeableMap) (k : String) → cell (clone m) k ≡ cell m k
unfolding clone
cell-clone m k = rw (map-copy k m.map, map-copy k m.tombstones)

pub clone-IsWellFormed : (m : MergeableMap) → IsWellFormed m → IsWellFormed (clone m)
unfolding clone has
clone-IsWellFormed m h k = ground (arith, map-copy k m.map, map-copy k m.tombstones, h k)

-- In a well-formed document Put binds its key to the value at the incremented clock, leaves what
-- every other key says, lifts the deletion mark, and keeps the document well-formed.
pub put-cell :
    (now : ℤ) (k : String) (v : String) (m : MergeableMap)
    → IsWellFormed m
    → ((j : String)
        → cell (put now k v m) j ≡ (
            if str_eq k j
            then live (record { value = v; point = Hlc.increment now m.point })
            else cell m j))
      × ((put now k v m).point ≡ Hlc.increment now m.point)
      × ((put now k v m).deleted ≡ false)
      × IsWellFormed (put now k v m)
unfolding put has
put-cell now k v m h = (
  λ j. ground (
    arith,
    lookup-insert k j (record { value = v; point = Hlc.increment now m.point }) (clone m).map,
    lookup-delete k j (clone m).tombstones,
    map-copy j m.map,
    map-copy j m.tombstones,
  ),
  refl,
  refl,
  λ j. ground (
    arith,
    lookup-insert k j (record { value = v; point = Hlc.increment now m.point }) (clone m).map,
    lookup-delete k j (clone m).tombstones,
    map-copy j m.map,
    map-copy j m.tombstones,
    h j,
  ),
)

-- In a well-formed document Remove leaves a tombstone at the incremented clock, also for a key that
-- was not there, leaves what every other key says, lifts the deletion mark, and keeps the document
-- well-formed.
pub remove-cell :
    (now : ℤ) (k : String) (m : MergeableMap)
    → IsWellFormed m
    → ((j : String)
        → cell (remove now k m) j
          ≡ (if str_eq k j then dead (Hlc.increment now m.point) else cell m j))
      × ((remove now k m).point ≡ Hlc.increment now m.point)
      × ((remove now k m).deleted ≡ false)
      × IsWellFormed (remove now k m)
unfolding remove has
remove-cell now k m h = (
  λ j. ground (
    arith,
    lookup-insert k j (Hlc.increment now m.point) (clone m).tombstones,
    lookup-delete k j (clone m).map,
    map-copy j m.map,
    map-copy j m.tombstones,
    h j,
  ),
  refl,
  refl,
  λ j. ground (
    arith,
    lookup-insert k j (Hlc.increment now m.point) (clone m).tombstones,
    lookup-delete k j (clone m).map,
    map-copy j m.map,
    map-copy j m.tombstones,
    h j,
  ),
)

lookup-remove :
    (now : ℤ) (k j : String) (m : MergeableMap)
    → lookup j (remove now k m).map ≡ (if str_eq k j then none else lookup j m.map)
unfolding remove
lookup-remove now k j m = rw (lookup-delete, map-copy j m.map)

remove_all-IsWellFormed :
    (now : Readings) (ks : List String) (m : MergeableMap)
    → IsWellFormed m
    → IsWellFormed (remove_all now ks m).0
unfolding remove_all
remove_all-IsWellFormed now [] m h = h
remove_all-IsWellFormed now (k ∷ ks) m h =
    remove_all-IsWellFormed (later now) ks (remove (now zero) k m) (remove-cell (now zero) k m h).3

pub lookup-remove_all :
    (now : Readings) (ks : List String) (m : MergeableMap) (j : String)
    → lookup j (remove_all now ks m).0.map ≡ (if contains j ks then none else lookup j m.map)
unfolding remove_all contains
lookup-remove_all now [] m j = refl
lookup-remove_all now (k ∷ ks) m j = ground (
  arith,
  lookup-remove_all (later now) ks (remove (now zero) k m) j,
  lookup-remove (now zero) k j m,
)

-- Every key of the document in the list of keys: nothing is left.
pub remove_all-empty :
    (now : Readings) (m : MergeableMap) (j : String)
    → lookup j (remove_all now (keys m.map) m).0.map ≡ none
unfolding has
remove_all-empty now m j =
    ground (arith, lookup-remove_all now (keys m.map) m j, contains-keys j m.map)

-- SetDeleted of a well-formed document does nothing when the mark is already as asked. Otherwise it
-- sets the mark and leaves no key that Get finds. It keeps the document well-formed.
pub set_deleted_lem :
    (now : Readings) (d : Bool) (m : MergeableMap)
    → IsWellFormed m
    → ((set_deleted now d m).0.deleted ≡ d)
      × IsWellFormed (set_deleted now d m).0
      × (m.deleted ≡ d → (set_deleted now d m).0 ≡ m)
      × (m.deleted ≡ not d → (k : String) → get k (set_deleted now d m).0 ≡ ("", false))
unfolding set_deleted get
set_deleted_lem now d m h = (
  ground arith,
  λ k. ground (
    arith,
    h k,
    remove_all-IsWellFormed now (keys (clone m).map) (clone m) (clone-IsWellFormed m h) k,
  ),
  λ e. ground arith,
  λ e k. ground (arith, remove_all-empty now (clone m) k),
)
