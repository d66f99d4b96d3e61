-- ===== src/BancoReplicado/CrdtTable/Contents.antt =====
-- What the loops of a table's methods do to the keys and values of a document.
use grupo.Prelude.{
  zero, String, true, false, ◌≡◌, refl, ◌∙◌, Option, none, some, List, [], ◌∷◌, arith, eq_iff,
  str_eq, if◌then◌else◌,
}
use grupo.Prelude.Int.{ℤ}
use grupo.Prelude.GoMap.{Distinct, GoMap, has, lookup, lookup-insert, lookup-copy_with}
use grupo.Crdt.MergeableString.{MergeableString}
use grupo.Crdt.MergeableMap.{
  MergeableMap, Readings, later, clone, put, remove, remove_all, set_deleted,
}
use grupo.Crdt.MergeableMap.Writes.{remove_all-empty, map-copy}
use grupo.BancoReplicado.CrdtTable.{put_all, values}

-- The value that a document shows for a key.
abbrev pub shown : Option MergeableString → Option String
shown none = none
shown (some s) = some s.value

abbrev pub first_of_two : Option String → Option String → Option String
first_of_two none o = o
first_of_two (some v) o = some v

pub first_of-none : (o : Option String) → first_of_two o none ≡ o
first_of-none none = refl
first_of-none (some v) = refl

pub lookup-values : (m : MergeableMap) (k : String) → lookup k (values m) ≡ shown (lookup k m.map)
unfolding values
lookup-values m k = lookup-copy_with (λ (s : MergeableString). s.value) k m.map ∙ ground arith

lookup-put :
    (now : ℤ) (k v : String) (m : MergeableMap) (j : String)
    → shown (lookup j (put now k v m).map) ≡ (if str_eq k j then some v else shown (lookup j m.map))
unfolding put
lookup-put now k v m j = rw (lookup-insert, map-copy j m.map) (ground arith)

deleted-put : (now : ℤ) (k v : String) (m : MergeableMap) → (put now k v m).deleted ≡ false
unfolding put
deleted-put now k v m = refl

-- After the puts of a whole document a key shows the document's value, or else what it showed.
pub lookup-put_all :
    (now : Readings) (doc : GoMap String) (m : MergeableMap) (j : String)
    → Distinct doc
    → shown (lookup j (put_all now doc m).0.map)
      ≡ first_of_two (lookup j doc) (shown (lookup j m.map))
unfolding put_all lookup has
lookup-put_all now [] m j d = refl
lookup-put_all now ((k, v) ∷ doc) m j d = ground (
  arith,
  lookup-put_all (later now) doc (put (now zero) k v m) j d.1,
  lookup-put (now zero) k v m j,
  eq_iff k j,
)

pub deleted-put_all :
    (now : Readings) (doc : GoMap String) (m : MergeableMap)
    → m.deleted ≡ false
    → (put_all now doc m).0.deleted ≡ false
unfolding put_all
deleted-put_all now [] m h = h
deleted-put_all now ((k, v) ∷ doc) m h =
    deleted-put_all (later now) doc (put (now zero) k v m) (deleted-put (now zero) k v m)

pub deleted-remove_all :
    (now : Readings) (ks : List String) (m : MergeableMap)
    → m.deleted ≡ false
    → (remove_all now ks m).0.deleted ≡ false
unfolding remove_all remove
deleted-remove_all now [] m h = h
deleted-remove_all now (k ∷ ks) m h = deleted-remove_all (later now) ks (remove (now zero) k m) refl

-- SetDeleted(false) shows what the document showed if it was not deleted, and nothing if it was.
pub revive :
    (now : Readings) (m : MergeableMap)
    → ((set_deleted now false m).0.deleted ≡ false)
      × ((k : String)
          → shown (lookup k (set_deleted now false m).0.map)
            ≡ (if m.deleted then none else shown (lookup k m.map)))
unfolding set_deleted
revive now m = (ground arith, λ k. ground (arith, remove_all-empty now (clone m) k))

-- SetDeleted(true) on a document that is not deleted marks it and leaves no key.
pub bury :
    (now : Readings) (m : MergeableMap)
    → m.deleted ≡ false
    → ((set_deleted now true m).0.deleted ≡ true)
      × ((k : String) → lookup k (set_deleted now true m).0.map ≡ none)
unfolding set_deleted
bury now m h = (ground arith, λ k. ground (arith, remove_all-empty now (clone m) k))
