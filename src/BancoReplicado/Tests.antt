-- ===== src/BancoReplicado/Tests.antt =====
-- Runs of the tables over the store in memory, and the theorems at concrete inputs.
pub mod Replicated
pub mod Served
mod Listening
mod Launching
use grupo.Prelude.{
  ◌+◌, String, Bool, true, false, ◌≡◌, refl, ap, sym, none, some, [], ◌∷◌, ◌++◌, arith, str_eq,
}
use grupo.Prelude.Int.{pos}
use grupo.Prelude.GoMap.{Distinct, GoMap, lookup, has, insert, delete}
use grupo.Crdt.MergeableMap.{MergeableMap}
use grupo.Crdt.MergeableMap.Cells.{IsWellFormed, cell, join}
use grupo.BancoReplicado.Exec.{
  Result, ok, err, panic, document_does_not_exist, table_does_not_exist, table_already_exists,
}
use grupo.BancoReplicado.Store.Memory.{
  Buckets, Value, byte, map_value, memory, memory_laws, plain, plain_laws,
}
use grupo.BancoReplicado.Transaction.{World}
use grupo.BancoReplicado.CrdtTable.{
  put_doc, patch_doc, delete_doc, get_doc, merge_doc, stored_or_new,
}
use grupo.BancoReplicado.CrdtTable.Contents.{first_of_two}
use grupo.BancoReplicado.CrdtTable.Documents.{Ready, Stored, stored_view, put_doc-get_doc}
use grupo.BancoReplicado.CrdtTable.Updates.{
  patch_doc-get_doc, delete_doc-get_doc, missing_doc, merge_doc-joins,
}
use grupo.Crdt.Hlc
use grupo.BancoReplicado.Database
use grupo.BancoReplicado.Database.{table_of}
use grupo.BancoReplicado.Database.Tables.{CanCreate, create_table-get_table, delete_table-get_table}

-- A document of node 1 with one key, in an eventually consistent table.
abbrev stored : MergeableMap
stored = record {
  point = record { timestamp = pos 5; counter = pos 0; node_id = pos 1 };
  deleted = false;
  map =
      (
        "name",
        record {
          value = "ana";
          point = record { timestamp = pos 5; counter = pos 0; node_id = pos 1 };
        },
      )
      ∷ [];
  tombstones = [];
}

abbrev buckets : Buckets
buckets = ("people", ("__consistency", byte 0) ∷ ("d1", map_value stored) ∷ []) ∷ []

abbrev world : World Buckets
world = record { tx = buckets; readings = λ n. pos (n + 10); broadcasts = [] }

abbrev body : GoMap String
body = ("city", "Goiania") ∷ []

body-Distinct : Distinct body
unfolding has lookup
body-Distinct = (refl, tt)

world-Ready : Ready memory plain 1 "people" "d1" world
unfolding has lookup
world-Ready = record {
  exists = refl;
  readable = λ v e. (stored, ground arith);
  encodes = λ m. (map_value m, refl);
  writes = λ v. (_, refl);
}

put_doc-get_doc_example :
    (w' : World Buckets) × (m : MergeableMap) × (put_doc memory plain 1 "people" "d1" body world
      ≡ (ok tt, w'))
    × ((d : GoMap String) × (get_doc memory plain 1 "people" "d1" w' ≡ (ok d, w'))
        × ((k : String) → lookup k d ≡ lookup k body))
    × Stored memory plain 1 "people" "d1" world w' m
    × (w'.broadcasts ≡ [] ++ record { table_name = "people"; doc_id = "d1"; map = m } ∷ [])
put_doc-get_doc_example =
    put_doc-get_doc memory plain 1 memory_laws plain_laws "people" "d1" body world world-Ready
      body-Distinct

patch_doc-get_doc_example :
    (w' : World Buckets) × (m : MergeableMap) × (r d : GoMap String) × (patch_doc memory plain 1
        "people" "d1" body world
      ≡ (ok r, w'))
    × (get_doc memory plain 1 "people" "d1" w' ≡ (ok d, w'))
    × ((k : String)
        → lookup k r
          ≡ first_of_two
              (lookup k body)
              (stored_view memory plain 1 (memory.get world.tx "people" "d1") k))
    × ((k : String) → lookup k d ≡ lookup k r)
    × Stored memory plain 1 "people" "d1" world w' m
    × (w'.broadcasts ≡ [] ++ record { table_name = "people"; doc_id = "d1"; map = m } ∷ [])
patch_doc-get_doc_example =
    patch_doc-get_doc memory plain 1 memory_laws plain_laws "people" "d1" body world world-Ready
      body-Distinct

delete_doc-get_doc_example :
    (w' : World Buckets) × (m' : MergeableMap) × (d : GoMap String) × (delete_doc memory plain 1
        "people" "d1" world
      ≡ (ok d, w'))
    × ((k : String) → lookup k d ≡ none)
    × (get_doc memory plain 1 "people" "d1" w' ≡ (err document_does_not_exist, w'))
    × Stored memory plain 1 "people" "d1" world w' m'
    × (w'.broadcasts ≡ [] ++ record { table_name = "people"; doc_id = "d1"; map = m' } ∷ [])
unfolding lookup
delete_doc-get_doc_example =
    delete_doc-get_doc memory plain 1 memory_laws plain_laws "people" "d1" world (map_value stored)
      stored world-Ready refl refl refl

no_such_document :
    (v : Value)
    → memory.get world.tx "people" "d2" ≡ some v
    → (m : MergeableMap) × (plain.unmarshal_map v ≡ ok m) × (m.deleted ≡ true)
unfolding lookup
no_such_document v e = absurd (ground arith)

stored-IsWellFormed : IsWellFormed stored
unfolding has lookup
stored-IsWellFormed k = ground arith

merge_doc-joins_example :
    (w' : World Buckets) × (r : MergeableMap) × (merge_doc memory plain 1 "people" "d1" stored world
      ≡ (ok tt, w'))
    × IsWellFormed r
    × ((k : String) → cell r k ≡ join (cell stored k) (cell stored k))
    × (r.point ≡ Hlc.merge stored.point stored.point)
    × Stored memory plain 1 "people" "d1" world w' r
    × (w'.broadcasts ≡ [])
unfolding stored_or_new lookup
merge_doc-joins_example =
    merge_doc-joins memory plain 1 memory_laws plain_laws "people" "d1" stored stored world
      world-Ready refl stored-IsWellFormed stored-IsWellFormed

abbrev result_or_empty : Result Buckets → Buckets
result_or_empty (ok b) = b
result_or_empty (err e) = []
result_or_empty panic = []

created :
    (t : Buckets) → memory.create_bucket world.tx "cities" ≡ ok t → insert "cities" [] buckets ≡ t
unfolding has lookup insert
created t e = ap result_or_empty e

can_create : CanCreate memory plain 1 "cities" world
unfolding has lookup insert
can_create = record {
  missing = refl;
  creates = (_, refl);
  writes = λ t e v.
      (insert "cities" (insert Database.consistency_key v []) t, rw (sym (created t e)) refl);
}

create_table-get_table_example :
    (w' : World Buckets) × (Database.create_table memory plain 1 "cities" true world
      ≡ (ok (table_of true "cities"), w'))
    × (Database.get_table memory plain 1 "cities" w' ≡ (ok (table_of true "cities"), w'))
    × ((again : Bool)
        → Database.create_table memory plain 1 "cities" again w' ≡ (err table_already_exists, w'))
    × ((n : String)
        → str_eq "cities" n ≡ false
        → memory.has_bucket w'.tx n ≡ memory.has_bucket world.tx n)
create_table-get_table_example =
    create_table-get_table memory plain 1 memory_laws plain_laws "cities" true world can_create
