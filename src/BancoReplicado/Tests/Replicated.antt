-- ===== src/BancoReplicado/Tests/Replicated.antt =====
-- Runs of the queues, of the remote calls and of the plain tables, and the theorems at concrete inputs.
use grupo.Prelude.{
  String, true, false, ◌≡◌, refl, Option-cases, inl, inr, none, some, [], ◌∷◌, All, arith,
}
use grupo.Prelude.GoMap.{GoMap, lookup, has, insert, copy_with}
use grupo.Crdt.MergeableMap.{MergeableMap}
use grupo.Crdt.MergeableMap.Cells.{IsWellFormed, cell, join}
use grupo.Crdt.Wire.{map_to_pb, map_from_pb}
use grupo.BancoReplicado.Exec.{ok}
use grupo.BancoReplicado.Store.Memory.{
  Buckets, Value, no_bytes, byte, doc_value, memory, memory_laws, plain, plain_laws,
}
use grupo.BancoReplicado.Transaction.{World}
use grupo.BancoReplicado.CrdtTable.{stored_or_new}
use grupo.BancoReplicado.CrdtTable.Contents.{first_of_two, shown}
use grupo.BancoReplicado.CrdtTable.Documents.{Stored}
use grupo.BancoReplicado.RaftTable
use grupo.Crdt.Hlc
use grupo.BancoReplicado.RaftTable.Documents.{CanWrite, read_bytes, put_doc-patch_doc-get_doc}
use grupo.BancoReplicado.Database.{crdt_table, get_table}
use grupo.BancoReplicado.Replication.{
  DocumentState, Protobuf, pending_bucket, peers, queue_for_all_nodes,
}
use grupo.BancoReplicado.Replication.Pending.{
  KeptFor, Queueable, Creatable, queue_for_all_nodes-Kept,
}
use grupo.BancoReplicado.Rpc.{MergeEvent, merge_crdt_states}
use grupo.BancoReplicado.Rpc.Merging.{merge_crdt_states-joins}
use grupo.BancoReplicado.Tests.{
  stored, buckets, world, world-Ready, stored-IsWellFormed, body, body-Distinct,
}

-- The state of the document d1, or of another one with the same contents.
abbrev state_of : String → DocumentState
state_of doc_id = record {
  table_name = "people";
  doc_id = doc_id;
  map = map_to_pb stored;
  is_retry = false;
}

-- A message that is told by its document alone.
abbrev by_doc_id : Protobuf Value
by_doc_id = record {
  marshal_state = λ s. ok s.doc_id;
  unmarshal_state = λ k. ok (state_of k);
  no_bytes = no_bytes;
}

bucket-Creatable : (n : String) → Creatable memory by_doc_id n
unfolding has
bucket-Creatable n t h = (insert n [] t, rw h refl)

state-Queueable : (n : String) (s : DocumentState) → Queueable memory by_doc_id n s
unfolding has
state-Queueable n s = (
  s.doc_id,
  refl,
  λ t h. elim (Option-cases (lookup n t)) [
    | inl e ↦ absurd (ground arith)
    | inr (m, e) ↦ (insert n (insert s.doc_id no_bytes m) t, ground arith)
  ],
)

peers_of_three : peers 1 0 3 ≡ 0 ∷ 2 ∷ []
unfolding peers
peers_of_three = refl

second_bucket : pending_bucket 12 ≡ "__crdt_pending_states_12"
unfolding pending_bucket
second_bucket = refl

peers-Creatable : All (λ j. Creatable memory by_doc_id (pending_bucket j)) (peers 1 0 3)
unfolding peers
peers-Creatable = (bucket-Creatable (pending_bucket 0), (bucket-Creatable (pending_bucket 2), tt))

peers-Queueable :
    All (λ j. Queueable memory by_doc_id (pending_bucket j) (state_of "d1")) (peers 1 0 3)
unfolding peers
peers-Queueable = (
  state-Queueable (pending_bucket 0) (state_of "d1"),
  (state-Queueable (pending_bucket 2) (state_of "d1"), tt),
)

queue_for_all_nodes-Kept_example :
    All
      (KeptFor memory by_doc_id
        (queue_for_all_nodes memory by_doc_id 1 0 3 "people" "d1" stored world)
        (state_of "d1"))
      (peers 1 0 3)
    × ((n k : String)
        → memory.get world.tx n k ≡ some no_bytes
        → memory.get (queue_for_all_nodes memory by_doc_id 1 0 3 "people" "d1" stored world).tx n k
          ≡ some no_bytes)
    × ((queue_for_all_nodes memory by_doc_id 1 0 3 "people" "d1" stored world).broadcasts ≡ [])
queue_for_all_nodes-Kept_example =
    queue_for_all_nodes-Kept memory by_doc_id memory_laws 1 0 3 "people" "d1" stored world
      peers-Creatable peers-Queueable

-- Node 1 with a state that waits for node 2.
abbrev waiting : World Buckets
waiting = record world { tx = ("__crdt_pending_states_2", ("d1", no_bytes) ∷ []) ∷ buckets }

people : get_table memory plain 1 "people" world ≡ (ok (crdt_table "people"), world)
unfolding get_table has lookup
people = refl

base : stored_or_new memory plain 1 (memory.get world.tx "people" "d1") world ≡ (ok stored, world)
unfolding stored_or_new lookup
base = refl

received-IsWellFormed : IsWellFormed (map_from_pb (map_to_pb stored))
unfolding map_from_pb map_to_pb copy_with has lookup insert
received-IsWellFormed k = ground arith

merge_crdt_states-joins_example :
    (w' : World Buckets) × (r : MergeableMap) × (e : MergeEvent) × (merge_crdt_states memory plain 1
        false
        (state_of "d1" ∷ [])
        world
      ≡ (e ∷ [], (ok tt, w')))
    × IsWellFormed r
    × ((k : String) → cell r k ≡ join (cell stored k) (cell (map_from_pb (map_to_pb stored)) k))
    × (r.point ≡ Hlc.merge stored.point (map_from_pb (map_to_pb stored)).point)
    × Stored memory plain 1 "people" "d1" world w' r
    × (e.doc_id ≡ "d1")
    × (r.deleted ≡ true → e.doc ≡ none)
    × (r.deleted ≡ false
        → (d : GoMap String) × (e.doc ≡ some d)
          × ((k : String) → lookup k d ≡ shown (lookup k r.map)))
merge_crdt_states-joins_example =
    merge_crdt_states-joins memory plain 1 memory_laws plain_laws (state_of "d1") "people" stored
      world people world-Ready base stored-IsWellFormed received-IsWellFormed

-- A strongly consistent table with one document.
abbrev plain_world : World Buckets
plain_world = record world {
  tx = ("cities", ("__consistency", byte 1) ∷ ("c1", doc_value body) ∷ []) ∷ [];
}

plain_world-CanWrite : CanWrite memory plain "cities" "c1" plain_world
unfolding has lookup
plain_world-CanWrite = record {
  exists = refl;
  readable = λ v e. (body, ground arith);
  not_null = λ v e. refl;
  encodes = λ d. (doc_value d, refl);
  writes = λ v. (_, refl);
}

put_doc-patch_doc-get_doc_example :
    ((w' : World Buckets) × (d : GoMap String) × (RaftTable.put_doc memory plain "cities" "c1" body
          plain_world
        ≡ (ok tt, w'))
      × (RaftTable.get_doc memory plain "cities" "c1" w' ≡ (ok d, w'))
      × ((k : String) → lookup k d ≡ lookup k body))
    × ((w' : World Buckets) × (r d : GoMap String) × (RaftTable.patch_doc memory plain "cities" "c1"
            body plain_world
          ≡ (ok r, w'))
        × (RaftTable.get_doc memory plain "cities" "c1" w' ≡ (ok d, w'))
        × ((k : String)
            → lookup k r
              ≡ first_of_two
                  (lookup k body)
                  (read_bytes memory plain (memory.get plain_world.tx "cities" "c1") k))
        × ((k : String) → lookup k d ≡ lookup k r))
put_doc-patch_doc-get_doc_example =
    put_doc-patch_doc-get_doc memory plain memory_laws plain_laws "cities" "c1" body plain_world
      plain_world-CanWrite body-Distinct
