-- ===== src/BancoReplicado/Rpc.antt =====
-- BancoReplicado/rpc.go: MergeCRDTStates, at a node that is given by its tables. The other remote call,
-- QueuePendingCRDTStates, stands in Replication.
pub mod Merging
use Prim.Native.String.{◌++◌ as append, slice}
use grupo.Prelude.{
  ℕ, zero, suc, ◌+◌, ◌/◌, ◌%◌, String, Bool, true, false, List, [], ◌∷◌, ltb, str_eq, ◌==◌,
  if◌then◌else◌,
}
use grupo.Crdt.MergeableMap.{MergeableMap}
use grupo.Crdt.Wire.{MergeableMapPb, map_to_pb, map_from_pb}
use grupo.BancoReplicado.Exec.{
  Error, Result, Exec, ok, err, panic, library, pure, lift, fail, not_a_crdt_table, node_is_offline,
  ◌>>=◌, ◌>>◌,
}
use grupo.BancoReplicado.Store.{Bolt, Encoding}
use grupo.BancoReplicado.Transaction.{World, Action, put_tx, put_bytes}
use grupo.BancoReplicado.CrdtTable.{merge_doc}
use grupo.BancoReplicado.Database.{Table, raft_table, crdt_table, get_table, create_table, get_doc}
use grupo.Prelude.GoMap.{GoMap}
use grupo.Prelude.{Option, none, some, ◌++◌}
use grupo.BancoReplicado.Replication.{DocumentState, rolled_back}

-- The VisEvent of kind merge_crdt_states: the document as Get returns it, or nil.
pub record MergeEvent : Type 0 where
  pub doc_id : String
  pub doc : Option (GoMap String)

module _ {Bytes : Type 0} (b : Bolt Bytes) (j : Encoding Bytes) (node_id : ℕ) where
  or_create : String → Result Table × World b.Tx → Result Table × World b.Tx
  or_create name (ok t, w) = (ok t, w)
  or_create name (err e, w) = create_table b j node_id name false w
  or_create name (panic, w) = (panic, w)

  unfoldable pub get_or_create : String → Action b Table
  unfolding or_create
  get_or_create name w = or_create name (get_table b j node_id name w)

  -- table.(*CRDTTable)
  unfoldable pub crdt_name : Table → Action b String
  crdt_name (crdt_table name) = pure name
  crdt_name (raft_table name) = fail not_a_crdt_table

  unfoldable pub event_of :
      String → Result (GoMap String) × World b.Tx → Result MergeEvent × World b.Tx
  event_of doc_id (ok d, w) = (ok (record { doc_id = doc_id; doc = some d }), w)
  event_of doc_id (err e, w) = (ok (record { doc_id = doc_id; doc = none }), w)
  event_of doc_id (panic, w) = (panic, w)

  unfoldable pub merge_state : DocumentState → Action b MergeEvent
  merge_state s = do
    table ← get_or_create s.table_name
    name ← crdt_name table
    merge_doc b j node_id name s.doc_id (map_from_pb s.map)
    λ w. event_of s.doc_id (get_doc b j node_id table s.doc_id w)

  -- An event is sent as soon as its document is merged; an error or a panic ends the loop.
  and_then_send :
      Result MergeEvent × World b.Tx
      → (World b.Tx → List MergeEvent × (Result (Unit {0}) × World b.Tx))
      → List MergeEvent × (Result (Unit {0}) × World b.Tx)
  and_then_send (ok e, w) rest = let (es, r) = rest w in (e ∷ es, r)
  and_then_send (err e, w) rest = ([], (err e, w))
  and_then_send (panic, w) rest = ([], (panic, w))

  -- The loop over the documents, with the events that it sends.
  unfoldable pub merge_states :
      List DocumentState → World b.Tx → List MergeEvent × (Result (Unit {0}) × World b.Tx)
  unfolding and_then_send
  merge_states [] w = ([], (ok tt, w))
  merge_states (s ∷ ss) w = and_then_send (merge_state s w) (merge_states ss)

  -- (i *Instance) MergeCRDTStates, with the events it sends.
  unfoldable pub merge_crdt_states :
      Bool → List DocumentState → World b.Tx → List MergeEvent × (Result (Unit {0}) × World b.Tx)
  merge_crdt_states offline documents w =
      if offline
      then ([], (err node_is_offline, w))
      else (let (events, r) = merge_states documents w in (events, rolled_back b w.tx r))
