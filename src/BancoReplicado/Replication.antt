-- ===== src/BancoReplicado/Replication.antt =====
-- BancoReplicado/crdt_table.go and rpc.go: the states that wait for other nodes, in a bucket for each
-- node, and what becomes of a synchronisation. The logs are left out.
pub mod Peers
pub mod Pending
use Prim.Native.String.{◌++◌ as append, slice}
use grupo.Prelude.{
  ℕ, zero, suc, ◌+◌, ◌/◌, ◌%◌, String, Bool, true, false, List, [], ◌∷◌, ltb, str_eq, ◌==◌,
  if◌then◌else◌,
}
use grupo.Crdt.MergeableMap.{MergeableMap}
use grupo.Crdt.Wire.{MergeableMapPb, map_to_pb, map_from_pb}
use grupo.BancoReplicado.Exec.{
  Error, Result, Exec, ok, err, panic, library, pure, lift, fail, not_a_crdt_table, node_is_offline,
  ◌>>=◌, ◌>>◌,
}
use grupo.BancoReplicado.Store.{Bolt, Encoding}
use grupo.BancoReplicado.Transaction.{World, Action, put_tx, put_bytes}
use grupo.BancoReplicado.CrdtTable.{merge_doc}
use grupo.BancoReplicado.Database.{Table, raft_table, crdt_table, get_table, create_table, get_doc}
use grupo.Prelude.GoMap.{GoMap}
use grupo.Prelude.Text.{decimal}
use grupo.Prelude.{Option, none, some, ◌++◌}

-- pb.DocumentCRDTState
pub record DocumentState : Type 0 where
  pub table_name : String
  pub doc_id : String
  pub map : MergeableMapPb
  pub is_retry : Bool

-- fmt.Sprintf("__crdt_pending_states_%d", nodeID): a uint64 has at most 20 digits.
unfoldable pub pending_bucket : ℕ → String
pending_bucket node = append "__crdt_pending_states_" (decimal 20 node)

-- proto.Marshal and proto.Unmarshal of a state, and the empty value []byte{}.
pub record Protobuf (Bytes : Type 0) : Type 0 where
  pub marshal_state : DocumentState → Result String
  pub unmarshal_state : String → Result DocumentState
  pub no_bytes : Bytes

-- The nodes from `base` on, `count` of them, but for the own one.
unfoldable pub peers : ℕ → ℕ → ℕ → List ℕ
peers own base zero = []
peers own base (suc count) =
    let rest = peers own (base + 1) count in if base == own then rest else base ∷ rest

-- The states that are not retries yet, marked as retries.
unfoldable pub retries : List DocumentState → List DocumentState
retries [] = []
retries (s ∷ ss) =
    let rest = retries ss in if s.is_retry then rest else record s { is_retry = true } ∷ rest

-- A call of QueuePendingCRDTStates at the node `to`.
pub record QueueRequest : Type 0 where
  pub to : ℕ
  pub dest_node_id : ℕ
  pub documents : List DocumentState

requests : ℕ → List DocumentState → List ℕ → List QueueRequest
requests node documents [] = []
requests node documents (j ∷ js) =
    record { to = j; dest_node_id = node; documents = documents } ∷ requests node documents js

-- if len(retries) > 0
unfoldable pub retry_requests : ℕ → List DocumentState → List ℕ → List QueueRequest
unfolding requests
retry_requests node [] js = []
retry_requests node (s ∷ ss) js = requests node (s ∷ ss) js

module _ {Bytes : Type 0} (b : Bolt Bytes) where
  -- (db *Database) OpenTx: bbolt's Update takes the writes back on an error or a panic.
  unfoldable pub rolled_back : {A : Type 0} → b.Tx → Result A × World b.Tx → Result A × World b.Tx
  rolled_back t (ok a, w) = (ok a, w)
  rolled_back t (err e, w) = (err e, record w { tx = t })
  rolled_back t (panic, w) = (panic, record w { tx = t })

  unfoldable pub open_tx : {A : Type 0} → Action b A → Action b A
  unfolding rolled_back
  open_tx f w = rolled_back w.tx (f w)

  -- tx.CreateBucketIfNotExists(name)
  unfoldable pub create_if_missing : String → Action b (Unit {0})
  create_if_missing name w =
      if b.has_bucket w.tx name then (ok tt, w) else put_tx b (b.create_bucket w.tx name) w

  -- err != bbolt.ErrBucketNotFound, whose text is "bucket not found"
  unless_not_found : Result b.Tx → Action b (Unit {0})
  unless_not_found (ok t) w = (ok tt, record w { tx = t })
  unless_not_found (err (library e)) w =
      if str_eq e "bucket not found" then (ok tt, w) else (err (library e), w)
  unless_not_found (err e) w = (err e, w)
  unless_not_found panic w = (panic, w)

  -- flushPendingCRDTStatesForNode(nodeID)
  unfoldable pub flush_pending : ℕ → Action b (Unit {0})
  unfolding unless_not_found
  flush_pending node =
      open_tx (λ w. unless_not_found (b.delete_bucket w.tx (pending_bucket node)) w)

  module _ (p : Protobuf Bytes) where
    unfoldable pub put_states : String → List DocumentState → Action b (Unit {0})
    put_states name [] = pure tt
    put_states name (s ∷ ss) = do
      k ← lift (p.marshal_state s)
      put_bytes b name k p.no_bytes
      put_states name ss

    -- (i *Instance) QueuePendingCRDTStates
    unfoldable pub queue_pending : ℕ → List DocumentState → Action b (Unit {0})
    queue_pending dest documents =
        open_tx
          (create_if_missing (pending_bucket dest) >> put_states (pending_bucket dest) documents)

    -- bucket.ForEach, which an unreadable key ends.
    unfoldable pub collect : List (String × Bytes) → List DocumentState
    collect [] = []
    collect ((k, v) ∷ rest) = elim (p.unmarshal_state k) [
      | ok s ↦ s ∷ collect rest
      | err e ↦ []
      | panic ↦ []
    ]

    -- getPendingCRDTStatesForNode(nodeID)
    unfoldable pub get_pending : ℕ → World b.Tx → List DocumentState
    get_pending node w =
        if b.has_bucket w.tx (pending_bucket node)
        then collect (b.entries w.tx (pending_bucket node))
        else []

    -- queueCRDTStateForAllNodes(tableName, docId, m), for the nodes `js`: an error is only logged.
    unfoldable pub queue_for_nodes : List ℕ → DocumentState → World b.Tx → World b.Tx
    queue_for_nodes [] s w = w
    queue_for_nodes (j ∷ js) s w = queue_for_nodes js s (queue_pending j (s ∷ []) w).1

    unfoldable pub queue_for_all_nodes :
        ℕ → ℕ → ℕ → String → String → MergeableMap → World b.Tx → World b.Tx
    queue_for_all_nodes own base count table_name doc_id m w =
        queue_for_nodes (peers own base count)
          (record { table_name = table_name; doc_id = doc_id; map = map_to_pb m; is_retry = false })
          w

    -- What other goroutines of the node do to its store between the reading of the states and their
    -- flush, and during the call of MergeCRDTStates.
    module _ (meanwhile during : World b.Tx → World b.Tx) where
      sync_states :
          List ℕ
          → ℕ
          → Bool
          → List DocumentState
          → World b.Tx
          → (List DocumentState × List QueueRequest) × World b.Tx
      sync_states js node failed [] w = (([], []), w)
      sync_states js node failed (s ∷ ss) w =
          let called = during (flush_pending node (meanwhile w)).1 in
          if failed
          then (
            (s ∷ ss, retry_requests node (retries (s ∷ ss)) js),
            (queue_pending node (s ∷ ss) called).1,
          )
          else ((s ∷ ss, []), called)

      -- syncPendingCRDTStatesWithNode(nodeID): what is sent to the node, and the requests to the other
      -- nodes `js`, whose answers are not used. `failed` says whether the call of MergeCRDTStates at the
      -- node returned an error.
      unfoldable pub sync_with_node :
          List ℕ → ℕ → Bool → World b.Tx → (List DocumentState × List QueueRequest) × World b.Tx
      unfolding sync_states
      sync_with_node js node failed w = sync_states js node failed (get_pending node w) w
