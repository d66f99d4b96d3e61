-- ===== src/BancoReplicado/Replication/Pending.antt =====
-- No state that waits for a node is lost, whatever becomes of the call.
use grupo.Prelude.{
  ℕ, String, true, false, ◌≡◌, refl, ap, sym, ◌∙◌, Bool-cases, inl, inr, some, List, [], ◌∷◌, All,
  arith, eq_iff,
}
use mathlib.Core.Path.{subst}
use grupo.Crdt.Wire.{map_to_pb}
use grupo.Crdt.MergeableMap.{MergeableMap}
use grupo.BancoReplicado.Exec.{Result, ok}
use grupo.BancoReplicado.Store.{Bolt, BoltLaws}
use grupo.BancoReplicado.Transaction.{World, put_tx}
use grupo.BancoReplicado.Replication.{
  DocumentState, Protobuf, pending_bucket, peers, rolled_back, open_tx, create_if_missing,
  put_states, queue_pending, queue_for_nodes, queue_for_all_nodes,
}

module _ {Bytes : Type 0} (b : Bolt Bytes) (p : Protobuf Bytes) where
  -- A state stands in a bucket, under its bytes.
  abbrev pub Kept : String → World b.Tx → DocumentState → Type 0
  Kept n w s = (k : String) × (p.marshal_state s ≡ ok k) × (b.get w.tx n k ≡ some p.no_bytes)

  -- A state can be encoded, and a bucket takes its bytes as a key.
  abbrev pub Queueable : String → DocumentState → Type 0
  Queueable n s =
      (k : String) × (p.marshal_state s ≡ ok k)
      × ((t : b.Tx) → b.has_bucket t n ≡ true → (t' : b.Tx) × (b.put t n k p.no_bytes ≡ ok t'))

  -- The store can create the bucket whenever it is missing.
  abbrev pub Creatable : String → Type 0
  Creatable n = (t : b.Tx) → b.has_bucket t n ≡ false → (t' : b.Tx) × (b.create_bucket t n ≡ ok t')

  -- Every key that holds the empty value still does.
  abbrev Stays : World b.Tx → World b.Tx → Type 0
  Stays w w' = (m k : String) → b.get w.tx m k ≡ some p.no_bytes → b.get w'.tx m k ≡ some p.no_bytes

  put_states_lem :
      (laws : BoltLaws b) (n : String) (ss : List DocumentState) (w : World b.Tx)
      → b.has_bucket w.tx n ≡ true
      → All (Queueable n) ss
      → (w' : World b.Tx) × (put_states b p n ss w ≡ (ok tt, w'))
        × All (Kept n w') ss
        × Stays w w'
        × (w'.broadcasts ≡ w.broadcasts)
  unfolding put_states put_tx
  put_states_lem laws n [] w h q = (w, refl, tt, λ m k e. e, refl)
  put_states_lem laws n (s ∷ ss) w h q =
      let (k, ek, writes) = q.0 in
      let (t, et) = writes w.tx h in
      let (w', e, kept, stays, same) =
        put_states_lem laws n ss (record w { tx = t })
          (laws.has_bucket-put w.tx n k p.no_bytes t et n ∙ h) q.1 in
      (
        w',
        rw (ek, et) e,
        (
          (
            k,
            ek,
            stays n k (
                laws.get-put w.tx n k p.no_bytes t et n k
                ∙ rw ((eq_iff n n).1 refl, (eq_iff k k).1 refl) refl),
          ),
          kept,
        ),
        λ m i f. stays m i (laws.get-put w.tx n k p.no_bytes t et m i ∙ ground arith),
        same,
      )

  queue_pending_lem :
      (laws : BoltLaws b) (dest : ℕ) (ss : List DocumentState) (w : World b.Tx)
      → Creatable (pending_bucket dest)
      → All (Queueable (pending_bucket dest)) ss
      → (w' : World b.Tx) × (queue_pending b p dest ss w ≡ (ok tt, w'))
        × All (Kept (pending_bucket dest) w') ss
        × Stays w w'
        × (w'.broadcasts ≡ w.broadcasts)
  unfolding queue_pending open_tx rolled_back create_if_missing put_tx
  queue_pending_lem laws dest ss w c q =
      elim (Bool-cases (b.has_bucket w.tx (pending_bucket dest))) [
        | inl h ↦
            let (w', e, kept, stays, same) = put_states_lem laws (pending_bucket dest) ss w h q in
            (w', rw (h, e), kept, stays, same)
        | inr h ↦
            let (t, et) = c w.tx h in
            let there : b.has_bucket t (pending_bucket dest) ≡ true =
              laws.has_bucket-create_bucket w.tx (pending_bucket dest) t et (pending_bucket dest)
              ∙ rw ((eq_iff (pending_bucket dest) (pending_bucket dest)).1 refl) refl in
            let (w', e, kept, stays, same) =
              put_states_lem laws (pending_bucket dest) ss (record w { tx = t }) there q in
            (
              w',
              rw (h, et, e),
              kept,
              λ m k f. stays m k (laws.get-create_bucket w.tx (pending_bucket dest) t et m k ∙ f),
              same,
            )
      ]

  Stays-Kept :
      (n : String) (w w' : World b.Tx) (ss : List DocumentState)
      → Stays w w'
      → All (Kept n w) ss
      → All (Kept n w') ss
  Stays-Kept n w w' [] h a = tt
  Stays-Kept n w w' (s ∷ ss) h a =
      let (k, e, g) = a.0 in ((k, e, h n k g), Stays-Kept n w w' ss h a.1)

  -- What QueuePendingCRDTStates leaves for each of the nodes.
  abbrev pub KeptFor : World b.Tx → DocumentState → ℕ → Type 0
  KeptFor w s j = Kept (pending_bucket j) w s

  Stays-KeptFor :
      (s : DocumentState) (w w' : World b.Tx) (j : ℕ) → Stays w w' → KeptFor w s j → KeptFor w' s j
  Stays-KeptFor s w w' j h a = let (k, e, g) = a in (k, e, h (pending_bucket j) k g)

  queue_for_nodes_lem :
      (laws : BoltLaws b) (js : List ℕ) (s : DocumentState) (w : World b.Tx)
      → All (λ j. Creatable (pending_bucket j)) js
      → All (λ j. Queueable (pending_bucket j) s) js
      → All (KeptFor (queue_for_nodes b p js s w) s) js
        × Stays w (queue_for_nodes b p js s w)
        × ((queue_for_nodes b p js s w).broadcasts ≡ w.broadcasts)
  unfolding queue_for_nodes
  queue_for_nodes_lem laws [] s w c q = (tt, λ m k e. e, refl)
  queue_for_nodes_lem laws (j ∷ js) s w c q =
      let (w', e, kept, stays, same) = queue_pending_lem laws j (s ∷ []) w c.0 (q.0, tt) in
      let (rest, stays', same') = queue_for_nodes_lem laws js s w' c.1 q.1 in
      let step : queue_for_nodes b p (j ∷ js) s w ≡ queue_for_nodes b p js s w' =
        ap (λ (r : Result (Unit {0}) × World b.Tx). queue_for_nodes b p js s r.1) e in
      subst
        (λ (z : World b.Tx). All (KeptFor z s) (j ∷ js) × Stays w z × (z.broadcasts ≡ w.broadcasts))
        (sym step)
        (
          (Stays-KeptFor s w' (queue_for_nodes b p js s w') j stays' kept.0, rest),
          λ m k f. stays' m k (stays m k f),
          same' ∙ same,
        )

  -- queueCRDTStateForAllNodes leaves the state of the document in the bucket of every other node, and
  -- loses nothing that waited before, when the store can create the buckets that are missing and
  -- takes the state as a key.
  pub queue_for_all_nodes-Kept :
      (laws : BoltLaws b) (own base count : ℕ) (table_name doc_id : String) (m : MergeableMap)
      (w : World b.Tx)
      → All (λ j. Creatable (pending_bucket j)) (peers own base count)
      → All
          (λ j. Queueable (pending_bucket j) (record {
            table_name = table_name;
            doc_id = doc_id;
            map = map_to_pb m;
            is_retry = false;
          }))
          (peers own base count)
      → All
          (KeptFor (queue_for_all_nodes b p own base count table_name doc_id m w) (record {
            table_name = table_name;
            doc_id = doc_id;
            map = map_to_pb m;
            is_retry = false;
          }))
          (peers own base count)
        × ((n k : String)
            → b.get w.tx n k ≡ some p.no_bytes
            → b.get (queue_for_all_nodes b p own base count table_name doc_id m w).tx n k
              ≡ some p.no_bytes)
        × ((queue_for_all_nodes b p own base count table_name doc_id m w).broadcasts ≡ w.broadcasts)
  unfolding queue_for_all_nodes
  queue_for_all_nodes-Kept laws own base count table_name doc_id m w c q =
      queue_for_nodes_lem laws (peers own base count)
        (record { table_name = table_name; doc_id = doc_id; map = map_to_pb m; is_retry = false }) w
        c q

  -- Other goroutines leave what is queued in the bucket, or in any bucket, where it is.
  abbrev pub Leaves : (World b.Tx → World b.Tx) → Type 0
  Leaves f = (w : World b.Tx) → Stays w (f w)
