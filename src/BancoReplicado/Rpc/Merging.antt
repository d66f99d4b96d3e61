-- ===== src/BancoReplicado/Rpc/Merging.antt =====
-- What a call of MergeCRDTStates does to the node that receives it.
use grupo.Prelude.GoMap.{GoMap, lookup}
use grupo.BancoReplicado.CrdtTable.Contents.{shown}
use grupo.Prelude.{
  ℕ, String, Bool-cases, inl, inr, true, false, ◌≡◌, refl, none, some, [], ◌∷◌, arith,
}
use grupo.Crdt.Hlc
use grupo.Crdt.MergeableMap.{MergeableMap}
use grupo.Crdt.MergeableMap.Cells.{cell, join, IsWellFormed}
use grupo.Crdt.Wire.{map_from_pb}
use grupo.BancoReplicado.Exec.{ok}
use grupo.BancoReplicado.Store.{Bolt, BoltLaws, Encoding, EncodingLaws}
use grupo.BancoReplicado.Transaction.{World}
use grupo.BancoReplicado.CrdtTable.{stored_or_new}
use grupo.BancoReplicado.CrdtTable.Documents.{Ready, Stored}
use grupo.BancoReplicado.CrdtTable.Updates.{merge_doc-joins}
use grupo.BancoReplicado.Database.{Table, raft_table, crdt_table, get_table}
use grupo.BancoReplicado.Replication.{DocumentState, rolled_back}
use grupo.BancoReplicado.Rpc.{
  MergeEvent, get_or_create, crdt_name, event_of, merge_state, merge_states, merge_crdt_states,
}
use grupo.BancoReplicado.Database

module _ {Bytes : Type 0} (b : Bolt Bytes) (j : Encoding Bytes) (node_id : ℕ) where
  -- A received state of a CRDT table is merged: when the store can read what it holds and takes the
  -- write, and both documents are well-formed, the call succeeds. The store then holds the encoding of
  -- a document which for each key, tombstones included, is the join of the stored and the received
  -- one, with the merged clock, and which is read again with the same clock, mark, keys and
  -- tombstones. One event is sent, which shows the document as clients see it, or none if it is marked
  -- deleted.
  pub merge_crdt_states-joins :
      (laws : BoltLaws b) (json : EncodingLaws j) (s : DocumentState) (name : String)
      (m : MergeableMap) (w : World b.Tx)
      → get_table b j node_id s.table_name w ≡ (ok (crdt_table name), w)
      → Ready b j node_id name s.doc_id w
      → stored_or_new b j node_id (b.get w.tx name s.doc_id) w ≡ (ok m, w)
      → IsWellFormed m
      → IsWellFormed (map_from_pb s.map)
      → (w' : World b.Tx) × (r : MergeableMap) × (e : MergeEvent) × (merge_crdt_states b j node_id
            false
            (s ∷ [])
            w
          ≡ (e ∷ [], (ok tt, w')))
        × IsWellFormed r
        × ((k : String) → cell r k ≡ join (cell m k) (cell (map_from_pb s.map) k))
        × (r.point ≡ Hlc.merge m.point (map_from_pb s.map).point)
        × Stored b j node_id name s.doc_id w w' r
        × (e.doc_id ≡ s.doc_id)
        × (r.deleted ≡ true → e.doc ≡ none)
        × (r.deleted ≡ false
            → (d : GoMap String) × (e.doc ≡ some d)
              × ((k : String) → lookup k d ≡ shown (lookup k r.map)))
  unfolding merge_crdt_states merge_states merge_state get_or_create crdt_name event_of rolled_back
      Database.get_doc
  merge_crdt_states-joins laws json s name m w g r base wm wr =
      let (w', d, e, formed, cells, clock, st, same) =
        merge_doc-joins b j node_id laws json name s.doc_id (map_from_pb s.map) m w r base wm wr in
      elim (Bool-cases d.deleted) [
        | inl gone ↦ (
          w',
          d,
          record { doc_id = s.doc_id; doc = none },
          rw (g, e, st.gone gone) refl,
          formed,
          cells,
          clock,
          st,
          refl,
          λ h. refl,
          λ h. absurd (ground arith),
        )
        | inr alive ↦
            let (shown_doc, eq, reads) = st.shows alive in
            (
              w',
              d,
              record { doc_id = s.doc_id; doc = some shown_doc },
              rw (g, e, eq) refl,
              formed,
              cells,
              clock,
              st,
              refl,
              λ h. absurd (ground arith),
              λ h. (shown_doc, refl, reads),
            )
      ]
