-- ===== src/BancoReplicado/CrdtTable/Updates.antt =====
-- Patch, Delete and Merge of a CRDT table, and what Get returns after them.
use grupo.Prelude.{
  ℕ, String, true, false, ◌≡◌, refl, ap, sym, ◌∙◌, Option, none, some, [], ◌∷◌, ◌++◌, Option-cases,
  inl, inr, arith,
}
use grupo.Prelude.Int.{pos}
use grupo.Prelude.GoMap.{Distinct, GoMap, lookup}
use grupo.Crdt.Hlc
use grupo.Crdt.MergeableMap.{MergeableMap, Readings, new_mergeable_map, set_deleted}
use grupo.Crdt.MergeableMap.Cells.{IsWellFormed, cell, join}
use grupo.Crdt.MergeableMap.Refines.{merge_refines_join}
use grupo.BancoReplicado.Exec.{ok, err, document_does_not_exist}
use grupo.BancoReplicado.Store.{Bolt, BoltLaws, Encoding, EncodingLaws}
use grupo.BancoReplicado.Transaction.{World, put_tx}
use grupo.BancoReplicado.CrdtTable.{
  put_all, values, revived, existing, patch_doc, delete_doc, get_doc, stored_or_new, merge_doc,
}
use grupo.BancoReplicado.CrdtTable.Contents.{
  shown, first_of_two, lookup-values, lookup-put_all, deleted-put_all, revive, bury,
}
use grupo.BancoReplicado.CrdtTable.Documents.{Ready, Stored, stored_view, store_map_lem, stored_lem}

module _ {Bytes : Type 0} (b : Bolt Bytes) (j : Encoding Bytes) (node_id : ℕ) where
  revived_lem :
      (found : Option Bytes) (w : World b.Tx)
      → ((v : Bytes) → found ≡ some v → (m : MergeableMap) × (j.unmarshal_map v ≡ ok m))
      → (m : MergeableMap) × (now : Readings) × (revived b j node_id found w
          ≡ (ok m, record w { readings = now }))
        × (m.deleted ≡ false)
        × ((k : String) → shown (lookup k m.map) ≡ stored_view b j node_id found k)
  unfolding revived new_mergeable_map lookup
  revived_lem none w r = (new_mergeable_map (pos node_id), w.readings, refl, refl, λ k. refl)
  revived_lem (some v) w r =
      let (m, u) = r v refl in
      let alive = revive w.readings m in
      (
        (set_deleted w.readings false m).0,
        (set_deleted w.readings false m).1,
        rw u,
        alive.0,
        λ k. rw u (alive.1 k),
      )

  -- Patch lays the body over the document: in a table that exists, over a store that can read what it
  -- holds and takes the write, Patch returns for each key the value of the body, whose keys are
  -- distinct, or else what a client saw before, which is nothing for a missing or deleted document;
  -- Get returns the same, the rest of the store stays, and one broadcast is started.
  pub patch_doc-get_doc :
      (laws : BoltLaws b) (json : EncodingLaws j) (name doc_id : String) (doc : GoMap String)
      (w : World b.Tx)
      → Ready b j node_id name doc_id w
      → Distinct doc
      → (w' : World b.Tx) × (m : MergeableMap) × (r d : GoMap String) × (patch_doc b j node_id name
            doc_id doc w
          ≡ (ok r, w'))
        × (get_doc b j node_id name doc_id w' ≡ (ok d, w'))
        × ((k : String)
            → lookup k r
              ≡ first_of_two (lookup k doc) (stored_view b j node_id (b.get w.tx name doc_id) k))
        × ((k : String) → lookup k d ≡ lookup k r)
        × Stored b j node_id name doc_id w w' m
        × (w'.broadcasts
            ≡ w.broadcasts ++ record { table_name = name; doc_id = doc_id; map = m } ∷ [])
  unfolding patch_doc put_tx
  patch_doc-get_doc laws json name doc_id doc w r d =
      let (m, now, em, alive, old) = revived_lem (b.get w.tx name doc_id) w r.readable in
      let (m2, now2) = put_all now doc m in
      let (t, v, es, ev, eg, eb, ef) =
        store_map_lem b j node_id laws name doc_id (record w { readings = now2 }) m2 r.encodes
          r.writes in
      let w' : World b.Tx = record {
        tx = t;
        readings = now2;
        broadcasts = w.broadcasts ++ record { table_name = name; doc_id = doc_id; map = m2 } ∷ [];
      } in
      let st = stored_lem b j node_id laws json name doc_id w w' m2 v r.exists ev eg eb ef in
      let back = st.shows (deleted-put_all now doc m alive) in
      (
        w',
        m2,
        values m2,
        back.0,
        rw (r.exists, em, ev, es),
        back.1,
        λ k. lookup-values m2 k ∙ (lookup-put_all now doc m k d ∙ rw (old k)),
        λ k. back.2 k ∙ sym (lookup-values m2 k),
        st,
        refl,
      )

  existing-alive :
      (name doc_id : String) (w : World b.Tx) (v : Bytes) (m : MergeableMap)
      → b.has_bucket w.tx name ≡ true
      → b.get w.tx name doc_id ≡ some v
      → j.unmarshal_map v ≡ ok m
      → m.deleted ≡ false
      → existing b j node_id name doc_id w ≡ (ok m, w)
  unfolding existing
  existing-alive name doc_id w v m h g u alive = rw (h, g, u, existing) (ground arith)

  -- Delete of a document that a client can see, over a store that takes the write, returns an empty
  -- document, and afterwards Get fails; the rest of the store stays, and one broadcast is started.
  pub delete_doc-get_doc :
      (laws : BoltLaws b) (json : EncodingLaws j) (name doc_id : String) (w : World b.Tx)
      (v : Bytes) (m : MergeableMap)
      → Ready b j node_id name doc_id w
      → b.get w.tx name doc_id ≡ some v
      → j.unmarshal_map v ≡ ok m
      → m.deleted ≡ false
      → (w' : World b.Tx) × (m' : MergeableMap) × (d : GoMap String) × (delete_doc b j node_id name
            doc_id w
          ≡ (ok d, w'))
        × ((k : String) → lookup k d ≡ none)
        × (get_doc b j node_id name doc_id w' ≡ (err document_does_not_exist, w'))
        × Stored b j node_id name doc_id w w' m'
        × (w'.broadcasts
            ≡ w.broadcasts ++ record { table_name = name; doc_id = doc_id; map = m' } ∷ [])
  unfolding delete_doc put_tx
  delete_doc-get_doc laws json name doc_id w v m r g u alive =
      let (m2, now2) = set_deleted w.readings true m in
      let dead = bury w.readings m alive in
      let (t, v2, es, ev, eg, eb, ef) =
        store_map_lem b j node_id laws name doc_id (record w { readings = now2 }) m2 r.encodes
          r.writes in
      let w' : World b.Tx = record {
        tx = t;
        readings = now2;
        broadcasts = w.broadcasts ++ record { table_name = name; doc_id = doc_id; map = m2 } ∷ [];
      } in
      let st = stored_lem b j node_id laws json name doc_id w w' m2 v2 r.exists ev eg eb ef in
      (
        w',
        m2,
        values m2,
        rw (existing-alive name doc_id w v m r.exists g u alive, ev, es),
        λ k. lookup-values m2 k ∙ ap shown (dead.1 k),
        st.gone dead.0,
        st,
        refl,
      )

  -- In a table that exists, Get and Delete of a missing or deleted document fail in the same way, and
  -- change nothing.
  pub missing_doc :
      (name doc_id : String) (w : World b.Tx)
      → b.has_bucket w.tx name ≡ true
      → ((v : Bytes)
          → b.get w.tx name doc_id ≡ some v
          → (m : MergeableMap) × (j.unmarshal_map v ≡ ok m) × (m.deleted ≡ true))
      → (get_doc b j node_id name doc_id w ≡ (err document_does_not_exist, w))
        × (delete_doc b j node_id name doc_id w ≡ (err document_does_not_exist, w))
  unfolding get_doc delete_doc existing
  missing_doc name doc_id w h gone = elim (Option-cases (b.get w.tx name doc_id)) [
    | inl none' ↦ (rw (h, none'), rw (h, none'))
    | inr (v, e) ↦ let (m, u, d) = gone v e in (rw (h, e, u, d), rw (h, e, u, d))
  ]

  -- A received state is merged into the stored document, or into a new one: in a table that exists,
  -- over a store that can read what it holds and takes the write, Merge of well-formed documents
  -- does not panic and makes a well-formed document whose every key, tombstones included, is the join
  -- of the two, and whose clock is the merged one. The store holds the encoding of this document, from
  -- which it is read again with the same clock, mark, keys and tombstones; the rest of the store
  -- stays, and nothing is broadcast.
  pub merge_doc-joins :
      (laws : BoltLaws b) (json : EncodingLaws j) (name doc_id : String) (received m : MergeableMap)
      (w : World b.Tx)
      → Ready b j node_id name doc_id w
      → stored_or_new b j node_id (b.get w.tx name doc_id) w ≡ (ok m, w)
      → IsWellFormed m
      → IsWellFormed received
      → (w' : World b.Tx) × (r : MergeableMap) × (merge_doc b j node_id name doc_id received w
          ≡ (ok tt, w'))
        × IsWellFormed r
        × ((k : String) → cell r k ≡ join (cell m k) (cell received k))
        × (r.point ≡ Hlc.merge m.point received.point)
        × Stored b j node_id name doc_id w w' r
        × (w'.broadcasts ≡ w.broadcasts)
  unfolding merge_doc put_tx
  merge_doc-joins laws json name doc_id received m w r base wm wr =
      let (merged, em, formed, cells, clock, _) = merge_refines_join m received wm wr in
      let (t, v, es, ev, eg, eb, ef) =
        store_map_lem b j node_id laws name doc_id w merged r.encodes r.writes in
      (
        record w { tx = t },
        merged,
        rw (r.exists, base, em, ev, es),
        formed,
        cells,
        clock,
        stored_lem b j node_id laws json name doc_id w (record w { tx = t }) merged v r.exists ev eg
            eb ef,
        refl,
      )
