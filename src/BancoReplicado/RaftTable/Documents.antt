-- ===== src/BancoReplicado/RaftTable/Documents.antt =====
-- What a client reads from a RaftTable after each operation.
use grupo.Prelude.{
  String, true, false, ◌≡◌, refl, ◌∙◌, Option-cases, inl, inr, Option, none, some, [], ◌∷◌, arith,
  eq_iff,
}
use grupo.Prelude.GoMap.{Distinct, GoMap, lookup, insert, has, lookup-insert}
use grupo.BancoReplicado.Exec.{Result, ok, err, panic, document_does_not_exist}
use grupo.BancoReplicado.Store.{Bolt, BoltLaws, Encoding, EncodingLaws}
use grupo.BancoReplicado.Transaction.{World, put_tx}
use grupo.BancoReplicado.CrdtTable.Contents.{first_of_two}
use grupo.BancoReplicado.RaftTable.{
  overlay, overlay_on, put_doc, existing_doc, patch_doc, delete_doc, get_doc,
}

lookup-overlay :
    (doc existing : GoMap String) (k : String)
    → Distinct doc
    → lookup k (overlay doc existing) ≡ first_of_two (lookup k doc) (lookup k existing)
unfolding overlay lookup has
lookup-overlay [] existing k d = refl
lookup-overlay ((j, v) ∷ doc) existing k d = ground (
  arith,
  lookup-overlay doc (insert j v existing) k d.1,
  lookup-insert j k v existing,
  eq_iff j k,
)

module _ {Bytes : Type 0} (b : Bolt Bytes) (j : Encoding Bytes) where
  -- A table that exists, whose store can read a document, other than null, encode one and take a write.
  pub record CanWrite (name doc_id : String) (w : World b.Tx) : Type 0 where
    pub exists : b.has_bucket w.tx name ≡ true
    pub readable :
        (v : Bytes)
        → b.get w.tx name doc_id ≡ some v
        → (d : GoMap String) × (j.unmarshal_doc v ≡ ok d)
    pub not_null : (v : Bytes) → b.get w.tx name doc_id ≡ some v → j.is_null v ≡ false
    pub encodes : (d : GoMap String) → (v : Bytes) × (j.marshal_doc d ≡ ok v)
    pub writes : (v : Bytes) → (t : b.Tx) × (b.put w.tx name doc_id v ≡ ok t)

  -- What a client reads of a document that may be missing.
  abbrev pub read_doc : Result (GoMap String) → String → Option String
  read_doc (ok d) k = lookup k d
  read_doc (err e) k = none
  read_doc panic k = none

  abbrev pub read_bytes : Option Bytes → String → Option String
  read_bytes none k = none
  read_bytes (some v) k = read_doc (j.unmarshal_doc v) k

  get_doc-put :
      (laws : BoltLaws b) (json : EncodingLaws j) (name doc_id : String) (w : World b.Tx)
      (d : GoMap String) (v : Bytes) (t : b.Tx)
      → b.has_bucket w.tx name ≡ true
      → j.marshal_doc d ≡ ok v
      → b.put w.tx name doc_id v ≡ ok t
      → (e : GoMap String) × (get_doc b j name doc_id (record w { tx = t })
          ≡ (ok e, record w { tx = t }))
        × ((k : String) → lookup k e ≡ lookup k d)
  unfolding get_doc
  get_doc-put laws json name doc_id w d v t h ev et =
      let (e, eu, same) = json.unmarshal_doc-marshal_doc d v ev in
      let there : b.has_bucket t name ≡ true =
        laws.has_bucket-put w.tx name doc_id v t et name ∙ h in
      let found : b.get t name doc_id ≡ some v =
        laws.get-put w.tx name doc_id v t et name doc_id
        ∙ rw ((eq_iff name name).1 refl, (eq_iff doc_id doc_id).1 refl) refl in
      (e, rw (there, found, eu) refl, same)

  -- Put and Patch of a table that exists, over a store that can read what it holds and takes the
  -- write: after Put a Get returns the keys and values of the body; Patch of a body with distinct keys
  -- returns for each key the body's value, or else the stored one, and Get then returns the same. What
  -- is stored before is not the text null.
  pub put_doc-patch_doc-get_doc :
      (laws : BoltLaws b) (json : EncodingLaws j) (name doc_id : String) (doc : GoMap String)
      (w : World b.Tx)
      → CanWrite name doc_id w
      → Distinct doc
      → ((w' : World b.Tx) × (d : GoMap String) × (put_doc b j name doc_id doc w ≡ (ok tt, w'))
          × (get_doc b j name doc_id w' ≡ (ok d, w'))
          × ((k : String) → lookup k d ≡ lookup k doc))
        × ((w' : World b.Tx) × (r d : GoMap String) × (patch_doc b j name doc_id doc w ≡ (ok r, w'))
            × (get_doc b j name doc_id w' ≡ (ok d, w'))
            × ((k : String)
                → lookup k r ≡ first_of_two (lookup k doc) (read_bytes (b.get w.tx name doc_id) k))
            × ((k : String) → lookup k d ≡ lookup k r))
  unfolding put_doc patch_doc put_tx existing_doc overlay_on lookup
  put_doc-patch_doc-get_doc laws json name doc_id doc w c d =
      let (v, ev) = c.encodes doc in
      let (t, et) = c.writes v in
      let (e, eg, same) = get_doc-put laws json name doc_id w doc v t c.exists ev et in
      (
        (record w { tx = t }, e, rw (c.exists, ev, et) refl, eg, same),
        elim (Option-cases (b.get w.tx name doc_id)) [
          | inl missing ↦
              let (v2, ev2) = c.encodes (overlay doc []) in
              let (t2, et2) = c.writes v2 in
              let (e2, eg2, same2) =
                get_doc-put laws json name doc_id w (overlay doc []) v2 t2 c.exists ev2 et2 in
              (
                record w { tx = t2 },
                overlay doc [],
                e2,
                rw (c.exists, missing, ev2, et2) refl,
                eg2,
                λ k. rw missing (lookup-overlay doc [] k d),
                same2,
              )
          | inr (old, found) ↦
              let (stored, eu) = c.readable old found in
              let (v2, ev2) = c.encodes (overlay doc stored) in
              let (t2, et2) = c.writes v2 in
              let (e2, eg2, same2) =
                get_doc-put laws json name doc_id w (overlay doc stored) v2 t2 c.exists ev2 et2 in
              (
                record w { tx = t2 },
                overlay doc stored,
                e2,
                rw (c.exists, found, eu, c.not_null old found, ev2, et2) refl,
                eg2,
                λ k. rw (found, eu) (lookup-overlay doc stored k d),
                same2,
              )
        ],
      )

  -- Patch of a document that is stored as null panics, unless the body is empty.
  patch_doc-null :
      (name doc_id : String) (k value : String) (doc : GoMap String) (w : World b.Tx) (v : Bytes)
      (d : GoMap String)
      → b.has_bucket w.tx name ≡ true
      → b.get w.tx name doc_id ≡ some v
      → j.unmarshal_doc v ≡ ok d
      → j.is_null v ≡ true
      → patch_doc b j name doc_id ((k, value) ∷ doc) w ≡ (panic, w)
  unfolding patch_doc existing_doc overlay_on
  patch_doc-null name doc_id k value doc w v d h g u null = rw (h, g, u, null) refl

  -- Delete of a stored document that can be read returns that document, when the store takes the
  -- deletion; Get and a second Delete then fail and change nothing.
  pub delete_doc-returns :
      (laws : BoltLaws b) (name doc_id : String) (w : World b.Tx) (v : Bytes) (d : GoMap String)
      (t : b.Tx)
      → b.has_bucket w.tx name ≡ true
      → b.get w.tx name doc_id ≡ some v
      → j.unmarshal_doc v ≡ ok d
      → b.delete w.tx name doc_id ≡ ok t
      → (delete_doc b j name doc_id w ≡ (ok d, record w { tx = t }))
        × (get_doc b j name doc_id (record w { tx = t })
            ≡ (err document_does_not_exist, record w { tx = t }))
        × (delete_doc b j name doc_id (record w { tx = t })
            ≡ (err document_does_not_exist, record w { tx = t }))
  unfolding delete_doc get_doc put_tx
  delete_doc-returns laws name doc_id w v d t h g u e =
      let there : b.has_bucket t name ≡ true =
        laws.has_bucket-delete w.tx name doc_id t e name ∙ h in
      let gone : b.get t name doc_id ≡ none =
        laws.get-delete w.tx name doc_id t e name doc_id
        ∙ rw ((eq_iff name name).1 refl, (eq_iff doc_id doc_id).1 refl) refl in
      (rw (h, g, e, u) refl, rw (there, gone) refl, rw (there, gone) refl)
