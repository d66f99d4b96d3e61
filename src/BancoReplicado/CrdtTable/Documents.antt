-- ===== src/BancoReplicado/CrdtTable/Documents.antt =====
-- What a client of a CRDT table reads after it has written.
use grupo.Prelude.{
  ℕ, String, true, false, ◌≡◌, refl, ap, ◌∙◌, Option, none, some, [], ◌∷◌, ◌++◌, ◌&&◌, arith,
  eq_iff, str_eq, if◌then◌else◌,
}
use grupo.Prelude.Int.{pos}
use grupo.Prelude.GoMap.{Distinct, GoMap, keys, lookup}
use grupo.Crdt.MergeableMap.{MergeableMap, Readings, new_mergeable_map, remove_all, set_deleted}
use grupo.Crdt.MergeableMap.Writes.{remove_all-empty}
use grupo.BancoReplicado.Exec.{Result, ok, err, panic, document_does_not_exist}
use grupo.BancoReplicado.Store.{Bolt, BoltLaws, SameMap, Encoding, EncodingLaws}
use grupo.BancoReplicado.Transaction.{World, put_tx}
use grupo.BancoReplicado.CrdtTable.{put_all, values, emptied, existing, put_doc, get_doc}
use grupo.BancoReplicado.CrdtTable.Contents.{
  shown, first_of-none, lookup-values, lookup-put_all, deleted-put_all, deleted-remove_all, revive,
}

module _ {Bytes : Type 0} (b : Bolt Bytes) (j : Encoding Bytes) (node_id : ℕ) where
  -- The table exists, a stored document can be read, a document can be encoded, and the store takes
  -- the write.
  pub record Ready (name doc_id : String) (w : World b.Tx) : Type 0 where
    pub exists : b.has_bucket w.tx name ≡ true
    pub readable :
        (v : Bytes)
        → b.get w.tx name doc_id ≡ some v
        → (m : MergeableMap) × (j.unmarshal_map v ≡ ok m)
    pub encodes : (m : MergeableMap) → (v : Bytes) × (j.marshal_map m ≡ ok v)
    pub writes : (v : Bytes) → (t : b.Tx) × (b.put w.tx name doc_id v ≡ ok t)

  -- What a document holds under a key for a client; nothing if it is missing or marked deleted.
  abbrev pub client_view : Result MergeableMap → String → Option String
  client_view (ok m) k = if m.deleted then none else shown (lookup k m.map)
  client_view (err e) k = none
  client_view panic k = none

  abbrev pub stored_view : Option Bytes → String → Option String
  stored_view none k = none
  stored_view (some v) k = client_view (j.unmarshal_map v) k

  -- What Get returns for a stored document.
  pub get_doc-stored :
      (name doc_id : String) (w : World b.Tx) (v : Bytes) (m : MergeableMap)
      → b.has_bucket w.tx name ≡ true
      → b.get w.tx name doc_id ≡ some v
      → j.unmarshal_map v ≡ ok m
      → get_doc b j node_id name doc_id w
        ≡ (if m.deleted then (err document_does_not_exist, w) else (ok (values m), w))
  unfolding get_doc existing
  get_doc-stored name doc_id w v m h g u = rw (h, g, u, get_doc) (ground arith)

  -- The document that Put starts from shows nothing and is not deleted.
  emptied_lem :
      (found : Option Bytes) (w : World b.Tx)
      → ((v : Bytes) → found ≡ some v → (m : MergeableMap) × (j.unmarshal_map v ≡ ok m))
      → (m : MergeableMap) × (now : Readings) × (emptied b j node_id found w
          ≡ (ok m, record w { readings = now }))
        × (m.deleted ≡ false)
        × ((k : String) → shown (lookup k m.map) ≡ none)
  unfolding emptied new_mergeable_map lookup
  emptied_lem none w r = (new_mergeable_map (pos node_id), w.readings, refl, refl, λ k. refl)
  emptied_lem (some v) w r =
      let (m, u) = r v refl in
      let alive = revive w.readings m in
      let (m2, now) = set_deleted w.readings false m in
      (
        (remove_all now (keys m2.map) m2).0,
        (remove_all now (keys m2.map) m2).1,
        rw u,
        deleted-remove_all now (keys m2.map) m2 alive.0,
        λ k. ap shown (remove_all-empty now m2 k),
      )

  -- Storing a document: what any key of any bucket holds afterwards.
  pub store_map_lem :
      (laws : BoltLaws b) (name doc_id : String) (w : World b.Tx) (m : MergeableMap)
      → ((m : MergeableMap) → (v : Bytes) × (j.marshal_map m ≡ ok v))
      → ((v : Bytes) → (t : b.Tx) × (b.put w.tx name doc_id v ≡ ok t))
      → (t : b.Tx) × (v : Bytes) × (b.put w.tx name doc_id v ≡ ok t)
        × (j.marshal_map m ≡ ok v)
        × (b.get t name doc_id ≡ some v)
        × ((n : String) → b.has_bucket t n ≡ b.has_bucket w.tx n)
        × ((n k : String)
            → (str_eq name n && str_eq doc_id k) ≡ false
            → b.get t n k ≡ b.get w.tx n k)
  store_map_lem laws name doc_id w m enc wr =
      let (v, ev) = enc m in
      let (t, et) = wr v in
      (
        t,
        v,
        et,
        ev,
        (laws.get-put w.tx name doc_id v t et name doc_id
            ∙ ground (arith, eq_iff name name, eq_iff doc_id doc_id)),
        laws.has_bucket-put w.tx name doc_id v t et,
        λ n k e. laws.get-put w.tx name doc_id v t et n k ∙ rw e,
      )

  -- The outcome of a method that stored a document: the store holds its encoding, from which the
  -- same document is read again, with its clock, its mark, its keys and its tombstones; what Get
  -- returns for it; and that the rest of the store is as it was.
  pub record Stored (name doc_id : String) (w w' : World b.Tx) (m : MergeableMap) : Type 0 where
    pub bytes : (v : Bytes) × (j.marshal_map m ≡ ok v) × (b.get w'.tx name doc_id ≡ some v)
    pub reread :
        (v : Bytes) × (o : MergeableMap) × (b.get w'.tx name doc_id ≡ some v)
        × (j.unmarshal_map v ≡ ok o)
        × SameMap m o
    pub shows :
        m.deleted ≡ false
        → (d : GoMap String) × (get_doc b j node_id name doc_id w' ≡ (ok d, w'))
          × ((k : String) → lookup k d ≡ shown (lookup k m.map))
    pub gone :
        m.deleted ≡ true → get_doc b j node_id name doc_id w' ≡ (err document_does_not_exist, w')
    pub frame :
        (n k : String)
        → (str_eq name n && str_eq doc_id k) ≡ false
        → b.get w'.tx n k ≡ b.get w.tx n k
    pub tables : (n : String) → b.has_bucket w'.tx n ≡ b.has_bucket w.tx n

  pub stored_lem :
      (laws : BoltLaws b) (json : EncodingLaws j) (name doc_id : String) (w w' : World b.Tx)
      (m : MergeableMap) (v : Bytes)
      → b.has_bucket w.tx name ≡ true
      → j.marshal_map m ≡ ok v
      → b.get w'.tx name doc_id ≡ some v
      → ((n : String) → b.has_bucket w'.tx n ≡ b.has_bucket w.tx n)
      → ((n k : String)
          → (str_eq name n && str_eq doc_id k) ≡ false
          → b.get w'.tx n k ≡ b.get w.tx n k)
      → Stored name doc_id w w' m
  stored_lem laws json name doc_id w w' m v h e g hb fr =
      let (o, u, same) = json.unmarshal_map-marshal_map m v e in
      let read_back = get_doc-stored name doc_id w' v o (hb name ∙ h) g u in
      record {
        bytes = (v, e, g);
        reread = (v, o, g, u, same);
        shows = λ alive. (
          values o,
          read_back ∙ rw (same.deleted, alive),
          λ k. lookup-values o k ∙ ap shown (same.map k),
        );
        gone = λ dead. read_back ∙ rw (same.deleted, dead);
        frame = fr;
        tables = hb;
      }

  -- Put replaces a document: in a table that exists, over a store that can read what it holds and
  -- takes the write, whatever was stored before, deleted or not, Get returns exactly the keys and
  -- values of the body, whose keys are distinct. The rest of the store stays as it was, and one
  -- broadcast of the new state is started.
  pub put_doc-get_doc :
      (laws : BoltLaws b) (json : EncodingLaws j) (name doc_id : String) (doc : GoMap String)
      (w : World b.Tx)
      → Ready name doc_id w
      → Distinct doc
      → (w' : World b.Tx) × (m : MergeableMap) × (put_doc b j node_id name doc_id doc w
          ≡ (ok tt, w'))
        × ((d : GoMap String) × (get_doc b j node_id name doc_id w' ≡ (ok d, w'))
            × ((k : String) → lookup k d ≡ lookup k doc))
        × Stored name doc_id w w' m
        × (w'.broadcasts
            ≡ w.broadcasts ++ record { table_name = name; doc_id = doc_id; map = m } ∷ [])
  unfolding put_doc put_tx
  put_doc-get_doc laws json name doc_id doc w r d =
      let (m, now, em, alive, nothing) = emptied_lem (b.get w.tx name doc_id) w r.readable in
      let (m2, now2) = put_all now doc m in
      let (t, v, es, ev, eg, eb, ef) =
        store_map_lem laws name doc_id (record w { readings = now2 }) m2 r.encodes r.writes in
      let w' : World b.Tx = record {
        tx = t;
        readings = now2;
        broadcasts = w.broadcasts ++ record { table_name = name; doc_id = doc_id; map = m2 } ∷ [];
      } in
      let st = stored_lem laws json name doc_id w w' m2 v r.exists ev eg eb ef in
      let shown2 = st.shows (deleted-put_all now doc m alive) in
      (
        w',
        m2,
        rw (r.exists, em, ev, es),
        (
          shown2.0,
          shown2.1,
          λ k.
              shown2.2 k
              ∙ (lookup-put_all now doc m k d ∙ rw (nothing k) (first_of-none (lookup k doc))),
        ),
        st,
        refl,
      )
