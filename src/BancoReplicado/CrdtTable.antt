-- ===== src/BancoReplicado/CrdtTable.antt =====
-- BancoReplicado/crdt_table.go: the methods of CRDTTable, over one transaction.
pub mod Contents
pub mod Listing
pub mod Documents
pub mod Updates
use text.Mathlib.Text.{starts_with}
use grupo.Prelude.{
  ℕ, zero, String, Bool, true, false, Option, none, some, List, [], ◌∷◌, ◌++◌, not, if◌then◌else◌,
}
use grupo.Prelude.Int.{pos}
use grupo.Prelude.GoMap.{GoMap, keys, copy_with}
use grupo.Crdt.MergeableString.{MergeableString}
use grupo.Crdt.MergeableMap.{
  MergeableMap, Readings, later, new_mergeable_map, put, remove_all, set_deleted,
}
use grupo.Crdt.MergeableMap.Merge.{merge}
use grupo.BancoReplicado.Exec.{
  Error, Result, Exec, ok, err, panic, pure, lift, fail, require, table_does_not_exist,
  document_does_not_exist, ◌>>=◌, ◌>>◌,
}
use grupo.BancoReplicado.Store.{Bolt, Encoding}
use grupo.BancoReplicado.Transaction.{
  Broadcast, World, Action, open_bucket, get_bytes, put_bytes, Callback, beside,
}

abbrev Changed : Type 0
Changed = MergeableMap × Readings

-- for k, v := range doc { crdtDoc = crdtDoc.Put(k, v) }
unfoldable pub put_all : Readings → GoMap String → MergeableMap → Changed
put_all now [] m = (m, now)
put_all now ((k, v) ∷ doc) m = put_all (later now) doc (put (now zero) k v m)

-- for k, v := range crdtDoc.Map { doc[k] = v.Value }
unfoldable pub values : MergeableMap → GoMap String
values m = copy_with (λ (s : MergeableString). s.value) m.map

module _ {Bytes : Type 0} (b : Bolt Bytes) (j : Encoding Bytes) (node_id : ℕ) where
  -- A method of MergeableMap that reads the clock.
  abbrev pub clocked : (Readings → Changed) → Action b MergeableMap
  clocked f w = (ok (f w.readings).0, record w { readings = (f w.readings).1 })

  -- go t.Instance.queueCRDTStateForAllNodes(t.Name, docId, crdtDoc)
  abbrev pub broadcast : String → String → MergeableMap → Action b (Unit {0})
  broadcast name doc_id m w = (
    ok tt,
    record w {
      broadcasts = w.broadcasts ++ record { table_name = name; doc_id = doc_id; map = m } ∷ [];
    },
  )

  -- docBytes, err := json.Marshal(crdtDoc); bucket.Put(docId, docBytes)
  abbrev pub store_map : String → String → MergeableMap → Action b (Unit {0})
  store_map name doc_id m = do v ← lift (j.marshal_map m); put_bytes b name doc_id v

  -- The document that Put starts from: revived and emptied, or new.
  unfoldable pub emptied : Option Bytes → Action b MergeableMap
  emptied none = pure (new_mergeable_map (pos node_id))
  emptied (some v) = do
    m ← lift (j.unmarshal_map v)
    m2 ← clocked (λ now. set_deleted now false m)
    clocked (λ now. remove_all now (keys m2.map) m2)

  -- (t *CRDTTable) Put
  unfoldable pub put_doc : String → String → GoMap String → Action b (Unit {0})
  put_doc name doc_id doc = do
    open_bucket b name
    found ← get_bytes b name doc_id
    m ← emptied found
    m2 ← clocked (λ now. put_all now doc m)
    store_map name doc_id m2
    broadcast name doc_id m2

  unfoldable pub revived : Option Bytes → Action b MergeableMap
  revived none = pure (new_mergeable_map (pos node_id))
  revived (some v) = do m ← lift (j.unmarshal_map v); clocked (λ now. set_deleted now false m)

  -- (t *CRDTTable) Patch
  unfoldable pub patch_doc : String → String → GoMap String → Action b (GoMap String)
  patch_doc name doc_id doc = do
    open_bucket b name
    found ← get_bytes b name doc_id
    m ← revived found
    m2 ← clocked (λ now. put_all now doc m)
    store_map name doc_id m2
    broadcast name doc_id m2
    pure (values m2)

  -- The document of Delete and Get: stored, readable and not marked deleted.
  unfoldable pub existing : String → String → Action b MergeableMap
  existing name doc_id = do
    open_bucket b name
    found ← get_bytes b name doc_id
    v ← require found document_does_not_exist
    m ← lift (j.unmarshal_map v)
    if m.deleted then fail document_does_not_exist else pure m

  -- (t *CRDTTable) Delete
  unfoldable pub delete_doc : String → String → Action b (GoMap String)
  delete_doc name doc_id = do
    m ← existing name doc_id
    m2 ← clocked (λ now. set_deleted now true m)
    store_map name doc_id m2
    broadcast name doc_id m2
    pure (values m2)

  -- (t *CRDTTable) Get
  unfoldable pub get_doc : String → String → Action b (GoMap String)
  get_doc name doc_id = do m ← existing name doc_id; pure (values m)

  -- (t *CRDTTable) ForEach: an unreadable document panics, a deleted one is passed over.
  module _ {V : Type 0} (callback : String → GoMap String → Callback b V (Unit {0})) where
    visit_map : String → Result MergeableMap → Callback b V (Unit {0})
    visit_map doc_id (ok m) = if m.deleted then pure tt else callback doc_id (values m)
    visit_map doc_id (err e) = lift panic
    visit_map doc_id panic = lift panic

    for_each_entry : List (String × Bytes) → Callback b V (Unit {0})
    unfolding visit_map
    for_each_entry [] = pure tt
    for_each_entry ((doc_id, v) ∷ rest) =
        let others = for_each_entry rest in
        if starts_with doc_id "__" then others else (visit_map doc_id (j.unmarshal_map v) >> others)

    unfoldable pub for_each_doc : String → Callback b V (Unit {0})
    unfolding for_each_entry
    for_each_doc name =
        beside b (open_bucket b name) >> λ s. for_each_entry (b.entries s.0.tx name) s

  unfoldable pub stored_or_new : Option Bytes → Action b MergeableMap
  stored_or_new none = pure (new_mergeable_map (pos node_id))
  stored_or_new (some v) = lift (j.unmarshal_map v)

  abbrev pub merged : Option MergeableMap → Action b MergeableMap
  merged (some m) w = (ok m, w)
  merged none w = (panic, w)

  -- (t *CRDTTable) Merge: nothing is broadcast.
  unfoldable pub merge_doc : String → String → MergeableMap → Action b (Unit {0})
  merge_doc name doc_id received = do
    open_bucket b name
    found ← get_bytes b name doc_id
    m ← stored_or_new found
    m2 ← merged (merge m received)
    store_map name doc_id m2
