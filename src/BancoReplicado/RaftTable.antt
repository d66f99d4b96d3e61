-- ===== src/BancoReplicado/RaftTable.antt =====
-- BancoReplicado/raft_table.go: the methods of RaftTable, over one transaction. The document that Put
-- and Patch are given is not nil.
pub mod Documents
pub mod Listing
use text.Mathlib.Text.{starts_with}
use grupo.Prelude.{String, Option, none, some, List, [], ◌∷◌, if◌then◌else◌}
use grupo.Prelude.GoMap.{GoMap, insert}
use grupo.BancoReplicado.Exec.{
  Result, ok, err, panic, pure, lift, require, document_does_not_exist, ◌>>=◌, ◌>>◌,
}
use grupo.BancoReplicado.Store.{Bolt, Encoding}
use grupo.BancoReplicado.Transaction.{
  Action, open_bucket, get_bytes, put_bytes, delete_bytes, Callback, beside,
}

-- for k, v := range doc { existingDoc[k] = v }
unfoldable pub overlay : GoMap String → GoMap String → GoMap String
overlay [] existing = existing
overlay ((k, v) ∷ doc) existing = overlay doc (insert k v existing)

-- The loop on a map that may be nil: a write to a nil map panics.
unfoldable pub overlay_on : GoMap String → Option (GoMap String) → Result (Option (GoMap String))
overlay_on doc (some existing) = ok (some (overlay doc existing))
overlay_on [] none = ok none
overlay_on (entry ∷ doc) none = panic

-- A nil map holds nothing.
abbrev or_empty : Option (GoMap String) → GoMap String
or_empty none = []
or_empty (some existing) = existing

module _ {Bytes : Type 0} (b : Bolt Bytes) (j : Encoding Bytes) where
  -- value, err := json.Marshal(doc); bucket.Put(docId, value)
  abbrev pub store_doc : String → String → GoMap String → Action b (Unit {0})
  store_doc name doc_id doc = do v ← lift (j.marshal_doc doc); put_bytes b name doc_id v

  -- (t *RaftTable) Put
  unfoldable pub put_doc : String → String → GoMap String → Action b (Unit {0})
  put_doc name doc_id doc = do open_bucket b name; store_doc name doc_id doc

  -- What Patch finds; `none` is a nil map, which a stored null is unmarshalled to.
  unfoldable pub existing_doc : Option Bytes → Action b (Option (GoMap String))
  existing_doc none = pure (some [])
  existing_doc (some v) = do
    existing ← lift (j.unmarshal_doc v)
    pure (if j.is_null v then none else some existing)

  store_existing : String → String → Option (GoMap String) → Action b (Unit {0})
  store_existing name doc_id none = put_bytes b name doc_id j.null_doc
  store_existing name doc_id (some existing) = store_doc name doc_id existing

  -- (t *RaftTable) Patch
  unfoldable pub patch_doc : String → String → GoMap String → Action b (GoMap String)
  unfolding store_existing
  patch_doc name doc_id doc = do
    open_bucket b name
    found ← get_bytes b name doc_id
    existing ← existing_doc found
    patched ← lift (overlay_on doc existing)
    store_existing name doc_id patched
    pure (or_empty patched)

  -- (t *RaftTable) Delete: the document goes before it is read.
  unfoldable pub delete_doc : String → String → Action b (GoMap String)
  delete_doc name doc_id = do
    open_bucket b name
    found ← get_bytes b name doc_id
    v ← require found document_does_not_exist
    delete_bytes b name doc_id
    lift (j.unmarshal_doc v)

  -- (t *RaftTable) Get
  unfoldable pub get_doc : String → String → Action b (GoMap String)
  get_doc name doc_id = do
    open_bucket b name
    found ← get_bytes b name doc_id
    v ← require found document_does_not_exist
    lift (j.unmarshal_doc v)

  -- (t *RaftTable) ForEach: an unreadable document panics.
  module _ {V : Type 0} (callback : String → GoMap String → Callback b V (Unit {0})) where
    visit_doc : String → Result (GoMap String) → Callback b V (Unit {0})
    visit_doc doc_id (ok doc) = callback doc_id doc
    visit_doc doc_id (err e) = lift panic
    visit_doc doc_id panic = lift panic

    for_each_entry : List (String × Bytes) → Callback b V (Unit {0})
    unfolding visit_doc
    for_each_entry [] = pure tt
    for_each_entry ((doc_id, v) ∷ rest) =
        let others = for_each_entry rest in
        if starts_with doc_id "__" then others else (visit_doc doc_id (j.unmarshal_doc v) >> others)

    unfoldable pub for_each_doc : String → Callback b V (Unit {0})
    unfolding for_each_entry
    for_each_doc name =
        beside b (open_bucket b name) >> λ s. for_each_entry (b.entries s.0.tx name) s
