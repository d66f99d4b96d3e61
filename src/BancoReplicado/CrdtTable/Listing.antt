-- ===== src/BancoReplicado/CrdtTable/Listing.antt =====
-- What ForEach of a CrdtTable lists.
use text.Mathlib.Text.{starts_with}
use grupo.Crdt.MergeableMap.{MergeableMap}
use grupo.Prelude.{
  ℕ, String, true, ◌≡◌, refl, Option, none, some, List, [], ◌∷◌, if◌then◌else◌, inl, inr,
  Bool-cases, Option-cases,
}
use grupo.Prelude.GoMap.{GoMap, insert}
use grupo.BancoReplicado.Exec.{
  Result, ok, err, panic, ◌>>◌, and_then, pure, fail, document_does_not_exist,
}
use grupo.BancoReplicado.Store.{Bolt, Encoding}
use grupo.BancoReplicado.Transaction.{World, list_doc, collected, final_value}
use grupo.BancoReplicado.Transaction.Listing.{Reading, ended, fill, shown_for, returned}
use grupo.BancoReplicado.CrdtTable.{
  for_each_entry, for_each_doc, visit_map, get_doc, existing, values,
}

module _ {Bytes : Type 0} (b : Bolt Bytes) (j : Encoding Bytes) (node_id : ℕ) where
  -- The values of a document that is not deleted.
  abbrev document : MergeableMap → GoMap String
  document m = values m

  abbrev read_result : Result MergeableMap → Option (Option (GoMap String))
  read_result (ok m) = if m.deleted then some none else some (some (document m))
  read_result (err e) = none
  read_result panic = none

  abbrev pub read : Reading Bytes
  read v = read_result (j.unmarshal_map v)

  entry_listed :
      (doc_id : String) (r : Result MergeableMap) (es : List (String × Bytes)) (w : World b.Tx)
      (values : GoMap (GoMap String))
      → ((vs : GoMap (GoMap String))
          → final_value b (for_each_entry b j node_id (list_doc b) es (w, vs))
            ≡ (ended (fill read es vs), w))
      → final_value b (
          (visit_map b j node_id (list_doc b) doc_id r
              >> for_each_entry b j node_id (list_doc b) es)
            (w, values))
        ≡ (
          ended (elim (read_result r) [
            | none ↦ none
            | some none ↦ fill read es values
            | some (some d) ↦ fill read es (insert doc_id d values)
          ]),
          w,
        )
  unfolding visit_map values
  entry_listed doc_id (ok m) es w values ih = elim (Bool-cases m.deleted) [
    | inl h ↦ rw h (ih values)
    | inr h ↦ rw h (ih (insert doc_id (document m) values))
  ]
  entry_listed doc_id (err e) es w values ih = refl
  entry_listed doc_id panic es w values ih = refl

  entries_listed :
      (es : List (String × Bytes)) (w : World b.Tx) (values : GoMap (GoMap String))
      → final_value b (for_each_entry b j node_id (list_doc b) es (w, values))
        ≡ (ended (fill read es values), w)
  unfolding for_each_entry fill
  entries_listed [] w values = refl
  entries_listed ((doc_id, v) ∷ es) w values = elim (Bool-cases (starts_with doc_id "__")) [
    | inl h ↦ rw h (entries_listed es w values)
    | inr h ↦
        rw h (entry_listed doc_id (j.unmarshal_map v) es w values (λ vs. entries_listed es w vs))
  ]

  -- A listing is the bucket's entries, as far as they are read.
  pub for_each_doc-fill :
      (name : String) (w : World b.Tx)
      → b.has_bucket w.tx name ≡ true
      → collected b [] (for_each_doc b j node_id (list_doc b) name) w
        ≡ (ended (fill read (b.entries w.tx name) []), w)
  unfolding for_each_doc
  for_each_doc-fill name w h = rw h (entries_listed (b.entries w.tx name) w [])

  returned-read :
      (r : Result MergeableMap) (w : World b.Tx)
      → returned
          (and_then
            (and_then (r, w) (λ m. if m.deleted then fail document_does_not_exist else pure m))
            (λ m. pure (document m))).0
        ≡ elim (read_result r) [ none ↦ none | some d ↦ d ]
  returned-read (ok m) w = elim (Bool-cases m.deleted) [ inl h ↦ rw h refl | inr h ↦ rw h refl ]
  returned-read (err e) w = refl
  returned-read panic w = refl

  -- Get returns what a listing shows.
  pub get_doc-shown :
      (name doc_id : String) (w : World b.Tx)
      → b.has_bucket w.tx name ≡ true
      → returned (get_doc b j node_id name doc_id w).0 ≡ shown_for read (b.get w.tx name doc_id)
  unfolding get_doc existing
  get_doc-shown name doc_id w h = elim (Option-cases (b.get w.tx name doc_id)) [
    | inl e ↦ rw (h, e) refl
    | inr (v, e) ↦ rw (h, e) (returned-read (j.unmarshal_map v) w)
  ]
