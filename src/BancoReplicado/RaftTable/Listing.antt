-- ===== src/BancoReplicado/RaftTable/Listing.antt =====
-- What ForEach of a RaftTable lists.
use text.Mathlib.Text.{starts_with}
use grupo.Prelude.{
  String, true, ◌≡◌, refl, Option, none, some, List, [], ◌∷◌, inl, inr, Bool-cases, Option-cases,
}
use grupo.Prelude.GoMap.{GoMap, insert}
use grupo.BancoReplicado.Exec.{Result, ok, err, panic, ◌>>◌}
use grupo.BancoReplicado.Store.{Bolt, Encoding}
use grupo.BancoReplicado.Transaction.{World, list_doc, collected, final_value}
use grupo.BancoReplicado.Transaction.Listing.{Reading, ended, fill, shown_for, returned}
use grupo.BancoReplicado.RaftTable.{for_each_entry, for_each_doc, visit_doc, get_doc}

module _ {Bytes : Type 0} (b : Bolt Bytes) (j : Encoding Bytes) where
  abbrev read_result : Result (GoMap String) → Option (Option (GoMap String))
  read_result (ok d) = some (some d)
  read_result (err e) = none
  read_result panic = none

  abbrev pub read : Reading Bytes
  read v = read_result (j.unmarshal_doc v)

  entry_listed :
      (doc_id : String) (r : Result (GoMap String)) (es : List (String × Bytes)) (w : World b.Tx)
      (values : GoMap (GoMap String))
      → ((vs : GoMap (GoMap String))
          → final_value b (for_each_entry b j (list_doc b) es (w, vs))
            ≡ (ended (fill read es vs), w))
      → final_value b
          ((visit_doc b j (list_doc b) doc_id r >> for_each_entry b j (list_doc b) es) (w, values))
        ≡ (
          ended (elim (read_result r) [
            | none ↦ none
            | some none ↦ fill read es values
            | some (some d) ↦ fill read es (insert doc_id d values)
          ]),
          w,
        )
  unfolding visit_doc
  entry_listed doc_id (ok d) es w values ih = ih (insert doc_id d values)
  entry_listed doc_id (err e) es w values ih = refl
  entry_listed doc_id panic es w values ih = refl

  entries_listed :
      (es : List (String × Bytes)) (w : World b.Tx) (values : GoMap (GoMap String))
      → final_value b (for_each_entry b j (list_doc b) es (w, values))
        ≡ (ended (fill read es values), w)
  unfolding for_each_entry fill
  entries_listed [] w values = refl
  entries_listed ((doc_id, v) ∷ es) w values = elim (Bool-cases (starts_with doc_id "__")) [
    | inl h ↦ rw h (entries_listed es w values)
    | inr h ↦
        rw h (entry_listed doc_id (j.unmarshal_doc v) es w values (λ vs. entries_listed es w vs))
  ]

  -- A listing is the bucket's entries, as far as they are read.
  pub for_each_doc-fill :
      (name : String) (w : World b.Tx)
      → b.has_bucket w.tx name ≡ true
      → collected b [] (for_each_doc b j (list_doc b) name) w
        ≡ (ended (fill read (b.entries w.tx name) []), w)
  unfolding for_each_doc
  for_each_doc-fill name w h = rw h (entries_listed (b.entries w.tx name) w [])

  returned-read :
      (r : Result (GoMap String)) → returned r ≡ elim (read_result r) [ none ↦ none | some d ↦ d ]
  returned-read (ok d) = refl
  returned-read (err e) = refl
  returned-read panic = refl

  -- Get returns what a listing shows.
  pub get_doc-shown :
      (name doc_id : String) (w : World b.Tx)
      → b.has_bucket w.tx name ≡ true
      → returned (get_doc b j name doc_id w).0 ≡ shown_for read (b.get w.tx name doc_id)
  unfolding get_doc
  get_doc-shown name doc_id w h = elim (Option-cases (b.get w.tx name doc_id)) [
    | inl e ↦ rw (h, e) refl
    | inr (v, e) ↦ rw (h, e) (returned-read (j.unmarshal_doc v))
  ]
