-- ===== src/BancoReplicado/Http/Listing.antt =====
-- What the listing of a table shows.
use text.Mathlib.Text.{starts_with}
use Prim.Native.String.{◌++◌ as append}
use grupo.Prelude.{
  ℕ, String, Bool, true, false, ◌≡◌, ◌⊎◌, refl, sym, ap, ◌∙◌, arith, Option, none, some, [], ◌==◌,
  inl, inr, Bool-cases, Option-cases,
}
use grupo.Prelude.GoMap.{GoMap, lookup}
use grupo.BancoReplicado.Exec.{Error, Result, ok, err, panic, table_does_not_exist}
use grupo.BancoReplicado.Store.{Bolt, Encoding, Visits}
use grupo.BancoReplicado.Transaction.{World, list_doc, collected}
use grupo.BancoReplicado.Transaction.Listing.{
  Reading, ended, fill, lookup-fill, shown_for, returned,
}
use grupo.BancoReplicado.RaftTable.Listing as Raft
use grupo.BancoReplicado.CrdtTable.Listing as Crdt
use grupo.BancoReplicado.Database
use grupo.BancoReplicado.Database.{
  Table, raft_table, crdt_table, table_of, consistency, consistency_key,
}
use grupo.BancoReplicado.Replication.{open_tx, rolled_back}
use grupo.BancoReplicado.Instance.{Instance}
use grupo.BancoReplicado.Http.{
  Response, empty_body, recovered, json_body, table_body, db_body, server_error, error_text, serve,
  get_doc, get_table, finish, handle_get_doc, handle_get_table,
}

-- The document of an answer.
abbrev pub answered : Response → Option (GoMap String)
answered empty_body = none
answered recovered = none
answered (json_body d) = some d
answered (table_body t) = none
answered (db_body t) = none
answered (server_error e) = none

module _ {Bytes : Type 0} (b : Bolt Bytes) (j : Encoding Bytes) (node_id : ℕ) where
  abbrev read : Bool → Reading Bytes
  read true = Raft.read b j
  read false = Crdt.read b j node_id

  get_table-cases :
      (name : String) (w : World b.Tx)
      → ((c : Bool) × (b.has_bucket w.tx name ≡ true)
          × (Database.get_table b j node_id name w ≡ (ok (table_of c name), w)))
        ⊎ ((e : Error) × (Database.get_table b j node_id name w ≡ (err e, w)))
        ⊎ (Database.get_table b j node_id name w ≡ (panic, w))
  unfolding Database.get_table consistency
  get_table-cases name w = elim (Bool-cases (b.has_bucket w.tx name)) [
    | inr h ↦ inr (inl (table_does_not_exist, rw h refl))
    | inl h ↦ elim (Option-cases (b.get w.tx name consistency_key)) [
      | inl e ↦ inr (inr (rw (h, e) refl))
      | inr (v, e) ↦ elim (Option-cases (j.to_byte v)) [
        | inl k ↦ inr (inr (rw (h, e, k, consistency) refl))
        | inr (c, k) ↦ inl ((c == 1), h, rw (h, e, k, consistency) refl)
      ]
    ]
  ]

  for_each_doc-fill :
      (c : Bool) (name : String) (w : World b.Tx)
      → b.has_bucket w.tx name ≡ true
      → collected b [] (Database.for_each_doc b j node_id (list_doc b) (table_of c name)) w
        ≡ (ended (fill (read c) (b.entries w.tx name) []), w)
  unfolding Database.for_each_doc
  for_each_doc-fill true name w h = Raft.for_each_doc-fill b j name w h
  for_each_doc-fill false name w h = Crdt.for_each_doc-fill b j node_id name w h

  get_doc-shown :
      (c : Bool) (name doc_id : String) (w : World b.Tx)
      → b.has_bucket w.tx name ≡ true
      → returned (Database.get_doc b j node_id (table_of c name) doc_id w).0
        ≡ shown_for (read c) (b.get w.tx name doc_id)
  unfolding Database.get_doc
  get_doc-shown true name doc_id w h = Raft.get_doc-shown b j name doc_id w h
  get_doc-shown false name doc_id w h = Crdt.get_doc-shown b j node_id name doc_id w h

module _ {Bytes : Type 0} (b : Bolt Bytes) (j : Encoding Bytes) where
  listing_answer : Result (GoMap (GoMap String)) → World b.Tx → Instance b.Tx → Response
  listing_answer r w n =
      (finish b j
        (record {
          answer = table_body;
          event = λ d. [];
          failure = λ e. append "failed to get table documents: " (error_text e);
        })
        n (rolled_back b n.world.tx (r, w))).0

  listing_filled :
      (name : String) (n : Instance b.Tx) (values : GoMap (GoMap String))
      → n.offline ≡ false
      → (serve b j (get_table name) n).0 ≡ table_body values
      → (c : Bool) × (b.has_bucket n.world.tx name ≡ true)
        × (Database.get_table b j n.node_id name n.world ≡ (ok (table_of c name), n.world))
        × (fill (read b j n.node_id c) (b.entries n.world.tx name) [] ≡ some values)
  unfolding serve handle_get_table open_tx listing_answer finish rolled_back
  listing_filled name n values on e = elim (get_table-cases b j n.node_id name n.world) [
    | inl (c, h, t) ↦
        let shown = fill (read b j n.node_id c) (b.entries n.world.tx name) [] in
        let s : (serve b j (get_table name) n).0 ≡ listing_answer (ended shown) n.world n =
          rw (on, t, for_each_doc-fill b j n.node_id c name n.world h) refl in
        elim (Option-cases shown) [
          | inl k ↦ absurd (ground (arith, sym s ∙ e, k))
          | inr (vs, k) ↦ (c, h, t, ground (arith, sym s ∙ e, k))
        ]
    | inr (inl (x, t)) ↦
        let s : (serve b j (get_table name) n).0 ≡ listing_answer (err x) n.world n =
          rw (on, t) refl in
        absurd (ground (arith, sym s ∙ e))
    | inr (inr t) ↦
        let s : (serve b j (get_table name) n).0 ≡ listing_answer panic n.world n =
          rw (on, t) refl in
        absurd (ground (arith, sym s ∙ e))
  ]

  document_answer : Result (GoMap String) × World b.Tx → Instance b.Tx → Response
  document_answer r n =
      (finish b j
        (record { answer = json_body; event = λ d. []; failure = λ e. "document does not exist" }) n
        (rolled_back b n.world.tx r)).0

  answered-returned :
      (r : Result (GoMap String) × World b.Tx) (n : Instance b.Tx)
      → answered (document_answer r n) ≡ returned r.0
  unfolding document_answer finish rolled_back
  answered-returned (ok d, w) n = refl
  answered-returned (err e, w) n = refl
  answered-returned (panic, w) n = refl

  document_shown :
      (c : Bool) (name doc_id : String) (n : Instance b.Tx)
      → n.offline ≡ false
      → b.has_bucket n.world.tx name ≡ true
      → Database.get_table b j n.node_id name n.world ≡ (ok (table_of c name), n.world)
      → answered (serve b j (get_doc name doc_id) n).0
        ≡ shown_for (read b j n.node_id c) (b.get n.world.tx name doc_id)
  unfolding serve handle_get_doc open_tx document_answer
  document_shown c name doc_id n on h t =
      let s : (serve b j (get_doc name doc_id) n).0
          ≡ document_answer (Database.get_doc b j n.node_id (table_of c name) doc_id n.world) n =
        rw (on, t) refl in
      ap answered s
      ∙ answered-returned (Database.get_doc b j n.node_id (table_of c name) doc_id n.world) n
      ∙ get_doc-shown b j n.node_id c name doc_id n.world h

  -- A node that is online and lists a table, in a transaction where bbolt visits each entry of the
  -- table's bucket once, shows under each document ID that does not begin with __ exactly the document
  -- that a GET of it answers with, and none where that GET fails; it shows no ID that begins with __.
  pub list_table-get_doc :
      (name : String) (n : Instance b.Tx) (values : GoMap (GoMap String))
      → n.offline ≡ false
      → Visits b n.world.tx name
      → (serve b j (get_table name) n).0 ≡ table_body values
      → (doc_id : String)
      → (starts_with doc_id "__" ≡ false
          → lookup doc_id values ≡ answered (serve b j (get_doc name doc_id) n).0)
        × (starts_with doc_id "__" ≡ true → lookup doc_id values ≡ none)
  unfolding lookup
  list_table-get_doc name n values on visits e doc_id =
      let (c, h, t, f) = listing_filled name n values on e in
      let (hidden, shown, _) =
        lookup-fill (read b j n.node_id c) (b.entries n.world.tx name) [] values doc_id visits.once
          f in
      (
        λ k.
            shown k refl
            ∙ ap (shown_for (read b j n.node_id c)) (visits.lookup-entries doc_id)
            ∙ sym (document_shown c name doc_id n on h t),
        hidden,
      )
