-- ===== src/BancoReplicado/Http.antt =====
-- BancoReplicado/http.go: the handlers for tables and documents, and the switches. A body is what
-- io.ReadAll and json.Unmarshal make of it, `none` when one of them fails, which panics; the Recoverer
-- answers a panic. A commit succeeds, and so does a write of the answer. A listing is
-- filled by the callbacks of ForEach.
pub mod Listing
use Prim.Native.String.{◌++◌ as append}
use grupo.Prelude.{
  ℕ, String, Bool, true, false, Option, none, some, List, [], ◌∷◌, ◌++◌, if◌then◌else◌,
}
use grupo.Prelude.GoMap.{GoMap, lookup, has, insert}
use grupo.BancoReplicado.Exec.{
  Error, Result, ok, err, panic, library, table_does_not_exist, table_already_exists,
  document_does_not_exist, not_a_crdt_table, node_is_offline, ◌>>=◌,
}
use grupo.BancoReplicado.Store.{Bolt, Encoding}
use grupo.BancoReplicado.Transaction.{World, Action, Callback, collected, list_doc}
use grupo.BancoReplicado.Database
use grupo.BancoReplicado.Database.{Table}
use grupo.BancoReplicado.Replication.{open_tx}
use grupo.BancoReplicado.Instance.{
  Instance, Event, create_table_event, delete_table_event, put_document, patch_document,
  delete_document, is_offline, sync_pending,
}

-- err.Error()
abbrev pub error_text : Error → String
error_text table_does_not_exist = "table does not exist"
error_text table_already_exists = "table already exists"
error_text document_does_not_exist = "document does not exist"
error_text not_a_crdt_table = "tried to do a CRDT merge on a non-CRDT table"
error_text node_is_offline = "node is offline"
error_text (library e) = e

pub data Request : Type 0 where
  put_table : String → Option Bool → Request
  delete_table : String → Request
  get_doc : String → String → Request
  put_doc patch_doc : String → String → Option (GoMap String) → Request
  delete_doc : String → String → Request
  get_table : String → Request
  get_db crdt_sync : Request
  offline online timer_enable timer_disable : Request

-- An empty answer, a document, a table, all tables, writeError, and what the Recoverer writes.
pub data Response : Type 0 where
  empty_body recovered : Response
  json_body : GoMap String → Response
  table_body : GoMap (GoMap String) → Response
  db_body : GoMap (GoMap (GoMap String)) → Response
  server_error : String → Response

-- The end of a handler: an event and the answer, or the error. The commit of the transaction does not
-- fail, so that the event that PUT and PATCH of a document send before it is sent after it here.
pub record Ending (A : Type 0) : Type 0 where
  pub answer : A → Response
  pub event : A → List Event
  pub failure : Error → String

module _ {Bytes : Type 0} (b : Bolt Bytes) (j : Encoding Bytes) where
  unfoldable pub finish :
      {A : Type 0} → Ending A → Instance b.Tx → Result A × World b.Tx → Response × Instance b.Tx
  finish e n (ok a, w) = (e.answer a, record n { world = w; events = n.events ++ e.event a })
  finish e n (err f, w) = (server_error (e.failure f), record n { world = w })
  finish e n (panic, w) = (recovered, record n { world = w })

  -- i.db.OpenTx, with GetTable first.
  abbrev on_table : {A : Type 0} → ℕ → String → (Table → Action b A) → Action b A
  on_table node_id name f = Database.get_table b j node_id name >>= f

  unfoldable pub handle_put_table : String → Option Bool → Instance b.Tx → Response × Instance b.Tx
  handle_put_table name none n = (recovered, n)
  handle_put_table name (some strong) n =
      finish
        (record {
          answer = λ t. empty_body;
          event = λ t. create_table_event name ∷ [];
          failure = λ e. append "could not create table: " (error_text e);
        })
        n (open_tx b (Database.create_table b j n.node_id name strong) n.world)

  unfoldable pub handle_delete_table : String → Instance b.Tx → Response × Instance b.Tx
  handle_delete_table name n =
      finish
        (record {
          answer = λ t. empty_body;
          event = λ t. delete_table_event name ∷ [];
          failure = λ e. append "could not create table: " (error_text e);
        })
        n (open_tx b (Database.delete_table b j n.node_id name) n.world)

  unfoldable pub handle_get_doc : String → String → Instance b.Tx → Response × Instance b.Tx
  handle_get_doc name doc_id n =
      finish
        (record { answer = json_body; event = λ d. []; failure = λ e. "document does not exist" }) n
        (open_tx b (on_table n.node_id name (λ t. Database.get_doc b j n.node_id t doc_id)) n.world)

  unfoldable pub handle_put_doc :
      String → String → Option (GoMap String) → Instance b.Tx → Response × Instance b.Tx
  handle_put_doc name doc_id none n = (recovered, n)
  handle_put_doc name doc_id (some body) n =
      finish
        (record {
          answer = λ t. json_body body;
          event = λ t. put_document doc_id body ∷ [];
          failure = λ e. append "error putting document: " (error_text e);
        })
        n
        (open_tx b (on_table n.node_id name (λ t. Database.put_doc b j n.node_id t doc_id body))
          n.world)

  unfoldable pub handle_patch_doc :
      String → String → Option (GoMap String) → Instance b.Tx → Response × Instance b.Tx
  handle_patch_doc name doc_id none n = (recovered, n)
  handle_patch_doc name doc_id (some body) n =
      finish
        (record {
          answer = json_body;
          event = λ d. patch_document doc_id d ∷ [];
          failure = λ e. append "error patching document: " (error_text e);
        })
        n
        (open_tx b (on_table n.node_id name (λ t. Database.patch_doc b j n.node_id t doc_id body))
          n.world)

  unfoldable pub handle_delete_doc : String → String → Instance b.Tx → Response × Instance b.Tx
  handle_delete_doc name doc_id n =
      finish
        (record {
          answer = json_body;
          event = λ d. delete_document doc_id ∷ [];
          failure = λ e. "document does not exist";
        })
        n
        (open_tx b (on_table n.node_id name (λ t. Database.delete_doc b j n.node_id t doc_id))
          n.world)

  unfoldable pub handle_get_table : String → Instance b.Tx → Response × Instance b.Tx
  handle_get_table name n =
      finish
        (record {
          answer = table_body;
          event = λ d. [];
          failure = λ e. append "failed to get table documents: " (error_text e);
        })
        n
        (open_tx b
          (on_table n.node_id name
            (λ t. collected b [] (Database.for_each_doc b j n.node_id (list_doc b) t)))
          n.world)

  -- dbValues[tableName]: the empty map before the table's first document.
  abbrev pub values_of : String → GoMap (GoMap (GoMap String)) → GoMap (GoMap String)
  values_of name values = elim (lookup name values) [ none ↦ [] | some t ↦ t ]

  -- dbValues[tableName][docId] = doc
  abbrev pub list_in :
      String → String → GoMap String → Callback b (GoMap (GoMap (GoMap String))) (Unit {0})
  list_in name doc_id doc (w, values) =
      (ok tt, (w, insert name (insert doc_id doc (values_of name values)) values))

  abbrev pub list_table : ℕ → String → Table → Callback b (GoMap (GoMap (GoMap String))) (Unit {0})
  list_table node_id name t (w, values) =
      Database.for_each_doc b j node_id (list_in name) t
        (w, (if has name values then values else insert name [] values))

  unfoldable pub handle_get_db : Instance b.Tx → Response × Instance b.Tx
  handle_get_db n =
      finish
        (record {
          answer = db_body;
          event = λ d. [];
          failure = λ e. append "failed to get table documents: " (error_text e);
        })
        n
        (open_tx b (collected b [] (Database.for_each_table b j n.node_id (list_table n.node_id)))
          n.world)

  -- if i.isOffline() { writeError(w, "node is offline"); return }
  abbrev if_online :
      (Instance b.Tx → Response × Instance b.Tx) → Instance b.Tx → Response × Instance b.Tx
  if_online handle n = if is_offline n then (server_error "node is offline", n) else handle n

  unfoldable pub serve : Request → Instance b.Tx → Response × Instance b.Tx
  serve (put_table name strong) n = if_online (handle_put_table name strong) n
  serve (delete_table name) n = if_online (handle_delete_table name) n
  serve (get_doc name doc_id) n = if_online (handle_get_doc name doc_id) n
  serve (put_doc name doc_id body) n = if_online (handle_put_doc name doc_id body) n
  serve (patch_doc name doc_id body) n = if_online (handle_patch_doc name doc_id body) n
  serve (delete_doc name doc_id) n = if_online (handle_delete_doc name doc_id) n
  serve (get_table name) n = if_online (handle_get_table name) n
  serve get_db n = if_online handle_get_db n
  serve crdt_sync n = if_online (λ m. (empty_body, sync_pending m)) n
  serve offline n = (empty_body, record n { offline = true })
  serve online n = (empty_body, record n { offline = false })
  serve timer_enable n = (empty_body, record n { timer_disabled = false })
  serve timer_disable n = (empty_body, record n { timer_disabled = true })
