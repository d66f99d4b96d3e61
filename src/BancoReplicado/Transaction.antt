-- ===== src/BancoReplicado/Transaction.antt =====
-- One bbolt transaction as the tables' methods see it, with the effects that a method has beside it.
use grupo.Prelude.{String, Option, List, if◌then◌else◌}
pub mod Listing
use grupo.Prelude.GoMap.{GoMap, insert}
use grupo.Crdt.MergeableMap.{MergeableMap, Readings}
use grupo.BancoReplicado.Exec.{Result, Exec, ok, err, panic, table_does_not_exist}
use grupo.BancoReplicado.Store.{Bolt}

-- A call of queueCRDTStateForAllNodes that a `go` statement has started.
pub record Broadcast : Type 0 where
  pub table_name : String
  pub doc_id : String
  pub map : MergeableMap

-- What a table's method reads and changes: the transaction, the wall clock's readings to come, and
-- the broadcasts that it starts.
pub record World (Tx : Type 0) : Type 0 where
  pub tx : Tx
  pub readings : Readings
  pub broadcasts : List Broadcast

module _ {Bytes : Type 0} (b : Bolt Bytes) where
  abbrev pub Action {ℓ} : Type ℓ → Type ℓ
  Action A = Exec (World b.Tx) A

  -- What a callback does, over a variable of the function that it is written in.
  abbrev pub Callback : Type 0 → Type 0 → Type 0
  Callback V A = Exec (World b.Tx × V) A

  abbrev pub leaving_variable :
      {V A : Type 0} → Result A × World b.Tx → V → Result A × (World b.Tx × V)
  leaving_variable (r, w) v = (r, (w, v))

  abbrev pub beside : {V A : Type 0} → Action A → Callback V A
  beside m (w, v) = leaving_variable (m w) v

  abbrev pub final_value :
      {V : Type 0} → Result (Unit {0}) × (World b.Tx × V) → Result V × World b.Tx
  final_value (ok a, (w, v)) = (ok v, w)
  final_value (err e, (w, v)) = (err e, w)
  final_value (panic, (w, v)) = (panic, w)

  -- The variable's value at the end, from its value at the start.
  abbrev pub collected : {V : Type 0} → V → Callback V (Unit {0}) → Action V
  collected v m w = final_value (m (w, v))

  -- bucket := tx.Bucket(name), which must not be nil
  abbrev pub open_bucket : String → Action (Unit {0})
  open_bucket name w = if b.has_bucket w.tx name then (ok tt, w) else (err table_does_not_exist, w)

  abbrev pub get_bytes : String → String → Action (Option Bytes)
  get_bytes name doc_id w = (ok (b.get w.tx name doc_id), w)

  -- The transaction after a write, or the write's error.
  unfoldable pub put_tx : Result b.Tx → Action (Unit {0})
  put_tx (ok t) w = (ok tt, record w { tx = t })
  put_tx (err e) w = (err e, w)
  put_tx panic w = (panic, w)

  -- bucket.Put(docId, docBytes)
  abbrev pub put_bytes : String → String → Bytes → Action (Unit {0})
  unfolding put_tx
  put_bytes name doc_id v w = put_tx (b.put w.tx name doc_id v) w

  -- bucket.Delete(docId)
  abbrev pub delete_bytes : String → String → Action (Unit {0})
  unfolding put_tx
  delete_bytes name doc_id w = put_tx (b.delete w.tx name doc_id) w

  -- tableValues[docId] = doc, in the callback of a handler
  abbrev pub list_doc : String → GoMap String → Callback (GoMap (GoMap String)) (Unit {0})
  list_doc doc_id doc (w, values) = (ok tt, (w, insert doc_id doc values))
