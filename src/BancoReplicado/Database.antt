-- ===== src/BancoReplicado/Database.antt =====
-- BancoReplicado/db_util.go: the tables of a node, and the two kinds of table behind one interface.
pub mod Tables
use text.Mathlib.Text.{starts_with}
use grupo.Prelude.{
  ℕ, String, Bool, true, false, Option, none, some, List, [], ◌∷◌, ◌==◌, if◌then◌else◌,
}
use grupo.Prelude.GoMap.{GoMap}
use grupo.BancoReplicado.Exec.{
  Error, Result, Exec, ok, err, panic, pure, lift, fail, table_does_not_exist, table_already_exists,
  ◌>>=◌, ◌>>◌,
}
use grupo.BancoReplicado.Store.{Bolt, Encoding}
use grupo.BancoReplicado.Transaction.{
  World, Action, open_bucket, get_bytes, put_tx, put_bytes, Callback, beside,
}
use grupo.BancoReplicado.CrdtTable
use grupo.BancoReplicado.RaftTable

-- The dynamic type of a Table, with its name.
pub data Table : Type 0 where
  raft_table : String → Table
  crdt_table : String → Table

abbrev pub consistency_key : String
consistency_key = "__consistency"

abbrev pub table_of : Bool → String → Table
table_of true name = raft_table name
table_of false name = crdt_table name

-- The consistency flag: a missing one, or one that is not a single byte, panics.
unfoldable pub consistency : {Bytes : Type 0} → Encoding Bytes → Option Bytes → Result Bool
consistency j none = panic
consistency j (some v) = elim (j.to_byte v) [ none ↦ panic | some c ↦ ok (c == 1) ]

module _ {Bytes : Type 0} (b : Bolt Bytes) (j : Encoding Bytes) (node_id : ℕ) where
  -- (db *Database) DeleteTable
  unfoldable pub delete_table : String → Action b (Unit {0})
  delete_table name = do open_bucket b name; λ w. put_tx b (b.delete_bucket w.tx name) w

  -- A call whose error is dropped.
  drop_error : Result (Unit {0}) → Result (Unit {0})
  drop_error (ok a) = ok tt
  drop_error (err e) = ok tt
  drop_error panic = panic

  ignoring : Action b (Unit {0}) → Action b (Unit {0})
  unfolding drop_error
  ignoring m w = let (r, w') = m w in (drop_error r, w')

  -- (db *Database) CreateTable: the error of the flag's Put is dropped.
  unfoldable pub create_table : String → Bool → Action b Table
  unfolding ignoring
  create_table name strong w =
      if b.has_bucket w.tx name
      then (err table_already_exists, w)
      else ((do
        λ w1. put_tx b (b.create_bucket w1.tx name) w1
        ignoring (put_bytes b name consistency_key (j.of_byte (if strong then 1 else 0)))
        pure (table_of strong name))
          w)

  -- (db *Database) GetTable
  unfoldable pub get_table : String → Action b Table
  unfolding consistency
  get_table name = do
    open_bucket b name
    flag ← get_bytes b name consistency_key
    strong ← lift (consistency j flag)
    pure (table_of strong name)

  -- (db *Database) ForEach
  module _ {V : Type 0} (callback : String → Table → Callback b V (Unit {0})) where
    for_each_bucket : List String → Callback b V (Unit {0})
    for_each_bucket [] = pure tt
    for_each_bucket (name ∷ rest) =
        let others = for_each_bucket rest in
        if starts_with name "__" then others else (do
          flag ← beside b (get_bytes b name consistency_key)
          strong ← lift (consistency j flag)
          callback name (table_of strong name)
          others)

    unfoldable pub for_each_table : Callback b V (Unit {0})
    unfolding for_each_bucket consistency
    for_each_table s = for_each_bucket (b.buckets s.0.tx) s

  -- The methods of the interface Table, by the dynamic type.
  unfoldable pub put_doc : Table → String → GoMap String → Action b (Unit {0})
  put_doc (raft_table name) doc_id doc = RaftTable.put_doc b j name doc_id doc
  put_doc (crdt_table name) doc_id doc = CrdtTable.put_doc b j node_id name doc_id doc

  unfoldable pub patch_doc : Table → String → GoMap String → Action b (GoMap String)
  patch_doc (raft_table name) doc_id doc = RaftTable.patch_doc b j name doc_id doc
  patch_doc (crdt_table name) doc_id doc = CrdtTable.patch_doc b j node_id name doc_id doc

  unfoldable pub delete_doc : Table → String → Action b (GoMap String)
  delete_doc (raft_table name) doc_id = RaftTable.delete_doc b j name doc_id
  delete_doc (crdt_table name) doc_id = CrdtTable.delete_doc b j node_id name doc_id

  unfoldable pub get_doc : Table → String → Action b (GoMap String)
  get_doc (raft_table name) doc_id = RaftTable.get_doc b j name doc_id
  get_doc (crdt_table name) doc_id = CrdtTable.get_doc b j node_id name doc_id

  unfoldable pub for_each_doc :
      {V : Type 0}
      → (String → GoMap String → Callback b V (Unit {0}))
      → Table
      → Callback b V (Unit {0})
  for_each_doc callback (raft_table name) = RaftTable.for_each_doc b j callback name
  for_each_doc callback (crdt_table name) = CrdtTable.for_each_doc b j node_id callback name
