-- ===== src/BancoReplicado/Store.antt =====
-- What the program takes from go.etcd.io/bbolt, encoding/json and google.golang.org/protobuf, as
-- parameters. A Go []byte that is made from a string, a key, is that string; the bytes of a value are
-- of a type of their own. The laws are the documented behaviour that the theorems rely on.
pub mod Memory
use grupo.Prelude.{
  ℕ, String, Bool, true, false, ◌≡◌, Option, none, some, List, ◌||◌, ◌&&◌, str_eq, if◌then◌else◌,
}
use grupo.Prelude.GoMap.{Distinct, GoMap, lookup}
use grupo.Crdt.MergeableMap.{MergeableMap}
use grupo.BancoReplicado.Exec.{Result, ok}

-- bbolt: what a write transaction sees, and its buckets' operations.
pub record Bolt (Bytes : Type 0) : Type 1 where
  pub Tx : Type 0
  -- tx.Bucket(name) != nil
  pub has_bucket : Tx → String → Bool
  -- tx.Bucket(name).Get(key)
  pub get : Tx → String → String → Option Bytes
  pub put : Tx → String → String → Bytes → Result Tx
  pub delete : Tx → String → String → Result Tx
  pub create_bucket : Tx → String → Result Tx
  pub delete_bucket : Tx → String → Result Tx
  -- what bucket.ForEach and tx.ForEach visit, in order
  pub entries : Tx → String → List (String × Bytes)
  pub buckets : Tx → List String

pub record BoltLaws {Bytes : Type 0} (b : Bolt Bytes) : Type 0 where
  pub get-put :
      (t : b.Tx) (n k : String) (v : Bytes) (t' : b.Tx)
      → b.put t n k v ≡ ok t'
      → (m j : String) → b.get t' m j ≡ (if str_eq n m && str_eq k j then some v else b.get t m j)
  pub has_bucket-put :
      (t : b.Tx) (n k : String) (v : Bytes) (t' : b.Tx)
      → b.put t n k v ≡ ok t'
      → (m : String) → b.has_bucket t' m ≡ b.has_bucket t m
  pub get-delete :
      (t : b.Tx) (n k : String) (t' : b.Tx)
      → b.delete t n k ≡ ok t'
      → (m j : String) → b.get t' m j ≡ (if str_eq n m && str_eq k j then none else b.get t m j)
  pub has_bucket-delete :
      (t : b.Tx) (n k : String) (t' : b.Tx)
      → b.delete t n k ≡ ok t'
      → (m : String) → b.has_bucket t' m ≡ b.has_bucket t m
  pub has_bucket-create_bucket :
      (t : b.Tx) (n : String) (t' : b.Tx)
      → b.create_bucket t n ≡ ok t'
      → (m : String) → b.has_bucket t' m ≡ (str_eq n m || b.has_bucket t m)
  pub get-create_bucket :
      (t : b.Tx) (n : String) (t' : b.Tx)
      → b.create_bucket t n ≡ ok t'
      → (m j : String) → b.get t' m j ≡ b.get t m j
  pub has_bucket-delete_bucket :
      (t : b.Tx) (n : String) (t' : b.Tx)
      → b.delete_bucket t n ≡ ok t'
      → (m : String) → b.has_bucket t' m ≡ (if str_eq n m then false else b.has_bucket t m)
  pub get-delete_bucket :
      (t : b.Tx) (n : String) (t' : b.Tx)
      → b.delete_bucket t n ≡ ok t'
      → (m j : String) → str_eq n m ≡ false
      → b.get t' m j ≡ b.get t m j

-- ForEach visits each key of a bucket once, with its value.
pub record Visits {Bytes : Type 0} (b : Bolt Bytes) (t : b.Tx) (n : String) : Type 0 where
  pub lookup-entries : (k : String) → lookup k (b.entries t n) ≡ b.get t n k
  pub once : Distinct (b.entries t n)

-- json.Marshal and json.Unmarshal, for a CRDT document and for a plain one, and Go's slices of one
-- byte: `of_byte c` is []byte{c}, and `to_byte` gives the byte of a slice of length one.
pub record Encoding (Bytes : Type 0) : Type 0 where
  pub of_byte : ℕ → Bytes
  pub to_byte : Bytes → Option ℕ
  pub marshal_map : MergeableMap → Result Bytes
  pub unmarshal_map : Bytes → Result MergeableMap
  pub marshal_doc : GoMap String → Result Bytes
  pub unmarshal_doc : Bytes → Result (GoMap String)
  -- the text null, of which json.Unmarshal makes a nil map, and which json.Marshal makes of one
  pub is_null : Bytes → Bool
  pub null_doc : Bytes

-- Two documents that no operation on maps tells apart: a Go map has no order.
pub record SameMap (m o : MergeableMap) : Type 0 where
  pub point : o.point ≡ m.point
  pub deleted : o.deleted ≡ m.deleted
  pub map : (k : String) → lookup k o.map ≡ lookup k m.map
  pub tombstones : (k : String) → lookup k o.tombstones ≡ lookup k m.tombstones

abbrev pub SameDoc : GoMap String → GoMap String → Type 0
SameDoc d e = (k : String) → lookup k e ≡ lookup k d

pub record EncodingLaws {Bytes : Type 0} (j : Encoding Bytes) : Type 0 where
  pub to_byte-of_byte : (c : ℕ) → j.to_byte (j.of_byte c) ≡ some c
  pub unmarshal_map-marshal_map :
      (m : MergeableMap) (v : Bytes)
      → j.marshal_map m ≡ ok v
      → (o : MergeableMap) × (j.unmarshal_map v ≡ ok o) × SameMap m o
  pub unmarshal_doc-marshal_doc :
      (d : GoMap String) (v : Bytes)
      → j.marshal_doc d ≡ ok v
      → (e : GoMap String) × (j.unmarshal_doc v ≡ ok e) × SameDoc d e
