-- ===== src/BancoReplicado/Store/Memory.antt =====
-- A store in memory that keeps the laws: the assumptions on the libraries can be met, and the
-- program can be run in tests.
use grupo.Prelude.{
  ℕ, String, false, ◌≡◌, refl, ◌∙◌, Option-cases, inl, inr, Option, none, some, [], ◌||◌, ◌&&◌,
  arith, eq_iff, str_eq, if◌then◌else◌,
}
use grupo.Prelude.GoMap.{GoMap, keys, has, insert, delete, lookup, lookup-insert, lookup-delete}
use grupo.Crdt.MergeableMap.{MergeableMap}
use grupo.BancoReplicado.Exec.{Result, ok, err, library}
use grupo.BancoReplicado.Store.{Bolt, BoltLaws, Encoding, EncodingLaws}

pub data Value : Type 0 where
  no_bytes : Value
  byte : ℕ → Value
  map_value : MergeableMap → Value
  doc_value : GoMap String → Value

abbrev pub Buckets : Type 0
Buckets = GoMap (GoMap Value)

abbrev get : Buckets → String → String → Option Value
get t n k = elim (lookup n t) [ none ↦ none | some m ↦ lookup k m ]

-- A change of one bucket.
abbrev write : Buckets → String → (GoMap Value → GoMap Value) → Result Buckets
write t n f = elim (lookup n t) [
  | none ↦ err (library "bucket not found")
  | some m ↦ ok (insert n (f m) t)
]

abbrev create_bucket : Buckets → String → Result Buckets
create_bucket t n = if has n t then err (library "bucket already exists") else ok (insert n [] t)

abbrev delete_bucket : Buckets → String → Result Buckets
delete_bucket t n = if has n t then ok (delete n t) else err (library "bucket not found")

abbrev pub memory : Bolt Value
memory = record {
  Tx = Buckets;
  has_bucket = λ t n. has n t;
  get = get;
  put = λ t n k v. write t n (insert k v);
  delete = λ t n k. write t n (delete k);
  create_bucket = create_bucket;
  delete_bucket = delete_bucket;
  entries = λ t n. elim (lookup n t) [ none ↦ [] | some m ↦ m ];
  buckets = keys;
}

write-shape :
    (t : Buckets) (n : String) (f : GoMap Value → GoMap Value) (t' : Buckets)
    → write t n f ≡ ok t'
    → (m : GoMap Value) × (lookup n t ≡ some m) × (t' ≡ insert n (f m) t)
write-shape t n f t' e = elim (Option-cases (lookup n t)) [
  | inl h ↦ absurd (ground arith)
  | inr (m, h) ↦ (m, h, ground arith)
]

get-write :
    (t : Buckets) (n : String) (f : GoMap Value → GoMap Value) (t' : Buckets)
    → write t n f ≡ ok t'
    → (m : GoMap Value) × (lookup n t ≡ some m)
      × ((i j : String) → get t' i j ≡ (if str_eq n i then lookup j (f m) else get t i j))
      × ((i : String) → has i t' ≡ has i t)
unfolding has
get-write t n f t' e =
    let (m, h, s) = write-shape t n f t' e in
    (
      m,
      h,
      λ i j. rw s (ground (arith, lookup-insert n i (f m) t, eq_iff n i)),
      λ i. rw s (ground (arith, lookup-insert n i (f m) t, eq_iff n i)),
    )

get-put :
    (t : Buckets) (n k : String) (v : Value) (t' : Buckets)
    → write t n (insert k v) ≡ ok t'
    → (i j : String) → get t' i j ≡ (if str_eq n i && str_eq k j then some v else get t i j)
get-put t n k v t' e i j =
    let (m, h, g, _) = get-write t n (insert k v) t' e in
    g i j ∙ ground (arith, lookup-insert k j v m, eq_iff n i)

get-remove :
    (t : Buckets) (n k : String) (t' : Buckets)
    → write t n (delete k) ≡ ok t'
    → (i j : String) → get t' i j ≡ (if str_eq n i && str_eq k j then none else get t i j)
get-remove t n k t' e i j =
    let (m, h, g, _) = get-write t n (delete k) t' e in
    g i j ∙ ground (arith, lookup-delete k j m, eq_iff n i)

has-create :
    (t : Buckets) (n : String) (t' : Buckets)
    → create_bucket t n ≡ ok t'
    → (i : String) → has i t' ≡ (str_eq n i || has i t)
unfolding has
has-create t n t' e i = ground (arith, lookup-insert n i [] t)

get-create :
    (t : Buckets) (n : String) (t' : Buckets)
    → create_bucket t n ≡ ok t'
    → (i j : String) → get t' i j ≡ get t i j
unfolding has lookup
get-create t n t' e i j = ground (arith, lookup-insert n i [] t, eq_iff n i)

has-delete :
    (t : Buckets) (n : String) (t' : Buckets)
    → delete_bucket t n ≡ ok t'
    → (i : String) → has i t' ≡ (if str_eq n i then false else has i t)
unfolding has
has-delete t n t' e i = ground (arith, lookup-delete n i t)

get-delete_bucket :
    (t : Buckets) (n : String) (t' : Buckets)
    → delete_bucket t n ≡ ok t'
    → (i j : String) → str_eq n i ≡ false
    → get t' i j ≡ get t i j
unfolding has lookup
get-delete_bucket t n t' e i j other = ground (arith, lookup-delete n i t)

pub memory_laws : BoltLaws memory
memory_laws = record {
  get-put = get-put;
  has_bucket-put = λ t n k v t' e. (get-write t n (insert k v) t' e).3;
  get-delete = get-remove;
  has_bucket-delete = λ t n k t' e. (get-write t n (delete k) t' e).3;
  has_bucket-create_bucket = has-create;
  get-create_bucket = get-create;
  has_bucket-delete_bucket = has-delete;
  get-delete_bucket = get-delete_bucket;
}

abbrev as_map : Value → Result MergeableMap
as_map (map_value m) = ok m
as_map no_bytes = err (library "cannot unmarshal")
as_map (byte c) = err (library "cannot unmarshal")
as_map (doc_value d) = err (library "cannot unmarshal")

abbrev as_doc : Value → Result (GoMap String)
as_doc (doc_value d) = ok d
as_doc no_bytes = err (library "cannot unmarshal")
as_doc (byte c) = err (library "cannot unmarshal")
as_doc (map_value m) = err (library "cannot unmarshal")

abbrev as_byte : Value → Option ℕ
as_byte (byte c) = some c
as_byte no_bytes = none
as_byte (map_value m) = none
as_byte (doc_value d) = none

abbrev pub plain : Encoding Value
plain = record {
  of_byte = byte;
  to_byte = as_byte;
  marshal_map = λ m. ok (map_value m);
  unmarshal_map = as_map;
  marshal_doc = λ d. ok (doc_value d);
  unmarshal_doc = as_doc;
  is_null = λ v. false;
  null_doc = byte 0;
}

ok-value : (v w : Value) → ◌≡◌ {A = Result Value} (ok v) (ok w) → w ≡ v
ok-value v w e = cc

pub plain_laws : EncodingLaws plain
plain_laws = record {
  to_byte-of_byte = λ c. refl;
  unmarshal_map-marshal_map = λ m v e. (
    m,
    rw (ok-value (map_value m) v e),
    record { point = refl; deleted = refl; map = λ k. refl; tombstones = λ k. refl },
  );
  unmarshal_doc-marshal_doc = λ d v e. (d, rw (ok-value (doc_value d) v e), λ k. refl);
}
