-- ===== src/BancoReplicado/Database/Tables.antt =====
-- A table is found again as it was created, until it is deleted.
use grupo.Prelude.{
  ℕ, String, Bool, true, false, ◌≡◌, refl, ◌∙◌, none, some, eq_iff, str_eq, if◌then◌else◌,
}
use grupo.BancoReplicado.Exec.{panic, ok, err, table_does_not_exist, table_already_exists}
use grupo.BancoReplicado.Store.{Bolt, BoltLaws, Encoding, EncodingLaws}
use grupo.BancoReplicado.Transaction.{World, put_tx}
use grupo.Prelude.GoMap.{GoMap}
use grupo.BancoReplicado.RaftTable
use grupo.BancoReplicado.Database.{
  consistency, table_of, consistency_key, create_table, get_table, delete_table,
}

module _ {Bytes : Type 0} (b : Bolt Bytes) (j : Encoding Bytes) (node_id : ℕ) where
  consistency-flag :
      EncodingLaws j
      → (strong : Bool) → consistency j (some (j.of_byte (if strong then 1 else 0))) ≡ ok strong
  unfolding consistency
  consistency-flag enc true = rw (enc.to_byte-of_byte 1, consistency)
  consistency-flag enc false = rw (enc.to_byte-of_byte 0, consistency)

  -- The store can create the bucket, and takes the consistency flag.
  pub record CanCreate (name : String) (w : World b.Tx) : Type 0 where
    pub missing : b.has_bucket w.tx name ≡ false
    pub creates : (t : b.Tx) × (b.create_bucket w.tx name ≡ ok t)
    pub writes :
        (t : b.Tx)
        → b.create_bucket w.tx name ≡ ok t
        → (v : Bytes) → (t' : b.Tx) × (b.put t name consistency_key v ≡ ok t')

  -- CreateTable of a new name succeeds over a store that takes its writes, GetTable then finds a table of the kind that was asked for,
  -- a second CreateTable of the name fails and changes nothing, and no other bucket comes or goes.
  pub create_table-get_table :
      (laws : BoltLaws b) (enc : EncodingLaws j) (name : String) (strong : Bool) (w : World b.Tx)
      → CanCreate name w
      → (w' : World b.Tx) × (create_table b j node_id name strong w
          ≡ (ok (table_of strong name), w'))
        × (get_table b j node_id name w' ≡ (ok (table_of strong name), w'))
        × ((again : Bool) → create_table b j node_id name again w' ≡ (err table_already_exists, w'))
        × ((n : String) → str_eq name n ≡ false → b.has_bucket w'.tx n ≡ b.has_bucket w.tx n)
  unfolding create_table get_table put_tx
  create_table-get_table laws enc name strong w c =
      let (t, et) = c.creates in
      let (t', ew) = c.writes t et (j.of_byte (if strong then 1 else 0)) in
      let flag : b.get t' name consistency_key ≡ some (j.of_byte (if strong then 1 else 0)) =
        laws.get-put t name consistency_key _ t' ew name consistency_key
        ∙ rw ((eq_iff name name).1 refl) in
      let there : b.has_bucket t' name ≡ true =
        laws.has_bucket-put t name consistency_key _ t' ew name
        ∙ laws.has_bucket-create_bucket w.tx name t et name
        ∙ rw ((eq_iff name name).1 refl) in
      (
        record w { tx = t' },
        rw (c.missing, et, ew),
        rw (there, flag, consistency-flag enc strong),
        λ again. rw there,
        λ n d.
            laws.has_bucket-put t name consistency_key _ t' ew n
            ∙ (laws.has_bucket-create_bucket w.tx name t et n ∙ rw d),
      )

  -- When the store deletes the bucket of a table that exists, DeleteTable succeeds, GetTable and a
  -- second DeleteTable then fail and change nothing, and no other bucket comes or goes.
  pub delete_table-get_table :
      (laws : BoltLaws b) (name : String) (w : World b.Tx) (t : b.Tx)
      → b.has_bucket w.tx name ≡ true
      → b.delete_bucket w.tx name ≡ ok t
      → (delete_table b j node_id name w ≡ (ok tt, record w { tx = t }))
        × (get_table b j node_id name (record w { tx = t })
            ≡ (err table_does_not_exist, record w { tx = t }))
        × (delete_table b j node_id name (record w { tx = t })
            ≡ (err table_does_not_exist, record w { tx = t }))
        × ((n : String) → str_eq name n ≡ false → b.has_bucket t n ≡ b.has_bucket w.tx n)
  unfolding delete_table get_table put_tx
  delete_table-get_table laws name w t h e =
      let gone : b.has_bucket t name ≡ false =
        laws.has_bucket-delete_bucket w.tx name t e name ∙ rw ((eq_iff name name).1 refl) in
      (rw (h, e), rw gone, rw gone, λ n d. laws.has_bucket-delete_bucket w.tx name t e n ∙ rw d)

  -- A document of a RaftTable may have the key of the consistency flag for its ID: Put accepts it, and
  -- from then on GetTable of that table panics. The store takes the write, and the encoded document is
  -- not a single byte.
  pub put_doc-get_table :
      (laws : BoltLaws b) (name : String) (doc : GoMap String) (w : World b.Tx) (v : Bytes)
      (t : b.Tx)
      → b.has_bucket w.tx name ≡ true
      → j.marshal_doc doc ≡ ok v
      → j.to_byte v ≡ none
      → b.put w.tx name consistency_key v ≡ ok t
      → (RaftTable.put_doc b j name consistency_key doc w ≡ (ok tt, record w { tx = t }))
        × (get_table b j node_id name (record w { tx = t }) ≡ (panic, record w { tx = t }))
  unfolding RaftTable.put_doc get_table consistency put_tx
  put_doc-get_table laws name doc w v t h ev one et =
      let there : b.has_bucket t name ≡ true =
        laws.has_bucket-put w.tx name consistency_key v t et name ∙ h in
      let found : b.get t name consistency_key ≡ some v =
        laws.get-put w.tx name consistency_key v t et name consistency_key
        ∙ rw ((eq_iff name name).1 refl) refl in
      (rw (h, ev, et) refl, rw (there, found, consistency, one) refl)
