-- ===== src/Crdt/Tests.antt =====
-- Runs of BancoReplicado/crdt/crdt.go, some from crdt_test.go, and the theorems at concrete inputs.
use grupo.Prelude.{
  ℕ, ◌-◌, ◌^◌, String, true, false, ◌≡◌, ◌↔◌, refl, some, [], ◌∷◌, ◌++◌, Bool-cases, inl, inr,
  arith, str_eq, if◌then◌else◌,
}
use grupo.Prelude.Int.{pos, negsuc, nonneg, ◌<ℤ◌, wrap64, add64, sub64}
use grupo.Prelude.GoMap.{lookup, insert, delete, keys, mark, has}
use grupo.Crdt.Hlc
use grupo.Crdt.Hlc.{Hlc, IsValid, Earlier, Before}
use grupo.Crdt.Hlc.Order.{cmp_order, cmp_overflow}
use grupo.Crdt.MergeableString
use grupo.Crdt.MergeableString.{MergeableString}
use grupo.Crdt.MergeableString.Merging.{deliver, deliver_latest, late_write_lost, merge_again}
use grupo.Crdt.MergeableMap.{MergeableMap, put, remove, get}
use grupo.Crdt.MergeableMap.Merge.{
  merge, merge_loop, tombstones_loop, merge_tombstones, all_keys, settle, pick_winner, latest_point,
}
use grupo.Crdt.MergeableMap.Cells.{cell, join, IsWellFormed}
use grupo.Crdt.MergeableMap.Refines.{merge_refines_join}
use grupo.Crdt.MergeableMap.Sync.{Agree, get-merge_comm, put_survives_merge, remove_survives_merge}
use grupo.Crdt.Wire.{AllFit, map_to_pb, map_from_pb, map_from_pb-to_pb}

abbrev clock : ℕ → ℕ → ℕ → Hlc
clock t c n = record { timestamp = pos t; counter = pos c; node_id = pos n }

abbrev written : String → Hlc → MergeableString
written v p = record { value = v; point = p }

-- TestStringSameTimestamp: the greater node wins, in both orders.
same_timestamp :
    ((MergeableString.merge (written "hello" (clock 0 1 1)) (written "world" (clock 0 1 2))).value
      ≡ "world")
    × ((MergeableString.merge (written "world" (clock 0 1 2)) (written "hello" (clock 0 1 1))).value
        ≡ "world")
unfolding MergeableString.merge Hlc.cmp Hlc.merge
same_timestamp = (refl, refl)

-- One key bound by node 1 at time 5, and removed by node 2 at time 6.
abbrev holds_key : MergeableMap
holds_key = record {
  point = clock 5 0 1;
  deleted = false;
  map = ("key1", written "value1" (clock 5 0 1)) ∷ [];
  tombstones = [];
}

abbrev removed_key : MergeableMap
removed_key = record {
  point = clock 6 0 2;
  deleted = false;
  map = [];
  tombstones = ("key1", clock 6 0 2) ∷ [];
}

-- TestMapBasic, in part: the later removal wins over the put.
removal_wins :
    merge holds_key removed_key
    ≡ some (record {
      point = clock 6 1 1;
      deleted = false;
      map = [];
      tombstones = ("key1", clock 6 0 2) ∷ [];
    })
unfolding merge merge_loop tombstones_loop merge_tombstones all_keys settle pick_winner latest_point
    Hlc.merge Hlc.cmp add64 sub64 wrap64 insert delete lookup keys mark
removal_wins = refl

holds_key-IsWellFormed : IsWellFormed holds_key
unfolding has lookup
holds_key-IsWellFormed k = ground arith

removed_key-IsWellFormed : IsWellFormed removed_key
unfolding has lookup
removed_key-IsWellFormed k = ground arith

cmp_order_example :
    ((nonneg (Hlc.cmp (clock 5 0 1) (clock 5 0 2)) ≡ false) ↔ Before (clock 5 0 1) (clock 5 0 2))
    × ((Hlc.cmp (clock 5 0 1) (clock 5 0 2) ≡ pos 0) ↔ (clock 5 0 1 ≡ clock 5 0 2))
cmp_order_example = cmp_order (clock 5 0 1) (clock 5 0 2) (ground arith) (ground arith)

cmp_overflow_example :
    (negsuc 99 <ℤ pos (2 ^ 63 - 1))
    × (nonneg (
          Hlc.cmp
            (clock (2 ^ 63 - 1) 0 1)
            (record { timestamp = negsuc 99; counter = pos 0; node_id = pos 2 }))
        ≡ false)
cmp_overflow_example =
    cmp_overflow (clock (2 ^ 63 - 1) 0 1)
      (record { timestamp = negsuc 99; counter = pos 0; node_id = pos 2 }) (omega arith)
      (omega arith) (omega arith)

deliver_latest_example :
    (deliver (written "a" (clock 1 0 1)) (
      (written "b" (clock 2 0 2) ∷ [])
      ++ written "x" (clock 9 0 3) ∷ (written "c" (clock 7 4 1) ∷ []))).value
    ≡ "x"
deliver_latest_example =
    deliver_latest (written "x" (clock 9 0 3)) (written "a" (clock 1 0 1))
      (written "b" (clock 2 0 2) ∷ []) (written "c" (clock 7 4 1) ∷ []) (omega arith) (omega arith)
      (omega arith) (omega arith)

-- `c` is later than `a` and `b`, and earlier than the clock of their merge.
abbrev write_a : MergeableString
write_a = written "a" (clock 5 0 2)

abbrev write_b : MergeableString
write_b = written "b" (clock 5 0 1)

abbrev write_c : MergeableString
write_c = written "c" (clock 5 1 1)

late_write_lost_example :
    ((MergeableString.merge (MergeableString.merge write_a write_b) write_c).value
      ≡ (MergeableString.merge write_a write_b).value)
    × ((MergeableString.merge write_a (MergeableString.merge write_b write_c)).value ≡ "c")
unfolding MergeableString.merge Hlc.merge Hlc.cmp add64 wrap64
late_write_lost_example =
    late_write_lost write_a write_b write_c (ground arith) (ground arith) (ground arith)
      (omega arith) (omega arith) (omega arith) (ground arith) (ground arith) (ground arith)

merge_again_example :
    ((MergeableString.merge (MergeableString.merge write_a write_c) write_c).value
      ≡ (MergeableString.merge write_a write_c).value)
    × Earlier
        (MergeableString.merge write_a write_c).point
        (MergeableString.merge (MergeableString.merge write_a write_c) write_c).point
unfolding MergeableString.merge Hlc.merge Hlc.cmp add64 sub64 wrap64
merge_again_example =
    merge_again write_a write_c (ground arith) (ground arith) (omega arith) (omega arith)
      (omega arith)

merge_refines_join_example :
    (r : MergeableMap) × (merge holds_key removed_key ≡ some r)
    × IsWellFormed r
    × ((k : String) → cell r k ≡ join (cell holds_key k) (cell removed_key k))
    × (r.point ≡ Hlc.merge holds_key.point removed_key.point)
    × (r.deleted ≡ (
        if nonneg (Hlc.cmp holds_key.point removed_key.point)
        then holds_key.deleted
        else removed_key.deleted))
merge_refines_join_example =
    merge_refines_join holds_key removed_key holds_key-IsWellFormed removed_key-IsWellFormed

-- Two nodes that wrote one key at different times.
abbrev other_key : MergeableMap
other_key = record {
  point = clock 7 0 2;
  deleted = false;
  map = ("key1", written "value2" (clock 7 0 2)) ∷ [];
  tombstones = [];
}

other_key-IsWellFormed : IsWellFormed other_key
unfolding has lookup
other_key-IsWellFormed k = ground arith

keys-Agree : (k : String) → Agree (cell holds_key k) (cell other_key k)
unfolding lookup
keys-Agree k = elim (Bool-cases (str_eq "key1" k)) [ inl e ↦ rw e (ground arith) | inr n ↦ rw n tt ]

get-merge_comm_example :
    (r s : MergeableMap) × (merge holds_key other_key ≡ some r)
    × (merge other_key holds_key ≡ some s)
    × ((k : String) → get k r ≡ get k s)
get-merge_comm_example =
    get-merge_comm holds_key other_key holds_key-IsWellFormed other_key-IsWellFormed keys-Agree

put_survives_merge_example :
    (r s : MergeableMap) × (merge (put (pos 9) "key1" "new" holds_key) other_key ≡ some r)
    × (merge other_key (put (pos 9) "key1" "new" holds_key) ≡ some s)
    × (get "key1" r ≡ ("new", true))
    × (get "key1" s ≡ ("new", true))
unfolding Hlc.increment lookup
put_survives_merge_example =
    put_survives_merge (pos 9) "key1" "new" holds_key other_key holds_key-IsWellFormed
      other_key-IsWellFormed (ground arith) (ground arith)

remove_survives_merge_example :
    (r s : MergeableMap) × (merge (remove (pos 9) "key1" holds_key) other_key ≡ some r)
    × (merge other_key (remove (pos 9) "key1" holds_key) ≡ some s)
    × (get "key1" r ≡ ("", false))
    × (get "key1" s ≡ ("", false))
unfolding Hlc.increment lookup
remove_survives_merge_example =
    remove_survives_merge (pos 9) "key1" holds_key other_key holds_key-IsWellFormed
      other_key-IsWellFormed (ground arith) (ground arith)

holds_key-fits : (k : String) → AllFit (lookup k holds_key.map) (lookup k holds_key.tombstones)
unfolding lookup
holds_key-fits k = ((λ v e. ground arith), λ p e. ground arith)

map_from_pb-to_pb_example :
    ((map_from_pb (map_to_pb holds_key)).point ≡ holds_key.point)
    × ((map_from_pb (map_to_pb holds_key)).deleted ≡ holds_key.deleted)
    × ((k : String) → lookup k (map_from_pb (map_to_pb holds_key)).map ≡ lookup k holds_key.map)
    × ((k : String)
        → lookup k (map_from_pb (map_to_pb holds_key)).tombstones ≡ lookup k holds_key.tombstones)
map_from_pb-to_pb_example = map_from_pb-to_pb holds_key (omega arith) holds_key-fits
