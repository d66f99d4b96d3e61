-- ===== src/Crdt/Wire.antt =====
-- The protobuf messages of BancoReplicado/rpc.proto that carry a document, with the conversions of
-- BancoReplicado/crdt/crdt.go. A pointer to a message is the message: no conversion makes a nil one.
use mathlib.Core.Option
use grupo.Prelude.{ℕ, ◌-◌, ◌%◌, ◌^◌, ◌<◌, String, Bool, ◌≡◌, refl, ap, Option, arith}
use grupo.Prelude.Int.{ℤ, pos, negsuc, pos_part, neg_part}
use grupo.Prelude.GoMap.{GoMap, lookup, copy_with, lookup-copy_with}
use grupo.Crdt.Hlc.{Hlc}
use grupo.Crdt.MergeableString.{MergeableString}
use grupo.Crdt.MergeableMap.{MergeableMap}

-- pb.HLC, pb.MergeableString, pb.MergeableMap
pub record HlcPb : Type 0 where
  pub timestamp : ℤ
  pub counter : ℤ
  pub node_id : ℕ

pub record MergeableStringPb : Type 0 where
  pub value : String
  pub point : HlcPb

pub record MergeableMapPb : Type 0 where
  pub point : HlcPb
  pub deleted : Bool
  pub map : GoMap MergeableStringPb
  pub tombstones : GoMap HlcPb

-- uint32(n), for an int n.
to_uint32 : ℤ → ℕ
to_uint32 (pos n) = n % 2 ^ 32
to_uint32 (negsuc n) = 2 ^ 32 - 1 - n % 2 ^ 32

-- ToPB(): int64(hlc.Counter) is the counter, an int of 64 bits.
unfoldable pub hlc_to_pb : Hlc → HlcPb
unfolding to_uint32
hlc_to_pb h = record { timestamp = h.timestamp; counter = h.counter; node_id = to_uint32 h.node_id }

-- HLCFromPB
unfoldable pub hlc_from_pb : HlcPb → Hlc
hlc_from_pb h = record { timestamp = h.timestamp; counter = h.counter; node_id = pos h.node_id }

unfoldable pub string_to_pb : MergeableString → MergeableStringPb
string_to_pb m = record { value = m.value; point = hlc_to_pb m.point }

unfoldable pub string_from_pb : MergeableStringPb → MergeableString
string_from_pb m = record { value = m.value; point = hlc_from_pb m.point }

unfoldable pub map_to_pb : MergeableMap → MergeableMapPb
map_to_pb m = record {
  point = hlc_to_pb m.point;
  deleted = m.deleted;
  map = copy_with string_to_pb m.map;
  tombstones = copy_with hlc_to_pb m.tombstones;
}

unfoldable pub map_from_pb : MergeableMapPb → MergeableMap
map_from_pb m = record {
  point = hlc_from_pb m.point;
  deleted = m.deleted;
  map = copy_with string_from_pb m.map;
  tombstones = copy_with hlc_from_pb m.tombstones;
}

-- A node ID that fits the 32 bits of the message.
abbrev pub FitsUint32 : Hlc → Type 0
FitsUint32 h = (neg_part h.node_id ≡ 0) × (pos_part h.node_id < 2 ^ 32)

abbrev pub AllFit : Option MergeableString → Option Hlc → Type 0
AllFit o t =
    ((v : MergeableString) → o ≡ Option.some v → FitsUint32 v.point)
    × ((p : Hlc) → t ≡ Option.some p → FitsUint32 p)

pub hlc_from_pb-to_pb : (h : Hlc) → FitsUint32 h → hlc_from_pb (hlc_to_pb h) ≡ h
unfolding hlc_from_pb hlc_to_pb
hlc_from_pb-to_pb h fits = ground arith

string_from_pb-to_pb :
    (m : MergeableString) → FitsUint32 m.point → string_from_pb (string_to_pb m) ≡ m
unfolding string_from_pb string_to_pb
string_from_pb-to_pb m fits = ground (arith, hlc_from_pb-to_pb m.point fits)

map-string :
    (o : Option MergeableString)
    → ((v : MergeableString) → o ≡ Option.some v → FitsUint32 v.point)
    → Option.map string_from_pb (Option.map string_to_pb o) ≡ o
map-string Option.none h = refl
map-string (Option.some v) h = ap Option.some (string_from_pb-to_pb v (h v refl))

map-hlc :
    (o : Option Hlc)
    → ((p : Hlc) → o ≡ Option.some p → FitsUint32 p)
    → Option.map hlc_from_pb (Option.map hlc_to_pb o) ≡ o
map-hlc Option.none h = refl
map-hlc (Option.some v) h = ap Option.some (hlc_from_pb-to_pb v (h v refl))

-- A document whose node IDs fit 32 bits comes back from the wire as it was: the same clock, the same
-- mark, and the same register and tombstone for each key.
pub map_from_pb-to_pb :
    (m : MergeableMap)
    → FitsUint32 m.point
    → ((k : String) → AllFit (lookup k m.map) (lookup k m.tombstones))
    → ((map_from_pb (map_to_pb m)).point ≡ m.point)
      × ((map_from_pb (map_to_pb m)).deleted ≡ m.deleted)
      × ((k : String) → lookup k (map_from_pb (map_to_pb m)).map ≡ lookup k m.map)
      × ((k : String) → lookup k (map_from_pb (map_to_pb m)).tombstones ≡ lookup k m.tombstones)
unfolding map_from_pb map_to_pb
map_from_pb-to_pb m fits h = (
  hlc_from_pb-to_pb m.point fits,
  refl,
  λ k. rw (lookup-copy_with, lookup-copy_with, map-string (lookup k m.map) (h k).0),
  λ k. rw (lookup-copy_with, lookup-copy_with, map-hlc (lookup k m.tombstones) (h k).1),
)
