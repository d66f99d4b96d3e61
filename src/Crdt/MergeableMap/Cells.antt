-- ===== src/Crdt/MergeableMap/Cells.antt =====
-- What a document says of one key, and how two replicas' words on a key are joined. This is the
-- specification of `merge`: it knows of no loop, no order of keys and no panic.
use grupo.Prelude.{String, false, ◌≡◌, Option, none, some, ◌&&◌, if◌then◌else◌}
use grupo.Prelude.Int.{nonneg}
use grupo.Prelude.GoMap.{lookup, has}
use grupo.Crdt.Hlc
use grupo.Crdt.Hlc.{Hlc}
use grupo.Crdt.MergeableString
use grupo.Crdt.MergeableString.{MergeableString}
use grupo.Crdt.MergeableMap.{MergeableMap}

pub data Cell : Type 0 where
  absent : Cell
  live : MergeableString → Cell
  dead : Hlc → Cell

abbrev pub to_cell : Option MergeableString → Option Hlc → Cell
to_cell (some v) t = live v
to_cell none (some p) = dead p
to_cell none none = absent

abbrev pub cell : MergeableMap → String → Cell
cell m k = to_cell (lookup k m.map) (lookup k m.tombstones)

-- A write meets a removal: the write stays if its clock is not earlier.
abbrev pub survive : MergeableString → Hlc → Cell
survive v p = if nonneg (Hlc.cmp v.point p) then live v else dead p

abbrev pub join : Cell → Cell → Cell
join absent c = c
join (live v) absent = live v
join (live v) (live w) = live (MergeableString.merge v w)
join (live v) (dead p) = survive v p
join (dead p) absent = dead p
join (dead p) (live v) = survive v p
join (dead p) (dead q) = dead (Hlc.merge p q)

-- No key is both bound and removed.
abbrev pub IsWellFormed : MergeableMap → Type 0
IsWellFormed m = (k : String) → (has k m.map && has k m.tombstones) ≡ false
