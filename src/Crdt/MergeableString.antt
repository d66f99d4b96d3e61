-- ===== src/Crdt/MergeableString.antt =====
-- The last-writer-wins register of BancoReplicado/crdt/crdt.go.
pub mod Merging
use grupo.Prelude.{String, if◌then◌else◌}
use grupo.Prelude.Int.{nonneg}
use grupo.Crdt.Hlc
use grupo.Crdt.Hlc.{Hlc}

pub record MergeableString : Type 0 where
  pub value : String
  pub point : Hlc

-- (m MergeableString) Merge(other MergeableString)
unfoldable pub merge : MergeableString → MergeableString → MergeableString
merge m other =
    let new_point = Hlc.merge m.point other.point in
    if nonneg (Hlc.cmp m.point other.point)
    then record m { point = new_point }
    else record other { point = new_point }
