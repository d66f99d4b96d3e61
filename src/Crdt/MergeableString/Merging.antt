-- ===== src/Crdt/MergeableString/Merging.antt =====
-- Which of two writes a merge keeps, which it keeps of a sequence, and where a write is lost.
use grupo.Prelude.{◌≡◌, List, [], ◌∷◌, ◌++◌, All, inl, if◌then◌else◌, arith}
use grupo.Prelude.Int.{IsNatural, nonneg, ltb_ℤ, ◌<ℤ◌}
use grupo.Crdt.Hlc
use grupo.Crdt.Hlc.{Hlc, IsValid, HasRoom, Earlier, Before, cmp}
use grupo.Crdt.Hlc.Order.{cmp-neg, cmp_later, cmp_by_timestamp}
use grupo.Crdt.Hlc.Advance.{merge_least, timestamp-merge}
use grupo.Crdt.MergeableString.{MergeableString, merge}

-- The value that a merge keeps.
pub value-merge :
    (m o : MergeableString)
    → (merge m o).value ≡ (if nonneg (cmp m.point o.point) then m.value else o.value)
unfolding merge
value-merge m o = ground arith

pub point-merge : (m o : MergeableString) → (merge m o).point ≡ Hlc.merge m.point o.point
unfolding merge
point-merge m o = ground arith

timestamp-point-merge :
    (m o : MergeableString)
    → (merge m o).point.timestamp
      ≡ (if ltb_ℤ m.point.timestamp o.point.timestamp then o.point.timestamp else m.point.timestamp)
timestamp-point-merge m o = rw point-merge (timestamp-merge m.point o.point)

-- The clock of a merge lies beyond both clocks.
pub point-merge_beyond :
    (m o : MergeableString)
    → IsValid m.point
    → IsValid o.point
    → HasRoom m.point
    → HasRoom o.point
    → IsValid (merge m o).point
      × Earlier m.point (merge m o).point
      × Earlier o.point (merge m o).point
point-merge_beyond m o v w a b =
    rw point-merge (let l = merge_least m.point o.point v w a b in (l.0, l.1, l.2))

Before-Earlier : (p q r : Hlc) → Before p q → Earlier q r → Before p r
Before-Earlier p q r h k = ground arith

-- Of two valid writes a merge keeps the value of the later one, whichever of the two replicas merges.
pub merge_later_wins :
    (m o : MergeableString)
    → IsValid m.point
    → IsValid o.point
    → Before m.point o.point
    → ((merge m o).value ≡ o.value) × ((merge o m).value ≡ o.value)
merge_later_wins m o v w b = (
  rw (value-merge, (cmp-neg m.point o.point v w).1 b),
  rw (value-merge, cmp_later m.point o.point v w b),
)

-- Merging a state that was already merged keeps the value, and yet moves the clock on: the merge
-- is not idempotent on the clock. The clocks are valid, with room in their counters.
pub merge_again :
    (m o : MergeableString)
    → IsValid m.point
    → IsValid o.point
    → HasRoom m.point
    → HasRoom o.point
    → HasRoom (merge m o).point
    → ((merge (merge m o) o).value ≡ (merge m o).value)
      × Earlier (merge m o).point (merge (merge m o) o).point
merge_again m o v w a b c =
    let first = point-merge_beyond m o v w a b in
    let second = point-merge_beyond (merge m o) o first.0 w c b in
    (
      rw (value-merge (merge m o) o, cmp_later o.point (merge m o).point w first.0 (inl first.2)),
      second.1,
    )

-- A write `c` later than `a` and `b`, but not later than the clock that their merge makes, is lost
-- by the replica that merged `a` and `b` first, and kept by the one that merged `c` into `b` first:
-- the order of delivery decides the value. The clocks are valid, with room in their counters.
pub late_write_lost :
    (a b c : MergeableString)
    → IsValid a.point
    → IsValid b.point
    → IsValid c.point
    → HasRoom a.point
    → HasRoom b.point
    → HasRoom c.point
    → Before a.point c.point
    → Before b.point c.point
    → Before c.point (merge a b).point
    → ((merge (merge a b) c).value ≡ (merge a b).value) × ((merge a (merge b c)).value ≡ c.value)
late_write_lost a b c v w x ra rb rc ac bc cm =
    let ab = point-merge_beyond a b v w ra rb in
    let bc' = point-merge_beyond b c w x rb rc in
    let a_first =
      (cmp-neg a.point (merge b c).point v bc'.0).1 (Before-Earlier _ c.point _ ac bc'.2) in
    (
      rw (value-merge (merge a b) c, cmp_later c.point (merge a b).point x ab.0 cm),
      rw (value-merge a (merge b c), a_first, value-merge b c, (cmp-neg b.point c.point w x).1 bc),
    )

-- The incoming states that a replica merges, in the order of delivery.
pub deliver : MergeableString → List MergeableString → MergeableString
deliver m [] = m
deliver m (o ∷ os) = deliver (merge m o) os

abbrev pub Older : MergeableString → MergeableString → Type 0
Older x o = IsNatural o.point.timestamp × (o.point.timestamp <ℤ x.point.timestamp)

deliver-Older :
    (x m : MergeableString) (os : List MergeableString)
    → IsNatural x.point.timestamp
    → m.point.timestamp ≡ x.point.timestamp
    → m.value ≡ x.value
    → All (Older x) os
    → (deliver m os).value ≡ x.value
unfolding deliver
deliver-Older x m [] n e f h = f
deliver-Older x m (o ∷ os) n e f h =
    deliver-Older x (merge m o) os n (ground (arith, timestamp-point-merge m o))
      (ground (arith, value-merge m o, cmp_by_timestamp o.point m.point)) h.1

-- A write whose timestamp is above those of the replica and of all other writes, where none is
-- negative, gives the value of the replica, at whatever place it stands among the writes received.
pub deliver_latest :
    (x m : MergeableString) (before after : List MergeableString)
    → IsNatural x.point.timestamp
    → Older x m
    → All (Older x) before
    → All (Older x) after
    → (deliver m (before ++ x ∷ after)).value ≡ x.value
unfolding deliver
deliver_latest x m [] after n h hb ha =
    deliver-Older x (merge m x) after n (ground (arith, timestamp-point-merge m x))
      (ground (arith, value-merge m x, cmp_by_timestamp m.point x.point)) ha
deliver_latest x m (o ∷ os) after n h hb ha =
    deliver_latest x (merge m o) os after n (ground (arith, timestamp-point-merge m o)) hb.1 ha
