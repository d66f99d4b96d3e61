-- ===== src/Crdt/Hlc/Advance.antt =====
-- `increment` and `merge` move a clock forward.
use grupo.Prelude.{◌≡◌, arith, if◌then◌else◌}
use grupo.Prelude.Int.{IsNatural, add64_one, ℤ, ltb_ℤ}
use grupo.Crdt.Hlc.{Hlc, increment, merge, IsValid, HasRoom, Earlier}

-- Whatever the wall clock says, short of a negative time, a valid clock with room moves on to a
-- later valid clock of its own node.
pub increment-Earlier :
    (now : ℤ) (h : Hlc)
    → IsNatural now
    → IsValid h
    → HasRoom h
    → Earlier h (increment now h)
      × IsValid (increment now h)
      × ((increment now h).node_id ≡ h.node_id)
unfolding increment
increment-Earlier now h n v r =
    (ground (arith, add64_one h.counter), ground (arith, add64_one h.counter), ground arith)

-- The merge of two valid clocks with room is valid and later than both, and no clock that is later
-- than both is earlier than it.
pub merge_least :
    (l r : Hlc)
    → IsValid l
    → IsValid r
    → HasRoom l
    → HasRoom r
    → IsValid (merge l r)
      × Earlier l (merge l r)
      × Earlier r (merge l r)
      × ((u : Hlc) → Earlier l u → Earlier r u → ¬ (Earlier u (merge l r)))
unfolding merge
merge_least l r v w a b = (
  ground (arith, add64_one l.counter, add64_one r.counter),
  ground (arith, add64_one l.counter, add64_one r.counter),
  ground (arith, add64_one l.counter, add64_one r.counter),
  λ u x y z. ground (arith, add64_one l.counter, add64_one r.counter),
)

-- Both orders of a merge give the same timestamp and counter; the node is that of the receiver.
pub merge_comm :
    (l r : Hlc)
    → ((merge l r).timestamp ≡ (merge r l).timestamp)
      × ((merge l r).counter ≡ (merge r l).counter)
      × ((merge l r).node_id ≡ l.node_id)
unfolding merge
merge_comm l r = (ground arith, ground arith, ground arith)

pub timestamp-merge :
    (l r : Hlc)
    → (merge l r).timestamp ≡ (if ltb_ℤ l.timestamp r.timestamp then r.timestamp else l.timestamp)
unfolding merge
timestamp-merge l r = ground arith
