-- ===== src/Crdt/Hlc/Order.antt =====
-- The sign of `cmp` is the order of the clocks, while their fields are in range.
use grupo.Prelude.{
  ◌⊎◌, ◌≡◌, ◌≢◌, not, inl, inr, Bool-cases, ◌↔◌, ◌≤◌, ◌+◌, ◌^◌, true, false, arith, if◌then◌else◌,
}
use grupo.Prelude.Int.{
  IsNatural, ℤ, pos, pos_part, neg_part, IsInt64, nonneg, ltb_ℤ, sub64, wrap64_self, wrap64_high,
  ◌-ℤ◌, ◌<ℤ◌,
}
use grupo.Crdt.Hlc.{Hlc, cmp, IsValid, Before}

sub64-nonneg :
    (a b : ℤ) → IsNatural a → IsNatural b → nonneg (sub64 a b) ≡ (if ltb_ℤ a b then false else true)
unfolding sub64
sub64-nonneg a b p q = ground (arith, wrap64_self (a -ℤ b))

sub64-eq-zero : (a b : ℤ) → IsNatural a → IsNatural b → sub64 a b ≡ pos 0 → a ≡ b
unfolding sub64
sub64-eq-zero a b p q h = ground (arith, wrap64_self (a -ℤ b))

Before-asymm : (p q : Hlc) → Before p q → ¬ (Before q p)
Before-asymm p q h k = ground arith

pub cmp-neg : (p q : Hlc) → IsValid p → IsValid q → (nonneg (cmp p q) ≡ false) ↔ Before p q
unfolding cmp
cmp-neg p q v w =
    ground (arith, sub64-nonneg p.timestamp q.timestamp, sub64-nonneg p.counter q.counter)

pub cmp-zero : (p q : Hlc) → IsValid p → IsValid q → cmp p q ≡ pos 0 → p ≡ q
unfolding cmp
cmp-zero p q v w h =
    ground (arith, sub64-eq-zero p.timestamp q.timestamp, sub64-eq-zero p.counter q.counter)

pub cmp_self : (p : Hlc) → cmp p p ≡ pos 0
unfolding cmp
cmp_self p = ground arith

-- On two valid clocks `cmp` is negative exactly when the first stands before the second by
-- timestamp, then counter, then node, and it is zero exactly when they are equal.
pub cmp_order :
    (p q : Hlc)
    → IsValid p
    → IsValid q
    → ((nonneg (cmp p q) ≡ false) ↔ Before p q) × ((cmp p q ≡ pos 0) ↔ (p ≡ q))
cmp_order p q v w = (cmp-neg p q v w, (cmp-zero p q v w, λ e. rw e (cmp_self q)))

-- Of two valid clocks that differ, exactly one stands before the other by `cmp`.
pub cmp_antisymmetric :
    (p q : Hlc) → IsValid p → IsValid q → p ≢ q → nonneg (cmp p q) ≡ not (nonneg (cmp q p))
unfolding cmp
cmp_antisymmetric p q v w = ground (
  arith,
  sub64-nonneg p.timestamp q.timestamp,
  sub64-nonneg p.counter q.counter,
  sub64-nonneg q.timestamp p.timestamp,
  sub64-nonneg q.counter p.counter,
)

-- Two timestamps of int64 that lie 2 ^ 63 or more apart: the difference wraps, and `cmp` says that
-- the later clock is the earlier one.
pub cmp_overflow :
    (p q : Hlc)
    → IsInt64 p.timestamp
    → IsInt64 q.timestamp
    → pos_part q.timestamp + neg_part p.timestamp + 2 ^ 63
      ≤ pos_part p.timestamp + neg_part q.timestamp
    → (q.timestamp <ℤ p.timestamp) × (nonneg (cmp p q) ≡ false)
unfolding cmp sub64
cmp_overflow p q v w far = ground (arith, wrap64_high (pos_part (p.timestamp -ℤ q.timestamp)))

-- `cmp` from the timestamps alone: the counters and nodes may be anything.
pub cmp_by_timestamp :
    (p q : Hlc)
    → IsNatural p.timestamp
    → IsNatural q.timestamp
    → p.timestamp <ℤ q.timestamp
    → (nonneg (cmp p q) ≡ false) × (nonneg (cmp q p) ≡ true)
unfolding cmp
cmp_by_timestamp p q v w h =
    ground (arith, sub64-nonneg p.timestamp q.timestamp, sub64-nonneg q.timestamp p.timestamp)

pub cmp_later : (p q : Hlc) → IsValid p → IsValid q → Before p q → nonneg (cmp q p) ≡ true
cmp_later p q v w h = elim (Bool-cases (nonneg (cmp q p))) [
  | inl yes' ↦ yes'
  | inr earlier ↦ absurd (Before-asymm p q h ((cmp-neg q p w v).0 earlier))
]

pub Before-trichotomy : (p q : Hlc) → (Before p q ⊎ Before q p) ⊎ (p ≡ q)
Before-trichotomy p q = ground arith
