-- ===== src/Crdt/Hlc.antt =====
-- The hybrid logical clock of BancoReplicado/crdt/crdt.go. Its fields are Go's int64 and int, so
-- sums and differences wrap at 64 bits. A reading of the wall clock is an argument.
pub mod Order
pub mod Advance
use grupo.Prelude.{◌≡◌, ◌⊎◌, ◌^◌, ◌<◌, ◌+◌, if◌then◌else◌}
use grupo.Prelude.Int.{ℤ, pos, pos_part, IsNatural, ltb_ℤ, ◌==ℤ◌, ◌<ℤ◌, add64, sub64}

pub record Hlc : Type 0 where
  pub timestamp : ℤ
  pub counter : ℤ
  pub node_id : ℤ

unfoldable pub max_int : ℤ → ℤ → ℤ
max_int a b = if ltb_ℤ b a then a else b

-- (local HLC) Increment(), where `now` is what time.Now().UnixNano() returns.
unfoldable pub increment : ℤ → Hlc → Hlc
increment now h =
    if ltb_ℤ h.timestamp now
    then record h { timestamp = now; counter = pos 0 }
    else record h { counter = add64 h.counter (pos 1) }

-- (p1 HLC) Cmp(p2 HLC) int
cmp_node : ℤ → ℤ → ℤ
cmp_node a b = if ltb_ℤ b a then pos 1 else if ltb_ℤ a b then ℤ.negsuc 0 else pos 0

unfoldable pub cmp : Hlc → Hlc → ℤ
unfolding cmp_node
cmp p q =
    if p.timestamp ==ℤ q.timestamp
    then (if p.counter ==ℤ q.counter
        then cmp_node p.node_id q.node_id
        else sub64 p.counter q.counter)
    else sub64 p.timestamp q.timestamp

-- (local HLC) Merge(remote HLC): the node of the result is the local one.
unfoldable pub merge : Hlc → Hlc → Hlc
unfolding max_int
merge l r =
    if l.timestamp ==ℤ r.timestamp
    then record l { counter = add64 (max_int l.counter r.counter) (pos 1) }
    else if ltb_ℤ r.timestamp l.timestamp
    then record l { counter = add64 l.counter (pos 1) }
    else record l { timestamp = r.timestamp; counter = add64 r.counter (pos 1) }

-- NowHLC(nodeID) and NullHLC()
now_hlc : ℤ → ℤ → Hlc
now_hlc now node = record { timestamp = now; counter = pos 0; node_id = node }

null_hlc : Hlc
null_hlc = record { timestamp = pos 0; counter = pos 0; node_id = pos 0 }

-- The clocks that the program makes: the timestamp and the counter are not negative.
pub record IsValid (h : Hlc) : Type 0 where
  pub timestamp_ok : IsNatural h.timestamp
  pub counter_ok : IsNatural h.counter

-- The counter can still be raised by one.
abbrev pub HasRoom : Hlc → Type 0
HasRoom h = pos_part h.counter + 1 < 2 ^ 63

-- The order on (timestamp, counter), and on whole clocks with the node as the last resort.
abbrev pub Earlier : Hlc → Hlc → Type 0
Earlier p q =
    (p.timestamp <ℤ q.timestamp) ⊎ ((p.timestamp ≡ q.timestamp) × (p.counter <ℤ q.counter))

abbrev pub Before : Hlc → Hlc → Type 0
Before p q =
    Earlier p q ⊎ ((p.timestamp ≡ q.timestamp) × (p.counter ≡ q.counter) × (p.node_id <ℤ q.node_id))
