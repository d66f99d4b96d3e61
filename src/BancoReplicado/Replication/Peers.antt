-- ===== src/BancoReplicado/Replication/Peers.antt =====
-- Whom a node sends to, and which states it asks the others to retry.
use grupo.Prelude.{
  ℕ, zero, suc, ◌+◌, Bool, false, ◌≡◌, List, [], ◌∷◌, ◌&&◌, ◌||◌, not, arith, leb, ltb, ◌==◌,
}
use grupo.BancoReplicado.Replication.{peers}

-- Whether a number stands in a list.
abbrev pub among : ℕ → List ℕ → Bool
among j [] = false
among j (i ∷ js) = (i == j) || among j js

-- The other nodes are exactly the `count` nodes from the base on, but for the own one.
pub among-peers :
    (own base count j : ℕ)
    → among j (peers own base count) ≡ (leb base j && (ltb j (base + count) && not (j == own)))
unfolding peers
among-peers own base zero j = ground arith
among-peers own base (suc count) j = ground (arith, among-peers own (base + 1) count j)
