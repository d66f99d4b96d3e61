-- ===== src/BancoReplicado/Launch.antt =====
-- BancoReplicado/main.go: the flags, and main, which runs an instance for each node. An instance is what
-- RunInstance gives it besides its database, its connections and its goroutines; uint is uint64.
use grupo.Prelude.{
  ℕ, zero, suc, ◌+◌, ◌-◌, ◌%◌, ◌^◌, ◌≤◌, ◌<◌, Bool, true, false, ◌≡◌, refl, sym, ap, ◌∙◌, Option,
  none, some, List, [], ◌∷◌, map, arith, ltb, ◌==◌, if◌then◌else◌, lt→ltb,
}
use grupo.Prelude.Bytes.{without}
use grupo.BancoReplicado.Replication.{peers}

pub record Flags : Type 0 where
  pub base_http_port : ℕ
  pub base_rpc_port : ℕ
  pub base_node_id : ℕ
  pub node_count : ℕ

-- nodeID, httpPort, rpcPort, and the index of the colour of the log.
pub record Started : Type 0 where
  pub node_id : ℕ
  pub http_port : ℕ
  pub rpc_port : ℕ
  pub color : ℕ

-- (int(nodeID)-1)%len(colors), of 14 colours: the remainder of a negative number is not positive, and a
-- negative index panics.
unfoldable pub color_of : ℕ → Option ℕ
color_of node_id =
    let before = (node_id + (2 ^ 64 - 1)) % 2 ^ 64 in
    if ltb before (2 ^ 63)
    then some (before % 14)
    else if (2 ^ 64 - before) % 14 == 0
    then some 0
    else none

-- RunInstance(nodeID): `none` is a panic.
unfoldable pub run_instance : Flags → ℕ → Option Started
run_instance flags node_id = elim (color_of node_id) [
  | none ↦ none
  | some color ↦ some (record {
    node_id = node_id;
    http_port = (flags.base_http_port + node_id) % 2 ^ 64;
    rpc_port = (flags.base_rpc_port + node_id) % 2 ^ 64;
    color = color;
  })
]

-- A node before those that follow; a panic ends the program.
unfoldable pub with_node : Option Started → List Started × Bool → List Started × Bool
with_node none later = ([], true)
with_node (some s) (later, panics) = (s ∷ later, panics)

-- The loop of main, from node `j` on, with whether it panics. Its rounds are at most nodeCount.
unfoldable pub run_from : Flags → ℕ → ℕ → List Started × Bool
run_from flags zero j = ([], false)
run_from flags (suc fuel) j =
    let later = run_from flags fuel ((j + 1) % 2 ^ 64) in
    if ltb j ((flags.base_node_id + flags.node_count) % 2 ^ 64)
    then with_node (run_instance flags j) later
    else ([], false)

unfoldable pub main : Flags → List Started × Bool
main flags = run_from flags flags.node_count flags.base_node_id

-- The nodes that were started.
abbrev pub nodes_of : List Started × Bool → List ℕ
nodes_of (started, panics) = map (λ (s : Started). s.node_id) started

color_of-some : (j : ℕ) → 1 ≤ j → j < 2 ^ 63 → color_of j ≡ some ((j - 1) % 14)
unfolding color_of
color_of-some j low high =
    let before : (j + (2 ^ 64 - 1)) % 2 ^ 64 ≡ j - 1 = omega arith in
    let small : ltb (j - 1) (2 ^ 63) ≡ true = lt→ltb (j - 1) (2 ^ 63) (omega arith) in
    rw (before, small) refl

run_instance-some :
    (flags : Flags) (j : ℕ)
    → 1 ≤ j
    → j < 2 ^ 63
    → (s : Started) × (run_instance flags j ≡ some s) × (s.node_id ≡ j)
unfolding run_instance
run_instance-some flags j low high = (
  record {
    node_id = j;
    http_port = (flags.base_http_port + j) % 2 ^ 64;
    rpc_port = (flags.base_rpc_port + j) % 2 ^ 64;
    color = (j - 1) % 14;
  },
  rw (color_of-some j low high, run_instance) refl,
  refl,
)

joined :
    (flags : Flags) (fuel j : ℕ) (s : Started)
    → (flags.base_node_id + flags.node_count) % 2 ^ 64 ≡ flags.base_node_id + flags.node_count
    → (j + 1) % 2 ^ 64 ≡ j + 1
    → ltb j (flags.base_node_id + flags.node_count) ≡ true
    → run_instance flags j ≡ some s
    → run_from flags (suc fuel) j ≡ with_node (some s) (run_from flags fuel (j + 1))
unfolding run_from
joined flags fuel j s end next inside runs = rw (end, next, inside, runs) refl

one_more :
    (flags : Flags) (fuel j : ℕ)
    → 1 ≤ j
    → j < flags.base_node_id + flags.node_count
    → flags.base_node_id + flags.node_count < 2 ^ 63
    → (nodes_of (run_from flags (suc fuel) j) ≡ j ∷ nodes_of (run_from flags fuel (j + 1)))
      × ((run_from flags (suc fuel) j).1 ≡ (run_from flags fuel (j + 1)).1)
unfolding run_from with_node
one_more flags fuel j low high bound =
    let end : (flags.base_node_id + flags.node_count) % 2 ^ 64
        ≡ flags.base_node_id + flags.node_count =
      omega arith in
    let next : (j + 1) % 2 ^ 64 ≡ j + 1 = omega arith in
    let inside : ltb j (flags.base_node_id + flags.node_count) ≡ true =
      lt→ltb j (flags.base_node_id + flags.node_count) high in
    let (s, runs, named) = run_instance-some flags j low (omega arith) in
    let whole : run_from flags (suc fuel) j ≡ with_node (some s) (run_from flags fuel (j + 1)) =
      joined flags fuel j s end next inside runs in
    (
      ap nodes_of whole ∙ ap (λ (i : ℕ). i ∷ nodes_of (run_from flags fuel (j + 1))) named,
      ap (λ (r : List Started × Bool). r.1) whole,
    )

with_head :
    (own j fuel : ℕ) (rest : List Started × Bool)
    → peers own (j + 1) fuel ≡ without own (nodes_of rest)
    → peers own j (suc fuel) ≡ without own (j ∷ nodes_of rest)
unfolding peers without
with_head own j fuel rest h = rw h refl

-- The peers of a node are those of the nodes from `j` on that were started, but itself.
run_from-peers :
    (flags : Flags) (own fuel j : ℕ)
    → 1 ≤ j
    → j + fuel ≡ flags.base_node_id + flags.node_count
    → flags.base_node_id + flags.node_count < 2 ^ 63
    → ((run_from flags fuel j).1 ≡ false)
      × (peers own j fuel ≡ without own (nodes_of (run_from flags fuel j)))
unfolding peers without run_from
run_from-peers flags own zero j low end bound = (refl, refl)
run_from-peers flags own (suc fuel) j low end bound =
    let (head, panics) = one_more flags fuel j low (omega arith) bound in
    let (ends, rest) = run_from-peers flags own fuel (j + 1) (omega arith) (omega arith) bound in
    (
      panics ∙ ends,
      with_head own j fuel (run_from flags fuel (j + 1)) rest ∙ ap (without own) (sym head),
    )

-- When the nodes are numbered from 1 or more and below 2 ^ 63, main starts all of them without a panic,
-- and the nodes to which a node sends its states, and with which it synchronises, are those that main
-- has started, but itself.
pub main-peers :
    (flags : Flags) (own : ℕ)
    → 1 ≤ flags.base_node_id
    → flags.base_node_id + flags.node_count < 2 ^ 63
    → ((main flags).1 ≡ false)
      × (peers own flags.base_node_id flags.node_count ≡ without own (nodes_of (main flags)))
unfolding main
main-peers flags own low bound =
    run_from-peers flags own flags.node_count flags.base_node_id low refl bound
