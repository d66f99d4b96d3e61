-- ===== src/BancoReplicado/Tests/Launching.antt =====
-- Three nodes from number 1 on, and the theorem on them.
use grupo.Prelude.{true, false, ◌≡◌, refl, [], ◌∷◌, arith}
use grupo.Prelude.Bytes.{without}
use grupo.BancoReplicado.Replication.{peers}
use grupo.BancoReplicado.Launch.{
  Flags, color_of, run_instance, with_node, run_from, main, nodes_of, main-peers,
}

abbrev three : Flags
three = record { base_http_port = 3000; base_rpc_port = 8000; base_node_id = 1; node_count = 3 }

all_started : nodes_of (main three) ≡ 1 ∷ 2 ∷ 3 ∷ []
unfolding main run_from run_instance with_node color_of
all_started = refl

-- A node with the number 0 panics before it is started.
from_zero : main (record three { base_node_id = 0 }) ≡ ([], true)
unfolding main run_from run_instance with_node color_of
from_zero = refl

main-peers_example : ((main three).1 ≡ false) × (peers 2 1 3 ≡ without 2 (nodes_of (main three)))
main-peers_example = main-peers three 2 (omega arith) (omega arith)
