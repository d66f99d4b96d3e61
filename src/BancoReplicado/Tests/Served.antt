-- ===== src/BancoReplicado/Tests/Served.antt =====
-- Runs of the handlers, and the theorems at concrete inputs.
use text.Mathlib.Text.{starts_with}
use grupo.Prelude.{none, true, false, ◌≡◌, refl, [], ◌∷◌}
use grupo.Prelude.GoMap.{has, lookup, insert}
use grupo.BancoReplicado.Exec.{ok, panic}
use grupo.BancoReplicado.Store.Memory.{Buckets, byte, doc_value, memory, memory_laws, plain}
use grupo.BancoReplicado.Transaction.{World}
use grupo.BancoReplicado.RaftTable
use grupo.BancoReplicado.CrdtTable
use grupo.BancoReplicado.Database
use grupo.BancoReplicado.Database.{get_table as found_table}
use grupo.BancoReplicado.Database.Tables.{put_doc-get_table}
use grupo.BancoReplicado.Instance.{Instance}
use grupo.BancoReplicado.Http.Listing.{answered, list_table-get_doc}
use grupo.BancoReplicado.Store.{Visits}
use grupo.BancoReplicado.Http.{
  get_doc, get_table, table_body, handle_get_table, server_error, serve, handle_get_doc, finish,
}
use grupo.BancoReplicado.Replication.{open_tx, rolled_back}
use grupo.BancoReplicado.Tests.{world, body}

abbrev node : Instance Buckets
node = record {
  node_id = 1;
  base_node_id = 1;
  node_count = 3;
  world = world;
  offline = true;
  timer_disabled = false;
  events = [];
  syncing = [];
}

no_document :
    (serve memory plain (get_doc "people" "d2") (record node { offline = false })).0
    ≡ server_error "document does not exist"
unfolding serve handle_get_doc finish open_tx rolled_back found_table has lookup Database.get_doc
    CrdtTable.get_doc CrdtTable.existing
no_document = refl

abbrev flagged : World Buckets
flagged = record world { tx = ("cities", ("__consistency", byte 1) ∷ []) ∷ [] }

abbrev overwritten : Buckets
overwritten = ("cities", ("__consistency", doc_value body) ∷ []) ∷ []

put_doc-get_table_example :
    (RaftTable.put_doc memory plain "cities" "__consistency" body flagged
      ≡ (ok tt, record flagged { tx = overwritten }))
    × (found_table memory plain 1 "cities" (record flagged { tx = overwritten })
        ≡ (panic, record flagged { tx = overwritten }))
unfolding has lookup insert
put_doc-get_table_example =
    put_doc-get_table memory plain 1 memory_laws "cities" body flagged (doc_value body) overwritten
      refl refl refl refl

-- A node whose RaftTable cities holds one document.
abbrev town : Instance Buckets
town = record node {
  offline = false;
  world = record world {
    tx = ("cities", ("__consistency", byte 1) ∷ ("c1", doc_value body) ∷ []) ∷ [];
  };
}

town-Visits : Visits memory town.world.tx "cities"
unfolding has lookup
town-Visits = record { lookup-entries = λ k. refl; once = (refl, (refl, tt)) }

town_listed : (serve memory plain (get_table "cities") town).0 ≡ table_body (("c1", body) ∷ [])
unfolding serve handle_get_table finish open_tx rolled_back has lookup insert Database.get_table
    Database.for_each_doc RaftTable.for_each_doc
town_listed = refl

list_table-get_doc_example :
    (starts_with "c1" "__" ≡ false
      → lookup "c1" (("c1", body) ∷ [])
        ≡ answered (serve memory plain (get_doc "cities" "c1") town).0)
    × (starts_with "c1" "__" ≡ true → lookup "c1" (("c1", body) ∷ []) ≡ none)
list_table-get_doc_example =
    list_table-get_doc memory plain "cities" town (("c1", body) ∷ []) refl town-Visits town_listed
      "c1"
