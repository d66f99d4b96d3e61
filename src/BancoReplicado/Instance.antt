-- ===== src/BancoReplicado/Instance.antt =====
-- BancoReplicado/main.go and crdt_table.go: what an instance keeps beside its database, and the timer
-- that starts the synchronisations. A goroutine syncPendingCRDTStatesWithNode(j) that is started is the
-- number `j` in a list of those to come.
use grupo.Prelude.{
  ℕ, zero, suc, ◌-◌, String, Bool, not, ◌&&◌, List, [], ◌∷◌, ◌++◌, ◌==◌, if◌then◌else◌,
}
use grupo.Prelude.GoMap.{GoMap}
use grupo.BancoReplicado.Transaction.{World}
use grupo.BancoReplicado.Replication.{peers}

-- VisEvent, of the kinds that a handler and the timer send
pub data Event : Type 0 where
  create_table_event delete_table_event : String → Event
  put_document patch_document : String → GoMap String → Event
  delete_document : String → Event
  timer_event : ℕ → Event

-- The fields of Instance that the handlers use, with the flags baseNodeID and nodeCount; `events` is
-- what went into visEventsChannel, `syncing` the synchronisations that were started.
pub record Instance (Tx : Type 0) : Type 0 where
  pub node_id : ℕ
  pub base_node_id : ℕ
  pub node_count : ℕ
  pub world : World Tx
  pub offline : Bool
  pub timer_disabled : Bool
  pub events : List Event
  pub syncing : List ℕ

module _ {Tx : Type 0} where
  abbrev pub is_offline : Instance Tx → Bool
  is_offline i = i.offline

  abbrev pub is_crdt_timer_enabled : Instance Tx → Bool
  is_crdt_timer_enabled i = not i.timer_disabled

  -- syncPendingCRDTStates()
  unfoldable pub sync_pending : Instance Tx → Instance Tx
  sync_pending i =
      if is_offline i
      then i
      else record i { syncing = i.syncing ++ peers i.node_id i.base_node_id i.node_count }

  -- The counter goes down by one, and from 10 on again after a synchronisation.
  count_down : ℕ → Instance Tx → ℕ × Instance Tx
  count_down counter i = if counter - 1 == 0 then (10, sync_pending i) else (counter - 1, i)

  -- The event, which is taken at once: the send waits for the goroutine that broadcasts events, and a
  -- loop that is not taken further stays as it is here.
  announce : ℕ × Instance Tx → ℕ × Instance Tx
  announce (counter, i) = (counter, record i { events = i.events ++ timer_event counter ∷ [] })

  -- startCRDTTimer(): one round of its loop, after the sleep.
  unfoldable pub timer_round : ℕ × Instance Tx → ℕ × Instance Tx
  unfolding count_down announce
  timer_round (counter, i) =
      if not (is_offline i) && is_crdt_timer_enabled i
      then announce (count_down counter i)
      else (counter, i)

  -- The rounds from counter 10 on.
  unfoldable pub timer_rounds : ℕ → ℕ × Instance Tx → ℕ × Instance Tx
  timer_rounds zero s = s
  timer_rounds (suc n) s = timer_rounds n (timer_round s)

  unfoldable pub start_crdt_timer : ℕ → Instance Tx → ℕ × Instance Tx
  start_crdt_timer n i = timer_rounds n (10, i)
