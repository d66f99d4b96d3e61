-- ===== src/RicartAgrawala/System/Entering.antt =====
-- When a process that waits gets on: into the critical section, or to the end of its start.
use grupo.Prelude.{ℕ, ◌+◌, ◌≤◌, ◌<◌, String, List, ◌≡◌, refl, sym, ◌∙◌, some, arith}
use grupo.Prelude.Int.{ℤ}
use grupo.RicartAgrawala.Utils.{held}
use grupo.RicartAgrawala.Process.{
  Process, change_state, permission_received, clear_reply_counter, enter_critical_section,
  wait_all_processes_replies, number_of_processes,
}
use grupo.RicartAgrawala.System.{greeting, waiting, System, Reach}
use grupo.RicartAgrawala.Counter
use grupo.RicartAgrawala.System.StartUp.{Listed, channel, start}
use grupo.RicartAgrawala.System.Invariant.{Group}
use grupo.RicartAgrawala.System.Awaiting.{waited}
use grupo.RicartAgrawala.System.Reached.{started-Inv}

signalled_enters :
    (p : Process)
    → p.received_all_replies ≡ 1
    → (p' : Process) × (enter_critical_section p ≡ some p') × (p'.state ≡ held)
unfolding enter_critical_section wait_all_processes_replies change_state
signalled_enters p e =
    (change_state held (record p { received_all_replies = 0 }), ground (arith, e), refl)

signalled_begins :
    (p : Process)
    → p.received_all_replies ≡ 1
    → (p' : Process) × (permission_received p ≡ some p') × (p'.s.counter ≡ 0)
unfolding permission_received wait_all_processes_replies clear_reply_counter Counter.clear
signalled_begins p e =
    (clear_reply_counter (record p { received_all_replies = 0 }), ground (arith, e), refl)

module _ (n : ℕ) (addr : ℕ → String) (ids : ℕ → ℤ) (lists : ℕ → List String)
    (listed : Listed n addr ids lists) (group : Group n addr ids (channel n addr ids lists)) where
  -- When messages are handled at once, in a group of two processes or more, in every state that a run from the end of startProcess
  -- reaches, a process that waits for the replies gets on to the state HELD as soon as it has counted
  -- as many replies as there are other processes, and not before: no signal is lost, and none comes
  -- early.
  pub enters_with_all_replies :
      (t : System)
      → Reach n (start n addr ids lists) t
      → 2 ≤ n
      → (i : ℕ) → i < n
      → (t i).phase ≡ waiting
      → ((t i).process.s.counter + 1 ≡ number_of_processes (t i).process
          → (p : Process) × (enter_critical_section (t i).process ≡ some p) × (p.state ≡ held))
        × ((p : Process)
            → wait_all_processes_replies (t i).process ≡ some p
            → (t i).process.s.counter + 1 ≡ number_of_processes (t i).process)
  enters_with_all_replies t run two i hi w =
      let (got, inv) = started-Inv n addr ids lists listed group t run in
      let row = inv.row i hi in
      let members = (inv.fixed i hi).members in
      (
        λ c. signalled_enters (t i).process (row.signal_there two (rw w refl) (c ∙ members)),
        λ p e.
            let (k, received, _) = waited (t i).process p e in
            (row.signalled (omega (arith, received))).1 ∙ sym members,
      )

  -- When messages are handled at once, in a group of two processes or more, in every state that a run from the end of startProcess
  -- reaches, a process that waits for the permissions at its start gets on, with its counter at zero
  -- again, as soon as it has counted as many as there are other processes, and not before.
  pub begins_with_all_permissions :
      (t : System)
      → Reach n (start n addr ids lists) t
      → 2 ≤ n
      → (i : ℕ) → i < n
      → (t i).phase ≡ greeting
      → ((t i).process.s.counter + 1 ≡ number_of_processes (t i).process
          → (p : Process) × (permission_received (t i).process ≡ some p) × (p.s.counter ≡ 0))
        × ((p : Process)
            → wait_all_processes_replies (t i).process ≡ some p
            → (t i).process.s.counter + 1 ≡ number_of_processes (t i).process)
  begins_with_all_permissions t run two i hi w =
      let (got, inv) = started-Inv n addr ids lists listed group t run in
      let row = inv.row i hi in
      let members = (inv.fixed i hi).members in
      (
        λ c. signalled_begins (t i).process (row.signal_there two (rw w refl) (c ∙ members)),
        λ p e.
            let (k, received, _) = waited (t i).process p e in
            (row.signalled (omega (arith, received))).1 ∙ sym members,
      )
