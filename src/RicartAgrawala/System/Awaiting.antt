-- ===== src/RicartAgrawala/System/Awaiting.antt =====
-- The steps behind a wait for replies or for permissions.
use grupo.Prelude.{
  ℕ, ◌+◌, ◌<◌, ◌^◌, String, true, false, ◌≡◌, refl, sym, some, inl, inr, ◌⊎◌, ◌∙◌, ◌-◌, arith,
}
use mathlib.Core.Path.{subst}
use grupo.RicartAgrawala.Counter
use grupo.Prelude.Int.{ℤ, pos_part}
use grupo.RicartAgrawala.Process.{
  Process, update_timestamp, wait_all_processes_replies, clear_reply_counter,
}
use grupo.RicartAgrawala.System.{Phase, greeting, greeted, idle, waiting, granted, Node}
use grupo.RicartAgrawala.System.Tally.{total-full}
use grupo.RicartAgrawala.System.Later.{Later, tick-Later}
use grupo.RicartAgrawala.System.Phases.{entered, starting, begun, awaiting, state_of}
use grupo.RicartAgrawala.System.Invariant.{Seen, Fixed, Local, Row}
use grupo.RicartAgrawala.System.Quiet.{Kept, Onward, quiet-Kept, received-Row}

pub waited :
    (p p' : Process)
    → wait_all_processes_replies p ≡ some p'
    → (k : ℕ) × (p.received_all_replies ≡ k + 1) × (p' ≡ record p { received_all_replies = k })
unfolding wait_all_processes_replies
waited p p' e = (p.received_all_replies - 1, ground arith, ground arith)

module _ (n : ℕ) (addr : ℕ → String) (ids : ℕ → ℤ) (chan : ℕ → ℕ → ℕ) (a : ℕ) (x : Node)
    (got : ℕ → Seen) (fixed : Fixed n addr ids chan a x.process) (local : Local n addr ids chan x)
    (row : Row n addr ids chan a x got) (room : pos_part x.process.timestamp + 3 < 2 ^ 63) where
  -- The wait is over.
  waited-Kept :
      (k : ℕ) (phase : Phase)
      → a < n
      → x.process.received_all_replies ≡ k + 1
      → state_of phase ≡ state_of x.phase
      → awaiting phase ≡ false
      → starting phase ≡ starting x.phase
      → Onward x.phase phase
      → (entered phase ≡ true → starting x.phase ≡ false)
      → (begun phase ≡ true → (begun x.phase ≡ true) ⊎ (starting x.phase ≡ true))
      → Kept n addr ids chan a x
          (record { process = record x.process { received_all_replies = k }; phase = phase })
          got
          got
  waited-Kept k phase lt e st q o on c b =
      let p' = record x.process { received_all_replies = k } in
      let l : Later x.process p' = record {
        address = refl;
        id = refl;
        addresses = refl;
        channel_index = refl;
        natural = local.clock;
        passed = omega arith;
      } in
      let full : x.process.s.counter + 1 ≡ n = (row.signalled (omega arith)).1 in
      quiet-Kept n addr ids chan a x got fixed local row room p' phase l
        (record { spawned = refl; buffer = refl; channels = refl }) refl (local.state ∙ sym st) on
        (λ h. inr (λ j hj ne.
          total-full n (λ (u : ℕ). (got u).reply) a j lt hj ne row.own
            (ground (arith, full, row.counted, c h))))
        (λ h. elim (b h) [
          | inl before ↦ inl before
          | inr starts ↦ inr (λ j hj ne.
              total-full n (λ (u : ℕ). (got u).permission) a j lt hj ne row.own_permission
                (ground (arith, full, row.counted, starts)))
        ])
        (received-Row n addr ids chan a x got fixed local row room k phase e q o
          (λ u. sym on.still_open ∙ u))

  pub pass-Kept :
      (p : Process)
      → a < n
      → x.phase ≡ waiting
      → wait_all_processes_replies x.process ≡ some p
      → Kept n addr ids chan a x (record { process = p; phase = granted }) got got
  pass-Kept p lt e o =
      let (k, received, is_p) = waited x.process p o in
      subst
        (λ (p' : Process).
          Kept n addr ids chan a x (record { process = p'; phase = granted }) got got)
        (sym is_p)
        (waited-Kept k granted lt received (rw e refl) refl (rw e refl)
          (record { still_open = rw e refl; competed = λ c. rw e refl; still_invited = rw e refl })
          (λ h. rw e refl) (λ h. inl (rw e refl)))

  pub begin-Kept :
      (p : Process)
      → a < n
      → x.phase ≡ greeting
      → wait_all_processes_replies x.process ≡ some p
      → Kept n addr ids chan a x (record { process = p; phase = greeted }) got got
  begin-Kept p lt e o =
      let (k, received, is_p) = waited x.process p o in
      subst
        (λ (p' : Process).
          Kept n addr ids chan a x (record { process = p'; phase = greeted }) got got)
        (sym is_p)
        (waited-Kept k greeted lt received (rw e refl) refl (rw e refl)
          (record {
            still_open = rw e refl;
            competed = λ c. absurd (ground arith);
            still_invited = rw e refl;
          })
          (λ h. absurd (ground arith)) (λ h. inr (rw e refl)))

  pub ready-Kept :
      x.phase ≡ greeted
      → Kept n addr ids chan a x
          (record { process = clear_reply_counter x.process; phase = idle })
          got
          got
  unfolding clear_reply_counter Counter.clear update_timestamp
  ready-Kept e =
      let p' = clear_reply_counter x.process in
      let t = (tick-Later x.process local.clock (omega arith)).0 in
      quiet-Kept n addr ids chan a x got fixed local row room p' idle
        (record {
          address = refl;
          id = refl;
          addresses = refl;
          channel_index = refl;
          natural = t.natural;
          passed = t.passed;
        })
        (record { spawned = refl; buffer = refl; channels = refl }) refl (local.state ∙ rw e refl)
        (record {
          still_open = rw e refl;
          competed = λ c. absurd (ground arith);
          still_invited = rw e refl;
        })
        (λ h. absurd (ground arith)) (λ h. inl (rw e refl))
        (record {
          own = row.own;
          own_permission = row.own_permission;
          counted = sym (row.fresh (rw e refl));
          one_signal = row.one_signal;
          signalled = λ k. absurd (ground (arith, row.signalled k));
          fresh = λ o. row.fresh (rw e refl);
          signal_there = λ m w k. absurd (ground arith);
        })
