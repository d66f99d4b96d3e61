-- ===== src/RicartAgrawala/System/Moving.antt =====
-- Steps of one process that touch no list: changeState, updateRequestTimestamp, and the end of
-- leaveCriticalSection.
use grupo.Prelude.{
  ℕ, ◌+◌, ◌<◌, ◌^◌, String, Bool, true, false, ◌≡◌, refl, sym, ap, inl, inr, ◌∙◌, arith,
}
use mathlib.Core.Path.{subst}
use grupo.RicartAgrawala.Counter
use grupo.Prelude.Int.{ℤ, pos_part}
use grupo.RicartAgrawala.Utils.{wanted, released, held}
use grupo.RicartAgrawala.Process.{
  Process, change_state, update_timestamp, update_request_timestamp, is_message_queue_empty,
  clear_reply_counter, tick,
}
use grupo.RicartAgrawala.System.{Phase, idle, wanting, stamped, granted, inside, leaving, Node}
use grupo.RicartAgrawala.System.Tally.{total-none}
use grupo.RicartAgrawala.System.Views.{
  unsent, asked, answered, outdated, deferred, outdated-le-asked,
}
use grupo.RicartAgrawala.System.Later.{Later, tick-Later, Later-Fixed}
use grupo.RicartAgrawala.System.Phases.{entered, starting, begun, awaiting, state_of}
use grupo.RicartAgrawala.System.Invariant.{Seen, Fixed, Local, Row, undisturbed_permission}
use grupo.RicartAgrawala.System.Quiet.{
  Kept, SameLists, Onward, after_step, asked_before, quiet-Kept, untouched-Row, changed_state,
}

module _ (n : ℕ) (addr : ℕ → String) (ids : ℕ → ℤ) (chan : ℕ → ℕ → ℕ) (a : ℕ) (x : Node)
    (got : ℕ → Seen) (fixed : Fixed n addr ids chan a x.process) (local : Local n addr ids chan x)
    (row : Row n addr ids chan a x got) (room : pos_part x.process.timestamp + 3 < 2 ^ 63) where
  -- changeState.
  changed-Kept :
      (state : ℕ) (phase : Phase)
      → state ≡ state_of phase
      → awaiting x.phase ≡ false
      → awaiting phase ≡ false
      → starting phase ≡ starting x.phase
      → Onward x.phase phase
      → (entered phase ≡ true → entered x.phase ≡ true)
      → (begun phase ≡ true → begun x.phase ≡ true)
      → Kept n addr ids chan a x
          (record { process = change_state state x.process; phase = phase })
          got
          got
  unfolding change_state update_timestamp
  changed-Kept state phase e q q' o on c b =
      let p' = change_state state x.process in
      quiet-Kept n addr ids chan a x got fixed local row room p' phase
        (changed_state n addr ids chan a x got fixed local row room state)
        (record { spawned = refl; buffer = refl; channels = refl }) refl e on (λ k. inl (c k))
        (λ k. inl (b k))
        (untouched-Row n addr ids chan a x got fixed local row room p' phase refl refl q q' o
          (λ k. sym on.still_open ∙ k))

  pub want-Kept :
      x.phase ≡ idle
      → Kept n addr ids chan a x
          (record { process = change_state wanted x.process; phase = wanting })
          got
          got
  want-Kept e =
      changed-Kept wanted wanting refl (rw e refl) refl (rw e refl)
        (record {
          still_open = rw e refl;
          competed = λ c. absurd (ground arith);
          still_invited = rw e refl;
        })
        (λ k. absurd (ground arith)) (λ k. rw e refl)

  pub enter-Kept :
      x.phase ≡ granted
      → Kept n addr ids chan a x
          (record { process = change_state held x.process; phase = inside })
          got
          got
  enter-Kept e =
      changed-Kept held inside refl (rw e refl) refl (rw e refl)
        (record { still_open = rw e refl; competed = λ c. rw e refl; still_invited = rw e refl })
        (λ k. rw e refl) (λ k. rw e refl)

  pub leave-Kept :
      x.phase ≡ inside
      → Kept n addr ids chan a x
          (record { process = change_state released x.process; phase = leaving })
          got
          got
  leave-Kept e =
      changed-Kept released leaving refl (rw e refl) refl (rw e refl)
        (record { still_open = rw e refl; competed = λ c. rw e refl; still_invited = rw e refl })
        (λ k. rw e refl) (λ k. rw e refl)

  pub stamp-Kept :
      x.phase ≡ wanting
      → Kept n addr ids chan a x
          (record { process = update_request_timestamp x.process; phase = stamped })
          got
          got
  unfolding update_request_timestamp update_timestamp unsent asked answered outdated deferred
  stamp-Kept e =
      let p' = update_request_timestamp x.process in
      let l : Later x.process p' = record {
        address = refl;
        id = refl;
        addresses = refl;
        channel_index = refl;
        natural = local.clock;
        passed = omega arith;
      } in
      let same : SameLists x.process p' = record {
        spawned = refl;
        buffer = refl;
        channels = refl;
      } in
      record {
        fixed = Later-Fixed n addr ids chan a x.process p' l fixed;
        local =
            after_step n addr ids chan a x got fixed local row room p' stamped l same local.clock
              (omega arith) (ground (arith, local.state));
        row =
            untouched-Row n addr ids chan a x got fixed local row room p' stamped refl refl
              (rw e refl) refl (rw e refl) (λ o. rw e refl);
        asker = λ j y hj ne h. record {
          one_message = ground arith;
          up_to_date = ground (arith, outdated-le-asked (chan a j) p', h.one_message);
          heard = λ k. ground arith;
          first = λ k c. ground (arith, h.first);
          complete = λ k. ground arith;
          invite =
              undisturbed_permission n addr ids chan a j x y
                (record { process = p'; phase = stamped }) y (got j).permission h.invite
                (λ k. rw e refl) refl refl refl;
        };
        answerer =
            asked_before n addr ids chan a x got fixed local row room p' stamped l same
              (λ c. inr refl) (rw e refl);
      }

  finish_idle :
      x.phase ≡ leaving
      → Kept n addr ids chan a x
          (record { process = tick (clear_reply_counter (tick x.process)); phase = idle })
          got
          (λ j. record (got j) { reply = false })
  unfolding clear_reply_counter Counter.clear update_timestamp unsent asked answered outdated
      deferred
  finish_idle e =
      let p' = tick (clear_reply_counter (tick x.process)) in
      let t1 = tick-Later x.process local.clock (omega arith) in
      let t2 = tick-Later (tick x.process) t1.0.natural (omega arith) in
      let t3 = tick-Later (tick (tick x.process)) t2.0.natural (omega arith) in
      let l : Later x.process p' = record {
        address = refl;
        id = refl;
        addresses = refl;
        channel_index = refl;
        natural = t3.0.natural;
        passed = omega (arith, t1.0.passed, t2.0.passed, t3.0.passed);
      } in
      let same : SameLists x.process p' = record {
        spawned = refl;
        buffer = refl;
        channels = refl;
      } in
      record {
        fixed = Later-Fixed n addr ids chan a x.process p' l fixed;
        local =
            after_step n addr ids chan a x got fixed local row room p' idle l same local.stamp
              (omega (arith, local.stamp_past, l.passed)) (ground (arith, local.state));
        row = record {
          own = refl;
          own_permission = row.own_permission;
          counted = omega (arith, total-none n);
          one_signal = row.one_signal;
          signalled = λ k. ground (arith, row.signalled k);
          fresh = λ o. total-none n;
          signal_there = λ m w k. absurd (ground arith);
        };
        asker = λ j y hj ne h. record {
          one_message = ground (arith, h.one_message, h.complete);
          up_to_date = h.up_to_date;
          heard = λ k. absurd (ground (arith, h.one_message, h.complete));
          first = λ k c. absurd (ground (arith, h.one_message, h.complete));
          complete = λ k. absurd (ground arith);
          invite =
              undisturbed_permission n addr ids chan a j x y (record { process = p'; phase = idle })
                y (got j).permission h.invite (λ k. rw e refl) refl refl refl;
        };
        answerer =
            asked_before n addr ids chan a x got fixed local row room p' idle l same
              (λ c. absurd (ground arith)) (rw e refl);
      }

  pub finish-Kept :
      (p : Process)
      → x.phase ≡ leaving
      → is_message_queue_empty x.process ≡ (true, p)
      → Kept n addr ids chan a x
          (record { process = tick (clear_reply_counter p); phase = idle })
          got
          (λ j. record (got j) { reply = false })
  unfolding is_message_queue_empty
  finish-Kept p e o =
      subst
        (λ (q : Process).
          Kept n addr ids chan a x (record { process = tick (clear_reply_counter q); phase = idle })
            got (λ j. record (got j) { reply = false }))
        (ap (λ (r : Bool × Process). r.1) o) (finish_idle e)
