-- ===== src/RicartAgrawala/System/Quiet.antt =====
-- Steps of one process that touch no list: what they leave as it was.
use grupo.Prelude.{
  ℕ, ◌+◌, ◌<◌, ◌^◌, String, true, false, ◌≡◌, ◌≢◌, refl, sym, ap, All, inl, inr, ◌⊎◌, ◌∙◌, arith,
}
use mathlib.Core.Path.{subst}
use grupo.Prelude.Int.{ℤ, IsNatural, pos_part, neg_part, ◌≤ℤ◌}
use grupo.RicartAgrawala.Message.{Message}
use grupo.RicartAgrawala.Process.{Process, change_state, update_timestamp}
use grupo.RicartAgrawala.System.{Phase, Node}
use grupo.RicartAgrawala.System.Views.{
  unsent, asked, answered, outdated, deferred, uninvited, permitted,
}
use grupo.RicartAgrawala.System.Later.{
  Later, tick-Later, Later-Fixed, Later-Known, Later-queue, Later-sent,
}
use grupo.RicartAgrawala.System.Phases.{
  open_request, entered, competing, starting, invited, begun, awaiting, state_of,
}
use grupo.RicartAgrawala.System.Invariant.{
  Seen, Sound, Fixed, Local, Row, Pair, undisturbed_permission,
}

-- A step that touches none of the lists.
pub record SameLists (p p' : Process) : Type 0 where
  pub spawned : p'.spawned ≡ p.spawned
  pub buffer : p'.q.buffer ≡ p.q.buffer
  pub channels : p'.channels ≡ p.channels

-- The phase goes on, and the requests stay open or closed.
pub record Onward (old new : Phase) : Type 0 where
  pub still_open : open_request new ≡ open_request old
  pub competed : competing new ≡ true → competing old ≡ true
  pub still_invited : invited new ≡ invited old

module _ (n : ℕ) (addr : ℕ → String) (ids : ℕ → ℤ) (chan : ℕ → ℕ → ℕ) where
  -- What a step of process `a` alone has to keep, with the replies that it has counted.
  pub record Kept (a : ℕ) (x x' : Node) (got got' : ℕ → Seen) : Type 0 where
    pub fixed : Fixed n addr ids chan a x'.process
    pub local : Local n addr ids chan x'
    pub row : Row n addr ids chan a x' got'
    pub asker :
        (j : ℕ) (y : Node)
        → j < n
        → a ≢ j
        → Pair n addr ids chan a j x y (got j)
        → Pair n addr ids chan a j x' y (got' j)
    pub answerer :
        (i : ℕ) (y : Node) (g : Seen)
        → i < n
        → i ≢ a
        → Pair n addr ids chan i a y x g
        → Pair n addr ids chan i a y x' g

  module _ (a : ℕ) (x : Node) (got : ℕ → Seen) (fixed : Fixed n addr ids chan a x.process)
      (local : Local n addr ids chan x) (row : Row n addr ids chan a x got)
      (room : pos_part x.process.timestamp + 3 < 2 ^ 63) where
    -- What the step leaves behind when it moves the clock on and touches no list.
    pub after_step :
        (p' : Process) (phase : Phase)
        → Later x.process p'
        → SameLists x.process p'
        → IsNatural p'.request_timestamp
        → p'.request_timestamp ≤ℤ p'.timestamp
        → p'.state ≡ state_of phase
        → Local n addr ids chan (record { process = p'; phase = phase })
    after_step p' phase l same stamp past state = record {
      clock = l.natural;
      stamp = stamp;
      stamp_past = past;
      state = state;
      spawned = rw same.spawned (Later-Known x.process p' x.process.spawned l local.spawned);
      queue = rw same.buffer (Later-queue x.process p' x.process.q.buffer l local.queue);
      sent =
          subst (All (λ (o : ℕ × Message). Sound p' o.1)) (sym same.channels)
            (Later-sent x.process p' x.process.channels l local.sent);
    }

    -- What the others have asked of it stays, when its own request stays or is later than its clock was.
    pub asked_before :
        (p' : Process) (phase : Phase)
        → Later x.process p'
        → SameLists x.process p'
        → (competing phase ≡ true
            → ((competing x.phase ≡ true) × (p'.request_timestamp ≡ x.process.request_timestamp))
              ⊎ (p'.request_timestamp ≡ x.process.timestamp))
        → invited phase ≡ invited x.phase
        → (i : ℕ) (y : Node) (g : Seen) → i < n
        → i ≢ a
        → Pair n addr ids chan i a y x g
        → Pair n addr ids chan i a y (record { process = p'; phase = phase }) g
    unfolding deferred answered unsent asked outdated uninvited permitted
    asked_before p' phase l same own v i y g hi ne h =
        let d : deferred (addr i) p' ≡ deferred (addr i) x.process = rw same.buffer refl in
        let s : answered (chan a i) p' ≡ answered (chan a i) x.process = rw same.channels refl in
        record {
          one_message = omega (arith, h.one_message, d, s);
          up_to_date = h.up_to_date;
          heard = λ k. omega (arith, h.heard (omega (arith, k, d, s)), l.passed);
          first = λ k c. elim (own c) [
            | inl (before, e) ↦ rw (e, l.id) (h.first (omega (arith, k, s)) before)
            | inr e ↦ inl (
                omega (
                  arith,
                  ap (λ (t : ℤ). pos_part t) e,
                  ap (λ (t : ℤ). neg_part t) e,
                  h.heard (omega (arith, k, d, s)),
                ))
          ];
          complete = h.complete;
          invite =
              undisturbed_permission n addr ids chan i a y x y
                (record { process = p'; phase = phase }) g.permission h.invite (λ k. k)
                (rw same.spawned refl) (rw same.channels refl) v;
        }

    -- A step that leaves the request as it is.
    pub quiet-Kept :
        (p' : Process) (phase : Phase)
        → Later x.process p'
        → SameLists x.process p'
        → p'.request_timestamp ≡ x.process.request_timestamp
        → p'.state ≡ state_of phase
        → Onward x.phase phase
        → (entered phase ≡ true
            → (entered x.phase ≡ true) ⊎ ((j : ℕ) → j < n → a ≢ j → (got j).reply ≡ true))
        → (begun phase ≡ true
            → (begun x.phase ≡ true) ⊎ ((j : ℕ) → j < n → a ≢ j → (got j).permission ≡ true))
        → Row n addr ids chan a (record { process = p'; phase = phase }) got
        → Kept a x (record { process = p'; phase = phase }) got got
    unfolding unsent asked outdated uninvited permitted
    quiet-Kept p' phase l same stamp state on complete all_seen row' =
        let request_same = stamp in
        record {
          fixed = Later-Fixed n addr ids chan a x.process p' l fixed;
          local =
              after_step p' phase l same (rw stamp local.stamp)
                (rw stamp (omega (arith, local.stamp_past, l.passed))) state;
          row = row';
          asker = λ j y hj ne h. record {
            one_message = rw (same.spawned, same.channels, on.still_open) h.one_message;
            up_to_date = rw (same.channels, stamp) h.up_to_date;
            heard = λ k. rw stamp (h.heard k);
            first = λ k c. rw (stamp, l.id) (h.first k c);
            complete = λ k. elim (complete k) [
              | inl before ↦ h.complete before
              | inr there ↦ there j hj ne
            ];
            invite = record {
              one_permission = h.invite.one_permission;
              all_seen = λ k. elim (all_seen k) [
                | inl before ↦ h.invite.all_seen before
                | inr there ↦ there j hj ne
              ];
            };
          };
          answerer =
              asked_before p' phase l same (λ c. inl (on.competed c, stamp)) on.still_invited;
        }

    pub untouched-Row :
        (p' : Process) (phase : Phase)
        → p'.s.counter ≡ x.process.s.counter
        → p'.received_all_replies ≡ x.process.received_all_replies
        → awaiting x.phase ≡ false
        → awaiting phase ≡ false
        → starting phase ≡ starting x.phase
        → (open_request phase ≡ false → open_request x.phase ≡ false)
        → Row n addr ids chan a (record { process = p'; phase = phase }) got
    untouched-Row p' phase c r q q' o f = record {
      own = row.own;
      own_permission = row.own_permission;
      counted = rw o (c ∙ row.counted);
      one_signal = omega (arith, r, row.one_signal);
      signalled = λ k. absurd (ground (arith, row.signalled (omega (arith, r, k))));
      fresh = λ k. row.fresh (f k);
      signal_there = λ m w k. absurd (ground arith);
    }

    -- The signal is received.
    pub received-Row :
        (k : ℕ) (phase : Phase)
        → x.process.received_all_replies ≡ k + 1
        → awaiting phase ≡ false
        → starting phase ≡ starting x.phase
        → (open_request phase ≡ false → open_request x.phase ≡ false)
        → Row n addr ids chan a
            (record { process = record x.process { received_all_replies = k }; phase = phase })
            got
    received-Row k phase e q o f = record {
      own = row.own;
      own_permission = row.own_permission;
      counted = rw o row.counted;
      one_signal = omega (arith, row.one_signal);
      signalled = λ h. absurd (omega (arith, row.one_signal));
      fresh = λ k. row.fresh (f k);
      signal_there = λ m w k. absurd (ground arith);
    }

    pub changed_state : (state : ℕ) → Later x.process (change_state state x.process)
    unfolding change_state update_timestamp
    changed_state state =
        let t = (tick-Later x.process local.clock (omega arith)).0 in
        record {
          address = refl;
          id = refl;
          addresses = refl;
          channel_index = refl;
          natural = t.natural;
          passed = t.passed;
        }
