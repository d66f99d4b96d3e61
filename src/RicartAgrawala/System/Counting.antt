-- ===== src/RicartAgrawala/System/Counting.antt =====
-- A reply or a permission is counted, and the last one sets the signal.
use grupo.Prelude.{ℕ, ◌+◌, ◌<◌, String, Bool, true, false, ◌≡◌, ◌≢◌, ◌≤◌, refl, arith}
use grupo.Prelude.Int.{ℤ}
use grupo.RicartAgrawala.Process.{Process, number_of_processes}
use grupo.RicartAgrawala.System.{waiting, Node}
use grupo.RicartAgrawala.System.Tally.{mark, total, total-mark, total-lt_two}
use grupo.RicartAgrawala.System.Phases.{awaiting, starting}
use grupo.RicartAgrawala.System.Invariant.{Seen, Group, Row}
use grupo.RicartAgrawala.System.Receiving.{Counted}

module _ (n : ℕ) (addr : ℕ → String) (ids : ℕ → ℤ) (chan : ℕ → ℕ → ℕ)
    (group : Group n addr ids chan) where
  -- The message that was the last one sets the signal, and no other.
  last_one :
      (i j : ℕ) (y : Node) (p : Process) (f : ℕ → Bool)
      → i < n
      → j < n
      → i ≢ j
      → number_of_processes y.process ≡ n
      → Counted y.process p
      → f i ≡ false
      → f j ≡ false
      → awaiting y.phase ≡ true
      → y.process.s.counter ≡ total n f
      → y.process.received_all_replies ≤ 1
      → (1 ≤ y.process.received_all_replies → y.process.s.counter + 1 ≡ n)
      → (p.s.counter ≡ total n (mark f i))
        × (p.received_all_replies ≤ 1)
        × (1 ≤ p.received_all_replies → p.s.counter + 1 ≡ n)
        × (p.s.counter + 1 ≡ n → p.received_all_replies ≡ 1)
  last_one i j y p f hi hj ne members c fresh own w counted one signalled =
      let two = total-lt_two n f i j hi hj ne fresh own in
      let none_yet : y.process.received_all_replies ≡ 0 = ground (arith, signalled, counted, two) in
      (
        omega (arith, c.counter, counted, total-mark n f i hi fresh),
        ground (arith, c.last, c.not_last, none_yet),
        λ h. ground (arith, c.counter, c.not_last, none_yet, members, h),
        λ k. ground (arith, c.counter, c.last, none_yet, members, k),
      )

  -- What is counted, when the reply or the permission of `i` is.
  abbrev pub reply_seen : (ℕ → Seen) → ℕ → ℕ → Seen
  reply_seen got i k = record {
    reply = mark (λ k. (got k).reply) i k;
    permission = (got k).permission;
  }

  abbrev pub permission_seen : (ℕ → Seen) → ℕ → ℕ → Seen
  permission_seen got i k = record {
    reply = (got k).reply;
    permission = mark (λ k. (got k).permission) i k;
  }

  -- For another process than `i` nothing is counted.
  pub mark_other : (f : ℕ → Bool) (i k : ℕ) → k ≢ i → mark f i k ≡ f k
  mark_other f i k h = ground arith

  pub mark_own : (f : ℕ → Bool) (i : ℕ) → mark f i i ≡ true
  mark_own f i = ground arith

  pub reply-Row :
      (i j : ℕ) (y : Node) (p : Process) (got : ℕ → Seen)
      → i < n
      → j < n
      → i ≢ j
      → number_of_processes y.process ≡ n
      → Counted y.process p
      → (got i).reply ≡ false
      → y.phase ≡ waiting
      → Row n addr ids chan j y got
      → Row n addr ids chan j (record { process = p; phase = y.phase }) (reply_seen got i)
  reply-Row i j y p got hi hj ne members c fresh w row =
      let (counter, one, signalled, there) =
        last_one i j y p (λ k. (got k).reply) hi hj ne members c fresh row.own (rw w refl)
          (ground (arith, row.counted)) row.one_signal (λ h. (row.signalled h).1) in
      record {
        own = ground (arith, row.own);
        own_permission = ground (arith, row.own_permission);
        counted = rw w counter;
        one_signal = one;
        signalled = λ h. (rw w refl, signalled h);
        fresh = λ o. absurd (ground arith);
        signal_there = λ m v k. there k;
      }

  pub permission-Row :
      (i j : ℕ) (y : Node) (p : Process) (got : ℕ → Seen)
      → i < n
      → j < n
      → i ≢ j
      → number_of_processes y.process ≡ n
      → Counted y.process p
      → (got i).permission ≡ false
      → awaiting y.phase ≡ true
      → starting y.phase ≡ true
      → Row n addr ids chan j y got
      → Row n addr ids chan j (record { process = p; phase = y.phase }) (permission_seen got i)
  permission-Row i j y p got hi hj ne members c fresh w starts row =
      let (counter, one, signalled, there) =
        last_one i j y p (λ k. (got k).permission) hi hj ne members c fresh row.own_permission w
          (ground (arith, row.counted)) row.one_signal (λ h. (row.signalled h).1) in
      record {
        own = ground (arith, row.own);
        own_permission = ground (arith, row.own_permission);
        counted = rw starts counter;
        one_signal = one;
        signalled = λ h. (w, signalled h);
        fresh = row.fresh;
        signal_there = λ m v k. there k;
      }
