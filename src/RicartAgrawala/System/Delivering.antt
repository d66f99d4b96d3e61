-- ===== src/RicartAgrawala/System/Delivering.antt =====
-- A message of process `i` arrives at process `j`.
use mathlib.Core.Path.{subst}
use grupo.Prelude.{ℕ, ◌+◌, ◌<◌, String, ◌≡◌, ◌≢◌, refl, List, ◌∷◌, ◌++◌, All, arith, ◌==◌}
use grupo.Prelude.Int.{ℤ, IsNatural}
use grupo.RicartAgrawala.Message.{Message}
use grupo.RicartAgrawala.System.{Node}
use grupo.RicartAgrawala.System.Tally.{bit, tally-middle, All-middle}
use grupo.RicartAgrawala.System.Views.{
  unsent, asked, answered, outdated, deferred, uninvited, permitted, asks, answers, permits, stale,
}
use grupo.RicartAgrawala.System.Invariant.{
  Seen, Sound, Group, Fixed, Local, Row, Pair, undisturbed_permission,
}
use grupo.RicartAgrawala.System.Later.{Later, Later-Fixed, Later-Known, Later-sent}

module _ (n : ℕ) (addr : ℕ → String) (ids : ℕ → ℤ) (chan : ℕ → ℕ → ℕ)
    (group : Group n addr ids chan) where
  -- The sender, whose list of channels loses the message.
  module _ (i j c : ℕ) (w : (k : ℕ) → k < n → (c == chan i k) ≡ (j == k)) (x : Node)
      (before after : List (ℕ × Message)) (m : Message)
      (e : x.process.channels ≡ before ++ ((c, m) ∷ after)) where
    abbrev pub sender : Node
    sender = record { process = record x.process { channels = before ++ after }; phase = x.phase }

    pub sender-asked : (k : ℕ) → asked k x.process ≡ bit (asks k (c, m)) + asked k sender.process
    unfolding asked
    sender-asked k = rw e (tally-middle (asks k) before after (c, m))

    pub sender-answered :
        (k : ℕ) → answered k x.process ≡ bit (answers k (c, m)) + answered k sender.process
    unfolding answered
    sender-answered k = rw e (tally-middle (answers k) before after (c, m))

    pub sender-outdated :
        (k : ℕ)
        → outdated k x.process
          ≡ bit (stale x.process.request_timestamp k (c, m)) + outdated k sender.process
    unfolding outdated
    sender-outdated k =
        rw e (tally-middle (stale x.process.request_timestamp k) before after (c, m))

    pub sender-permitted :
        (k : ℕ) → permitted k x.process ≡ bit (permits k (c, m)) + permitted k sender.process
    unfolding permitted
    sender-permitted k = rw e (tally-middle (permits k) before after (c, m))

    pub sent_by :
        All (λ (o : ℕ × Message). Sound x.process o.1) x.process.channels
        → Sound x.process m × All (λ (o : ℕ × Message). Sound x.process o.1) (before ++ after)
    sent_by h =
        All-middle (λ (o : ℕ × Message). Sound x.process o.1) before after (c, m)
          (subst (All (λ (o : ℕ × Message). Sound x.process o.1)) e h)

    abbrev sender_later : IsNatural x.process.timestamp → Later x.process sender.process
    sender_later c = record {
      address = refl;
      id = refl;
      addresses = refl;
      channel_index = refl;
      natural = c;
      passed = omega arith;
    }

    pub sender-Fixed :
        Local n addr ids chan x
        → Fixed n addr ids chan i x.process
        → Fixed n addr ids chan i sender.process
    sender-Fixed l f =
        Later-Fixed n addr ids chan i x.process sender.process (sender_later l.clock) f

    pub sender-Local : Local n addr ids chan x → Local n addr ids chan sender
    sender-Local l = record {
      clock = l.clock;
      stamp = l.stamp;
      stamp_past = l.stamp_past;
      state = l.state;
      spawned =
          Later-Known x.process sender.process x.process.spawned (sender_later l.clock) l.spawned;
      queue = l.queue;
      sent =
          Later-sent x.process sender.process (before ++ after) (sender_later l.clock)
            (sent_by l.sent).1;
    }

    pub sender-Row :
        (got : ℕ → Seen) → Row n addr ids chan i x got → Row n addr ids chan i sender got
    sender-Row got r = record {
      own = r.own;
      own_permission = r.own_permission;
      counted = r.counted;
      one_signal = r.one_signal;
      signalled = r.signalled;
      fresh = r.fresh;
      signal_there = r.signal_there;
    }

    -- For every process but the receiver nothing changes.
    pub sender-asker :
        (k : ℕ) (z : Node) (g : Seen)
        → k < n
        → k ≢ j
        → Pair n addr ids chan i k x z g
        → Pair n addr ids chan i k sender z g
    unfolding unsent
    sender-asker k z g hk ne h = record {
      one_message = ground (arith, h.one_message, sender-asked (chan i k), w k hk);
      up_to_date = ground (arith, h.up_to_date, sender-outdated (chan i k), w k hk);
      heard = h.heard;
      first = h.first;
      complete = h.complete;
      invite =
          undisturbed_permission n addr ids chan i k x z sender z g.permission h.invite (λ b. b)
            refl refl refl;
    }

    pub sender-answerer :
        (k : ℕ) (z : Node) (g : Seen)
        → k < n
        → k ≢ j
        → Pair n addr ids chan k i z x g
        → Pair n addr ids chan k i z sender g
    unfolding deferred uninvited
    sender-answerer k z g hk ne h =
        let same : answered (chan i k) x.process ≡ answered (chan i k) sender.process =
          ground (arith, sender-answered (chan i k), w k hk) in
        record {
          one_message = omega (arith, h.one_message, same);
          up_to_date = h.up_to_date;
          heard = λ c. h.heard (omega (arith, c, same));
          first = λ c d. h.first (omega (arith, c, same)) d;
          complete = h.complete;
          invite =
              undisturbed_permission n addr ids chan k i z x z sender g.permission h.invite (λ b. b)
                refl (ground (arith, sender-permitted (chan i k), w k hk)) refl;
        }
