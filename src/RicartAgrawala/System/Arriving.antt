-- ===== src/RicartAgrawala/System/Arriving.antt =====
-- A message of process `i` is handled by process `j`: the lists of `j`.
use grupo.Prelude.{ℕ, ◌+◌, ◌<◌, String, true, ◌≡◌, ◌≢◌, refl, ap, ◌∙◌, arith, ◌==◌}
use grupo.Prelude.Int.{ℤ}
use grupo.Prelude.GoMap.{has}
use grupo.RicartAgrawala.Utils.{reply}
use grupo.RicartAgrawala.Message.{Message}
use grupo.RicartAgrawala.Process.{
  Process, get_index_from_address, handle_request, update_timestamp, new_message,
}
use grupo.RicartAgrawala.Process.Requests.{Deferred, Replied}
use grupo.RicartAgrawala.System.{Node}
use grupo.RicartAgrawala.System.Tally.{tally, tally-snoc}
use grupo.RicartAgrawala.System.Views.{
  unsent, asked, answered, outdated, deferred, uninvited, permitted, asks, answers, permits, stale,
  comes_from,
}
use grupo.RicartAgrawala.System.Invariant.{Seen, Group, Fixed, Pair, undisturbed_permission}
use grupo.RicartAgrawala.System.Later.{Later}
use grupo.RicartAgrawala.System.Receiving.{Undisturbed, handle_request-Undisturbed, Counted}

module _ (n : ℕ) (addr : ℕ → String) (ids : ℕ → ℤ) (chan : ℕ → ℕ → ℕ)
    (group : Group n addr ids chan) (i j : ℕ) where
  -- What the lists hold for the other processes stays.
  pub record Views (p p' : Process) : Type 0 where
    pub unsent_same : (a : String) → unsent a p' ≡ unsent a p
    pub asked_same : (k : ℕ) → k < n → asked (chan j k) p' ≡ asked (chan j k) p
    pub outdated_same : (k : ℕ) → k < n → outdated (chan j k) p' ≡ outdated (chan j k) p
    pub uninvited_same : (a : String) → uninvited a p' ≡ uninvited a p
    pub permitted_same : (k : ℕ) → k < n → permitted (chan j k) p' ≡ permitted (chan j k) p
    pub deferred_other : (k : ℕ) → k < n → k ≢ i → deferred (addr k) p' ≡ deferred (addr k) p
    pub answered_other : (k : ℕ) → k < n → k ≢ i → answered (chan j k) p' ≡ answered (chan j k) p

  -- A reply changes no list.
  pub Counted-Views :
      (p p' : Process)
      → Counted p p'
      → Undisturbed p p'
      → Views p p'
        × (deferred (addr i) p' ≡ deferred (addr i) p)
        × (answered (chan j i) p' ≡ answered (chan j i) p)
  unfolding unsent asked outdated answered deferred uninvited permitted
  Counted-Views p p' c u = (
    record {
      unsent_same = λ a. rw u.spawned refl;
      asked_same = λ k h. rw c.channels refl;
      outdated_same = λ k h. rw (c.channels, u.request_timestamp) refl;
      uninvited_same = λ a. rw u.spawned refl;
      permitted_same = λ k h. rw c.channels refl;
      deferred_other = λ k h ne. rw c.buffer refl;
      answered_other = λ k h ne. rw c.channels refl;
    },
    rw c.buffer refl,
    rw c.channels refl,
  )

  module _ (lt : i < n) (m : Message) (from : m.address ≡ addr i) where
    pub Deferred-Views :
        (p p' : Process)
        → Deferred m p p'
        → Undisturbed p p'
        → Views p p'
          × (deferred (addr i) p' ≡ deferred (addr i) p + 1)
          × (answered (chan j i) p' ≡ answered (chan j i) p)
    unfolding unsent asked outdated answered deferred uninvited permitted
    Deferred-Views p p' d u =
        let grown = λ (k : ℕ).
          ap (tally (comes_from (addr k))) d.0 ∙ tally-snoc (comes_from (addr k)) p.q.buffer m in
        (
          record {
            unsent_same = λ a. rw u.spawned refl;
            asked_same = λ k h. rw d.1 refl;
            outdated_same = λ k h. rw (d.1, u.request_timestamp) refl;
            uninvited_same = λ a. rw u.spawned refl;
            permitted_same = λ k h. rw d.1 refl;
            deferred_other = λ k h ne. grown k ∙ ground (arith, from, group.addresses i k lt h);
            answered_other = λ k h ne. rw d.1 refl;
          },
          grown i ∙ ground (arith, from, group.addresses i i lt lt),
          rw d.1 refl,
        )

    pub Replied-Views :
        (p p' : Process)
        → Fixed n addr ids chan j p
        → Replied m p p'
        → Undisturbed p p'
        → Views p p'
          × (deferred (addr i) p' ≡ deferred (addr i) p)
          × (answered (chan j i) p' ≡ answered (chan j i) p + 1)
    unfolding unsent asked outdated answered deferred uninvited permitted
    Replied-Views p p' f r u =
        let o = new_message reply (update_timestamp m.timestamp p) in
        let c = get_index_from_address m.address p in
        let known : has m.address p.channel_index ≡ true = rw from (f.reached i lt) in
        let wire : (k : ℕ) → k < n → (c == chan j k) ≡ (i == k) =
          λ k h. f.wired m.address k h known ∙ rw from (group.addresses i k lt h) in
        (
          record {
            unsent_same = λ a. rw u.spawned refl;
            asked_same = λ k h.
                ap (tally (asks (chan j k))) r.1
                ∙ tally-snoc (asks (chan j k)) p.channels (c, o)
                ∙ ground arith;
            outdated_same = λ k h. rw u.request_timestamp (
                ap (tally (stale p.request_timestamp (chan j k))) r.1
                ∙ tally-snoc (stale p.request_timestamp (chan j k)) p.channels (c, o)
                ∙ ground arith);
            uninvited_same = λ a. rw u.spawned refl;
            permitted_same = λ k h.
                ap (tally (permits (chan j k))) r.1
                ∙ tally-snoc (permits (chan j k)) p.channels (c, o)
                ∙ ground arith;
            deferred_other = λ k h ne. rw r.0 refl;
            answered_other = λ k h ne.
                ap (tally (answers (chan j k))) r.1
                ∙ tally-snoc (answers (chan j k)) p.channels (c, o)
                ∙ ground (arith, wire k h);
          },
          rw r.0 refl,
          ap (tally (answers (chan j i))) r.1
              ∙ tally-snoc (answers (chan j i)) p.channels (c, o)
              ∙ ground (arith, wire i lt),
        )

  -- The receiver with every process but the sender.
  module _ (y : Node) (m : Message) (l : Later y.process (handle_request m y.process))
      (v : Views y.process (handle_request m y.process)) where
    abbrev pub receiver : Node
    receiver = record { process = handle_request m y.process; phase = y.phase }

    abbrev undisturbed : Undisturbed y.process (handle_request m y.process)
    undisturbed = handle_request-Undisturbed m y.process

    pub receiver-asker :
        (k : ℕ) (z : Node) (g : Seen)
        → k < n
        → Pair n addr ids chan j k y z g
        → Pair n addr ids chan j k receiver z g
    receiver-asker k z g hk h =
        let same = undisturbed.request_timestamp in
        record {
          one_message = omega (arith, h.one_message, v.unsent_same (addr k), v.asked_same k hk);
          up_to_date = v.outdated_same k hk ∙ h.up_to_date;
          heard = λ c. rw same (h.heard c);
          first = λ c d. rw (same, l.id) (h.first c d);
          complete = h.complete;
          invite =
              undisturbed_permission n addr ids chan j k y z receiver z g.permission h.invite
                (λ b. b) refl refl refl;
        }

    pub receiver-answerer :
        (k : ℕ) (z : Node) (g : Seen)
        → k < n
        → k ≢ i
        → Pair n addr ids chan k j z y g
        → Pair n addr ids chan k j z receiver g
    receiver-answerer k z g hk ne h =
        let d = v.deferred_other k hk ne in
        let a = v.answered_other k hk ne in
        record {
          one_message = omega (arith, h.one_message, d, a);
          up_to_date = h.up_to_date;
          heard = λ c. omega (arith, h.heard (omega (arith, c, d, a)), l.passed);
          first = λ c e. rw (undisturbed.request_timestamp, l.id) (h.first (omega (arith, c, a)) e);
          complete = h.complete;
          invite =
              undisturbed_permission n addr ids chan k j z y z receiver g.permission h.invite
                (λ b. b) (v.uninvited_same (addr k)) (v.permitted_same k hk) refl;
        }
