-- ===== src/RicartAgrawala/System/Reached.antt =====
-- The invariant holds in every state that a run reaches, and two processes are never inside at once.
use grupo.Prelude.{ℕ, ◌<◌, String, false, ◌≡◌, ◌≢◌, refl, sym, ap, ◌∙◌, List, arith, ◌==◌}
use grupo.Prelude.Int.{ℤ, add64, wrap64}
use grupo.RicartAgrawala.Utils.{held, max}
use grupo.RicartAgrawala.Counter.{new_reply_counter}
use grupo.RicartAgrawala.Queue
use grupo.RicartAgrawala.Process.{
  get_index_from_address, start_process, new_process, change_state, update_timestamp,
  open_all_connections,
}
use grupo.RicartAgrawala.System.{
  inside, Node, System, HaveRoom, Step, greet, begin, ready, want, stamp, ask, send, deliver, pass,
  enter, leave, answer, finish, Reach, here, next,
}
use grupo.RicartAgrawala.System.Tally.{tally, total-none}
use grupo.RicartAgrawala.System.Views.{
  unsent, asked, answered, outdated, deferred, uninvited, permitted,
}
use grupo.RicartAgrawala.System.Invariant.{Seen, Group, Pair, Inv}
use grupo.RicartAgrawala.System.Moving.{want-Kept, stamp-Kept, enter-Kept, leave-Kept, finish-Kept}
use grupo.RicartAgrawala.System.Awaiting.{begin-Kept, ready-Kept, pass-Kept}
use grupo.RicartAgrawala.System.Asking.{ask-Kept, greet-Kept}
use grupo.RicartAgrawala.System.Sending.{send-Kept}
use grupo.RicartAgrawala.System.Answering.{answer-Kept}
use grupo.RicartAgrawala.System.Stepping.{set-Inv}
use grupo.RicartAgrawala.System.Handled.{deliver-Inv}
use grupo.RicartAgrawala.System.StartUp.{Listed, channel, start, start_process-Fixed}

module _ (n : ℕ) (addr : ℕ → String) (ids : ℕ → ℤ) (chan : ℕ → ℕ → ℕ)
    (group : Group n addr ids chan) where
  abbrev pub SomeInv : System → Type 0
  SomeInv s = (got : ℕ → ℕ → Seen) × Inv n addr ids chan s got

  -- Channel `c` leads to the process of the address that it was opened for, and to no other.
  leads :
      (s : System) (got : ℕ → ℕ → Seen) (inv : Inv n addr ids chan s got) (i j c : ℕ) (hi : i < n)
      (hj : j < n)
      → get_index_from_address (s j).process.address (s i).process ≡ c
      → (k : ℕ) → k < n
      → (c == chan i k) ≡ (j == k)
  leads s got inv i j c hi hj w k hk =
      let fixed = inv.fixed i hi in
      let own : (s j).process.address ≡ addr j = (inv.fixed j hj).address in
      ap (λ (u : ℕ). u == chan i k) (sym w)
      ∙ ap (λ (a : String). get_index_from_address a (s i).process == chan i k) own
      ∙ fixed.wired (addr j) k hk (fixed.reached j hj)
      ∙ group.addresses j k hj hk

  Step-Inv : (s t : System) → Step n s t → HaveRoom n s → SomeInv s → SomeInv t
  Step-Inv s t (greet i hi e) room (got, inv) = (
    _,
    set-Inv n addr ids chan i s got _ (got i) hi inv (
        greet-Kept n addr ids chan group i (s i) (got i) hi (inv.fixed i hi) (inv.local i hi)
          (inv.row i hi) (room i hi) e),
  )
  Step-Inv s t (begin i p hi e o) room (got, inv) = (
    _,
    set-Inv n addr ids chan i s got _ (got i) hi inv (
        begin-Kept n addr ids chan i (s i) (got i) (inv.fixed i hi) (inv.local i hi) (inv.row i hi)
          (room i hi) p hi e o),
  )
  Step-Inv s t (ready i hi e) room (got, inv) = (
    _,
    set-Inv n addr ids chan i s got _ (got i) hi inv (
        ready-Kept n addr ids chan i (s i) (got i) (inv.fixed i hi) (inv.local i hi) (inv.row i hi)
          (room i hi) e),
  )
  Step-Inv s t (want i hi e) room (got, inv) = (
    _,
    set-Inv n addr ids chan i s got _ (got i) hi inv (
        want-Kept n addr ids chan i (s i) (got i) (inv.fixed i hi) (inv.local i hi) (inv.row i hi)
          (room i hi) e),
  )
  Step-Inv s t (stamp i hi e) room (got, inv) = (
    _,
    set-Inv n addr ids chan i s got _ (got i) hi inv (
        stamp-Kept n addr ids chan i (s i) (got i) (inv.fixed i hi) (inv.local i hi) (inv.row i hi)
          (room i hi) e),
  )
  Step-Inv s t (ask i hi e) room (got, inv) = (
    _,
    set-Inv n addr ids chan i s got _ (got i) hi inv (
        ask-Kept n addr ids chan group i (s i) (got i) hi (inv.fixed i hi) (inv.local i hi)
          (inv.row i hi) (room i hi) e),
  )
  Step-Inv s t (send i before after u a hi e) room (got, inv) = (
    _,
    set-Inv n addr ids chan i s got _ (got i) hi inv (
        send-Kept n addr ids chan group i (s i) (got i) hi (inv.fixed i hi) (inv.local i hi)
          (inv.row i hi) (room i hi) u a before after e),
  )
  Step-Inv s t (deliver i j c before after m hi hj ne w e) room (got, inv) =
      deliver-Inv n addr ids chan group s got inv room i j c hi hj ne
        (leads s got inv i j c hi hj w) before after m e
  Step-Inv s t (pass i p hi e o) room (got, inv) = (
    _,
    set-Inv n addr ids chan i s got _ (got i) hi inv (
        pass-Kept n addr ids chan i (s i) (got i) (inv.fixed i hi) (inv.local i hi) (inv.row i hi)
          (room i hi) p hi e o),
  )
  Step-Inv s t (enter i hi e) room (got, inv) = (
    _,
    set-Inv n addr ids chan i s got _ (got i) hi inv (
        enter-Kept n addr ids chan i (s i) (got i) (inv.fixed i hi) (inv.local i hi) (inv.row i hi)
          (room i hi) e),
  )
  Step-Inv s t (leave i hi e) room (got, inv) = (
    _,
    set-Inv n addr ids chan i s got _ (got i) hi inv (
        leave-Kept n addr ids chan i (s i) (got i) (inv.fixed i hi) (inv.local i hi) (inv.row i hi)
          (room i hi) e),
  )
  Step-Inv s t (answer i a p p' hi e o h) room (got, inv) = (
    _,
    set-Inv n addr ids chan i s got _ (got i) hi inv (
        answer-Kept n addr ids chan group i (s i) (got i) hi (inv.fixed i hi) (inv.local i hi)
          (inv.row i hi) (room i hi) a p p' e o h),
  )
  Step-Inv s t (finish i p hi e o) room (got, inv) = (
    _,
    set-Inv n addr ids chan i s got _ (λ j. record (got i j) { reply = false }) hi inv
        (finish-Kept n addr ids chan i (s i) (got i) (inv.fixed i hi) (inv.local i hi)
          (inv.row i hi) (room i hi) p e o),
  )

  pub Reach-Inv : (s t : System) → Reach n s t → SomeInv s → SomeInv t
  Reach-Inv s t here h = h
  Reach-Inv s t (next {t = u} r room step) h = Step-Inv u t step room (Reach-Inv s u r h)

  -- Of two processes inside, the request of each would precede the other's.
  pub exclusive :
      (i j : ℕ) (x y : Node) (g h : Seen)
      → Pair n addr ids chan i j x y g
      → Pair n addr ids chan j i y x h
      → ¬ ((x.phase ≡ inside) × (y.phase ≡ inside))
  exclusive i j x y g h p q (ex, ey) =
      let forward = p.first (ground (arith, p.complete)) (ground arith) in
      let backward = q.first (ground (arith, q.complete)) (ground arith) in
      ground (arith, forward, backward)

module _ (n : ℕ) (addr : ℕ → String) (ids : ℕ → ℤ) (lists : ℕ → List String)
    (listed : Listed n addr ids lists) (group : Group n addr ids (channel n addr ids lists)) where
  -- A process has counted nothing at first.
  start-Inv :
      Inv n addr ids
        (channel n addr ids lists)
        (start n addr ids lists)
        (λ i j. record { reply = false; permission = false })
  unfolding unsent asked outdated answered deferred uninvited permitted tally start_process
      new_process change_state update_timestamp open_all_connections max add64 wrap64
      Queue.new_message_queue new_reply_counter
  start-Inv = record {
    fixed = λ i hi. start_process-Fixed n addr ids lists listed i hi;
    local = λ i hi. record {
      clock = ground arith;
      stamp = ground arith;
      stamp_past = ground arith;
      state = refl;
      spawned = tt;
      queue = tt;
      sent = tt;
    };
    row = λ i hi. record {
      own = refl;
      own_permission = refl;
      counted = sym (total-none n);
      one_signal = omega arith;
      signalled = λ c. absurd (omega arith);
      fresh = λ o. total-none n;
      signal_there = λ m w c. absurd (omega arith);
    };
    pair = λ i j hi hj ne. record {
      one_message = refl;
      up_to_date = refl;
      heard = λ c. absurd (omega arith);
      first = λ c. absurd (omega arith);
      complete = λ c. absurd (ground arith);
      invite = record { one_permission = refl; all_seen = λ k. absurd (ground arith) };
    };
  }

  pub started-Inv :
      (t : System)
      → Reach n (start n addr ids lists) t
      → SomeInv n addr ids (channel n addr ids lists) group t
  started-Inv t run =
      Reach-Inv n addr ids (channel n addr ids lists) group (start n addr ids lists) t run
        (_, start-Inv)

  -- When messages are handled at once, two processes of a group with different addresses and ids never both have the state HELD, the one
  -- of the critical section, in any state that a run reaches from the one where each has come to the
  -- end of startProcess with the group's addresses in any order: whatever the order of their steps
  -- and of the messages, permissions included, while no clock is near the greatest int.
  pub mutual_exclusion :
      (t : System)
      → Reach n (start n addr ids lists) t
      → (i j : ℕ) → i < n
      → j < n
      → i ≢ j
      → (t i).process.state ≡ held
      → (t j).process.state ≢ held
  mutual_exclusion t run i j hi hj ne ei ej =
      let (got, inv) = started-Inv t run in
      exclusive n addr ids (channel n addr ids lists) group i j (t i) (t j) (got i j) (got j i)
        (inv.pair i j hi hj ne) (inv.pair j i hj hi (λ q. ne (sym q)))
        (ground (arith, (inv.local i hi).state, ei), ground (arith, (inv.local j hj).state, ej))
