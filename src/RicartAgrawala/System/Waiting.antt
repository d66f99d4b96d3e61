-- ===== src/RicartAgrawala/System/Waiting.antt =====
-- Two processes that have deferred each other's request wait for ever.
use mathlib.Core.Path.{subst}
use grupo.Prelude.{
  ℕ, ◌≤◌, ◌<◌, String, true, ◌≡◌, ◌≢◌, inl, inr, Bool-cases, sym, ap, ◌∙◌, List, ◌++◌, arith, ◌==◌,
  if◌then◌else◌,
}
use grupo.Prelude.Int.{ℤ}
use grupo.RicartAgrawala.Utils.{wanted}
use grupo.RicartAgrawala.Message.{Message}
use grupo.RicartAgrawala.Process.{Process, handle_request, send_message}
use grupo.RicartAgrawala.System.{
  waiting, Node, System, set, Step, greet, begin, ready, want, stamp, ask, send, deliver, pass,
  enter, leave, answer, finish, Reach, here, next,
}
use grupo.RicartAgrawala.System.Tally.{tally, tally-snoc, total-full}
use grupo.RicartAgrawala.System.Views.{is_reply, deferred, comes_from}
use grupo.RicartAgrawala.System.Invariant.{Seen, Group, Row, Pair}
use grupo.RicartAgrawala.System.Awaiting.{waited}
use grupo.RicartAgrawala.System.StartUp.{Listed, channel, start}
use grupo.RicartAgrawala.System.Stepping.{by_test}
use grupo.RicartAgrawala.System.Receiving.{handle_request-Counted, handle_request-cases}
use grupo.RicartAgrawala.System.Reached.{SomeInv, Reach-Inv, started-Inv}

-- A process that waits, with a request from address `o` in its queue.
pub record Blocked (o : String) (x : Node) : Type 0 where
  pub phase : x.phase ≡ waiting
  pub request : 1 ≤ deferred o x.process

-- No message takes a request out of the queue.
deferred-handle_request :
    (o : String) (m : Message) (p : Process) → deferred o p ≤ deferred o (handle_request m p)
unfolding deferred
deferred-handle_request o m p = elim (Bool-cases (is_reply m)) [
  | inl r ↦
      let same = ap (tally (comes_from o)) (handle_request-Counted m p r).buffer in
      omega (arith, same)
  | inr r ↦ elim (handle_request-cases m p r) [
    | inl d ↦
        let more = ap (tally (comes_from o)) d.0 ∙ tally-snoc (comes_from o) p.q.buffer m in
        omega (arith, more)
    | inr (d, _, _) ↦ let same = ap (tally (comes_from o)) d.0 in omega (arith, same)
  ]
]

-- A step of process `a` leaves process `k` blocked if it leaves `a` blocked.
set-Blocked :
    (s : System) (a : ℕ) (x : Node) (k : ℕ) (o : String)
    → (a ≡ k → Blocked o (s a) → Blocked o x)
    → Blocked o (s k)
    → Blocked o (set s a x k)
set-Blocked s a x k o f h =
    by_test (λ c. Blocked o (if c then x else s k)) (a == k)
      (λ e. let same : a ≡ k = ground arith in f same (subst (λ u. Blocked o (s u)) (sym same) h))
      (λ e. h)

Step-Blocked :
    (n : ℕ) (s t : System) (k : ℕ) (o : String)
    → Step n s t
    → (s k).process.received_all_replies ≡ 0
    → Blocked o (s k)
    → Blocked o (t k)
unfolding deferred send_message
Step-Blocked n s t k o (greet i hi e) z h =
    set-Blocked s i _ k o (λ q b. absurd (ground (arith, b.phase))) h
Step-Blocked n s t k o (begin i p hi e x) z h =
    set-Blocked s i _ k o (λ q b. absurd (ground (arith, b.phase))) h
Step-Blocked n s t k o (ready i hi e) z h =
    set-Blocked s i _ k o (λ q b. absurd (ground (arith, b.phase))) h
Step-Blocked n s t k o (want i hi e) z h =
    set-Blocked s i _ k o (λ q b. absurd (ground (arith, b.phase))) h
Step-Blocked n s t k o (stamp i hi e) z h =
    set-Blocked s i _ k o (λ q b. absurd (ground (arith, b.phase))) h
Step-Blocked n s t k o (ask i hi e) z h =
    set-Blocked s i _ k o (λ q b. absurd (ground (arith, b.phase))) h
Step-Blocked n s t k o (send i before after u a hi e) z h =
    set-Blocked s i _ k o (λ q b. record { phase = b.phase; request = b.request }) h
Step-Blocked n s t k o (deliver i j c before after m hi hj ne w e) z h =
    let sent : Node = record {
      process = record (s i).process { channels = before ++ after };
      phase = (s i).phase;
    } in
    set-Blocked (set s i sent) j _ k o
      (λ q b.
        let own : Blocked o (s j) = subst (λ u. Blocked o (s u)) (sym q) h in
        record {
          phase = own.phase;
          request = omega (arith, own.request, deferred-handle_request o m (s j).process);
        })
      (set-Blocked s i sent k o (λ q b. record { phase = b.phase; request = b.request }) h)
Step-Blocked n s t k o (enter i hi e) z h =
    set-Blocked s i _ k o (λ q b. absurd (ground (arith, b.phase))) h
Step-Blocked n s t k o (pass i p hi e x) z h =
    set-Blocked s i _ k o
      (λ q b.
        let (l, received, _) = waited (s i).process p x in
        let none_yet : (s i).process.received_all_replies ≡ 0 =
          subst (λ u. (s u).process.received_all_replies ≡ 0) (sym q) z in
        absurd (omega (arith, received, none_yet)))
      h
Step-Blocked n s t k o (leave i hi e) z h =
    set-Blocked s i _ k o (λ q b. absurd (ground (arith, b.phase))) h
Step-Blocked n s t k o (answer i a p p' hi e x y) z h =
    set-Blocked s i _ k o (λ q b. absurd (ground (arith, b.phase))) h
Step-Blocked n s t k o (finish i p hi e x) z h =
    set-Blocked s i _ k o (λ q b. absurd (ground (arith, b.phase))) h

-- Each of the two has the other's request in its queue.
pub record Deadlocked (i j : ℕ) (addr : ℕ → String) (s : System) : Type 0 where
  pub first : Blocked (addr j) (s i)
  pub second : Blocked (addr i) (s j)

module _ (n : ℕ) (addr : ℕ → String) (ids : ℕ → ℤ) (chan : ℕ → ℕ → ℕ)
    (group : Group n addr ids chan) (i j : ℕ) (hi : i < n) (hj : j < n) (ne : i ≢ j) where
  -- A deferred request has no reply, so that not all replies are there.
  unsignalled :
      (x y : Node) (got : ℕ → Seen)
      → Row n addr ids chan i x got
      → Pair n addr ids chan i j x y (got j)
      → Blocked (addr i) y
      → x.phase ≡ waiting
      → x.process.received_all_replies ≡ 0
  unsignalled x y got row p h w = elim (Bool-cases (x.process.received_all_replies == 0)) [
    | inl e ↦ ground arith
    | inr e ↦
        let all_there = row.signalled (ground arith) in
        let counted : (got j).reply ≡ true =
          total-full n (λ k. (got k).reply) i j hi hj ne row.own
            (ground (arith, all_there, row.counted, w)) in
        absurd (ground (arith, p.one_message, h.request, counted))
  ]

module _ (n : ℕ) (addr : ℕ → String) (ids : ℕ → ℤ) (chan : ℕ → ℕ → ℕ)
    (group : Group n addr ids chan) (i j : ℕ) (hi : i < n) (hj : j < n) (ne : i ≢ j) where
  Step-Deadlocked :
      (s t : System)
      → SomeInv n addr ids chan group s
      → Step n s t
      → Deadlocked i j addr s
      → Deadlocked i j addr t
  Step-Deadlocked s t (got, inv) step h =
      let back : j ≢ i = λ q. ne (sym q) in
      record {
        first =
            Step-Blocked n s t i (addr j) step
              (unsignalled n addr ids chan group i j hi hj ne (s i) (s j) (got i) (inv.row i hi)
                (inv.pair i j hi hj ne) h.second h.first.phase)
              h.first;
        second =
            Step-Blocked n s t j (addr i) step
              (unsignalled n addr ids chan group j i hj hi back (s j) (s i) (got j) (inv.row j hj)
                (inv.pair j i hj hi back) h.first h.second.phase)
              h.second;
      }

  Reach-Deadlocked :
      (s t : System)
      → SomeInv n addr ids chan group s
      → Reach n s t
      → Deadlocked i j addr s
      → Deadlocked i j addr t
  Reach-Deadlocked s t inv here h = h
  Reach-Deadlocked s t inv (next {t = u} run room step) h =
      Step-Deadlocked u t (Reach-Inv n addr ids chan group s u run inv) step
        (Reach-Deadlocked s u inv run h)

module _ (n : ℕ) (addr : ℕ → String) (ids : ℕ → ℤ) (lists : ℕ → List String)
    (listed : Listed n addr ids lists) (group : Group n addr ids (channel n addr ids lists)) where
  -- When messages are handled at once: once two processes of a group that has started both wait for replies, each with the other's
  -- request in its queue, they stay so in every state that the run goes on to: both have the state
  -- WANTED there, and neither enters the critical section again, whatever the other processes do.
  pub deadlock_lasts :
      (i j : ℕ)
      → i < n
      → j < n
      → i ≢ j
      → (t u : System) → Reach n (start n addr ids lists) t
      → Deadlocked i j addr t
      → Reach n t u
      → Deadlocked i j addr u × ((u i).process.state ≡ wanted) × ((u j).process.state ≡ wanted)
  deadlock_lasts i j hi hj ne t u run h on =
      let chan = channel n addr ids lists in
      let now = started-Inv n addr ids lists listed group t run in
      let (got, inv) = Reach-Inv n addr ids chan group t u on now in
      let after = Reach-Deadlocked n addr ids chan group i j hi hj ne t u now on h in
      (
        after,
        ground (arith, (inv.local i hi).state, after.first.phase),
        ground (arith, (inv.local j hj).state, after.second.phase),
      )
