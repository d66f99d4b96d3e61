-- ===== src/RicartAgrawala/Shared/Replayed.antt =====
-- A step of a process's own can be taken wherever the process is the same, whatever the others do.
use mathlib.Core.Path.{subst}
use grupo.Prelude.{
  ℕ, Bool-cases, inl, inr, false, ◌≡◌, ◌≢◌, refl, ap, ◌∙◌, none, some, ◌++◌, ◌==◌, if◌then◌else◌,
}
use grupo.RicartAgrawala.Utils.{reply, request, wanted, released, held}
use grupo.RicartAgrawala.Process.{
  Process, tick, change_state, update_request_timestamp, do_multicast, send_message,
  wait_all_processes_replies, send_permission_to_all_processes, is_message_queue_empty,
  clear_reply_counter,
}
use grupo.RicartAgrawala.System
use grupo.RicartAgrawala.System.{
  Node, Phase, System, set, greet, begin, ready, want, stamp, ask, send, deliver, pass, enter,
  leave, answer, finish, opened, greeting, greeted, idle, wanting, stamped, waiting, granted,
  inside, leaving,
}
use grupo.RicartAgrawala.Shared.{actor}

-- Process `a` goes on in `other` as in the step from `s` to `t`, which leaves the rest alone.
pub record OwnMove (n : ℕ) (s t other : System) (a : ℕ) : Type 0 where
  pub next : System
  pub step : System.Step n other next
  pub moved : (k : ℕ) → next k ≡ (if a == k then t k else other k)
  pub outside : (k : ℕ) → (a == k) ≡ false → t k ≡ s k

own_move :
    (n : ℕ) (s other : System) (a : ℕ) (x : Node)
    → System.Step n other (set other a x)
    → OwnMove n s (set s a x) other a
own_move n s other a x st = record {
  next = set other a x;
  step = st;
  moved = λ k. elim (Bool-cases (a == k)) [ inl e ↦ rw e refl | inr e ↦ rw e refl ];
  outside = λ k e. rw e refl;
}

-- The step when it makes a node out of the one before.
made :
    (n : ℕ) (s other : System) (a : ℕ) (f : Process → Process) (phase : Phase)
    → other a ≡ s a
    → System.Step n other (set other a (record { process = f (other a).process; phase = phase }))
    → OwnMove n s (set s a (record { process = f (s a).process; phase = phase })) other a
made n s other a f phase q st =
    own_move n s other a (record { process = f (s a).process; phase = phase })
      (subst
        (λ (y : Node).
          System.Step n other (set other a (record { process = f y.process; phase = phase })))
        q st)

module _ (n : ℕ) (s other : System) where
  same_phase :
      (i : ℕ) (phase : Phase) → other i ≡ s i → (s i).phase ≡ phase → (other i).phase ≡ phase
  same_phase i phase q e = ap (λ (y : Node). y.phase) q ∙ e

  pub replay :
      (t : System) (step : System.Step n s t)
      → actor step ≢ none
      → ((i : ℕ) → actor step ≡ some i → other i ≡ s i)
      → (a : ℕ) × (actor step ≡ some a) × OwnMove n s t other a
  replay t (greet i hi e) own q = (
    i,
    refl,
    made n s other i send_permission_to_all_processes greeting (q i refl)
        (greet i hi (same_phase i opened (q i refl) e)),
  )
  replay t (begin i p hi e x) own q = (
    i,
    refl,
    own_move n s other i (record { process = p; phase = greeted })
        (begin i p hi (same_phase i greeting (q i refl) e)
          (ap (λ (y : Node). wait_all_processes_replies y.process) (q i refl) ∙ x)),
  )
  replay t (ready i hi e) own q = (
    i,
    refl,
    made n s other i clear_reply_counter idle (q i refl)
        (ready i hi (same_phase i greeted (q i refl) e)),
  )
  replay t (want i hi e) own q = (
    i,
    refl,
    made n s other i (change_state wanted) wanting (q i refl)
        (want i hi (same_phase i idle (q i refl) e)),
  )
  replay t (stamp i hi e) own q = (
    i,
    refl,
    made n s other i update_request_timestamp stamped (q i refl)
        (stamp i hi (same_phase i wanting (q i refl) e)),
  )
  replay t (ask i hi e) own q = (
    i,
    refl,
    made n s other i (do_multicast request) waiting (q i refl)
        (ask i hi (same_phase i stamped (q i refl) e)),
  )
  replay t (send i before after u a hi e) own q =
      let sent = λ (y : Node). set other i (record {
        process = send_message u a (record y.process { spawned = before ++ after });
        phase = y.phase;
      }) in
      (
        i,
        refl,
        own_move n s other i _ (
            subst (λ (y : Node). System.Step n other (sent y)) (q i refl)
              (send i before after u a hi (ap (λ (y : Node). y.process.spawned) (q i refl) ∙ e))),
      )
  replay t (deliver i j c before after m hi hj ne w e) own q = absurd (own refl)
  replay t (pass i p hi e x) own q = (
    i,
    refl,
    own_move n s other i (record { process = p; phase = granted })
        (pass i p hi (same_phase i waiting (q i refl) e)
          (ap (λ (y : Node). wait_all_processes_replies y.process) (q i refl) ∙ x)),
  )
  replay t (enter i hi e) own q = (
    i,
    refl,
    made n s other i (change_state held) inside (q i refl)
        (enter i hi (same_phase i granted (q i refl) e)),
  )
  replay t (leave i hi e) own q = (
    i,
    refl,
    made n s other i (change_state released) leaving (q i refl)
        (leave i hi (same_phase i inside (q i refl) e)),
  )
  replay t (answer i a p p' hi e x y) own q = (
    i,
    refl,
    own_move n s other i (record { process = send_message reply a p'; phase = leaving })
        (answer i a p p' hi (same_phase i leaving (q i refl) e)
          (ap (λ (y : Node). is_message_queue_empty y.process) (q i refl) ∙ x) y),
  )
  replay t (finish i p hi e x) own q = (
    i,
    refl,
    own_move n s other i (record { process = tick (clear_reply_counter p); phase = idle })
        (finish i p hi (same_phase i leaving (q i refl) e)
          (ap (λ (y : Node). is_message_queue_empty y.process) (q i refl) ∙ x)),
  )
