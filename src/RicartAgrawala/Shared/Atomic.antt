-- ===== src/RicartAgrawala/Shared/Atomic.antt =====
-- A run in which messages are handled at once is a run with the lock.
use mathlib.Core.Path.{subst, fun_ext}
use grupo.Prelude.{
  ℕ, zero, suc, ◌<◌, Bool-cases, inl, inr, true, false, ◌≡◌, ◌≢◌, refl, sym, ap, ◌∙◌, some, List,
  [], ◌∷◌, ◌++◌, arith, ◌==◌,
}
use grupo.RicartAgrawala.Message.{Message}
use grupo.RicartAgrawala.Process.{Process, get_index_from_address, handle_request}
use grupo.RicartAgrawala.System
use grupo.RicartAgrawala.System.{
  Node, System, set, advance, greet, begin, ready, want, stamp, ask, send, deliver, pass, enter,
  leave, answer, finish, HaveRoom, Reach,
}
use grupo.RicartAgrawala.Handling.{Handling, received, handled, stage, stages, rest_of, settle_all}
use grupo.RicartAgrawala.Handling.Stages.{stages-handle_request}
use grupo.RicartAgrawala.Shared.{
  Shared, set_handlings, actor, own, receive, handle, return, settled, LockedReach, here, next,
  quiet,
}
use grupo.RicartAgrawala.Shared.Settled.{handle-settled, return-settled, settled-idle}

pub settled-quiet : (s : System) → settled (quiet s) ≡ s
settled-quiet s = fun_ext (λ k. settled-idle (quiet s) k refl)

module _ (n : ℕ) (start : Shared) (j : ℕ) (hj : j < n) where
  -- The only message that process `j` is handling goes on, and nothing else.
  record Drained (s : Shared) (hs : List Handling) : Type 0 where
    state : Shared
    run : LockedReach n start state
    same : settled state ≡ settled s
    here : state.handlings j ≡ hs
    apart : (k : ℕ) → (j == k) ≡ false → state.handlings k ≡ s.handlings k

  drain :
      (fuel : ℕ) (s : Shared) (h : Handling)
      → s.handlings j ≡ h ∷ []
      → LockedReach n start s
      → HaveRoom n (settled s)
      → Drained s ((stages fuel h (s.nodes j).process).0 ∷ [])
  unfolding stages
  drain zero s h e run room = record {
    state = s;
    run = run;
    same = refl;
    here = e;
    apart = λ k x. refl;
  }
  drain (suc fuel) s h e run room =
      let after : Shared = record {
        nodes = advance s.nodes j (stage h (s.nodes j).process).1 (s.nodes j).phase;
        handlings = set_handlings s.handlings j ((stage h (s.nodes j).process).0 ∷ []);
      } in
      let self : (j == j) ≡ true = ground arith in
      let same = handle-settled s j h [] e in
      let worked : after.nodes j
          ≡ record { process = (stage h (s.nodes j).process).1; phase = (s.nodes j).phase } =
        rw self refl in
      let d =
        drain fuel after (stage h (s.nodes j).process).0 (rw self refl)
          (next run room (handle j [] [] h hj e) refl) (subst (HaveRoom n) (sym same) room) in
      record {
        state = d.state;
        run = d.run;
        same = d.same ∙ same;
        here =
            d.here
            ∙ ap (λ (x : Node). (stages fuel (stage h (s.nodes j).process).0 x.process).0 ∷ [])
                worked;
        apart = λ k x. d.apart k x ∙ rw x refl;
      }

-- A message is received and handled.
handled_at_once :
    (n : ℕ) (start : Shared) (s : System) (i j c : ℕ) (before after : List (ℕ × Message))
    (m : Message) (hi : i < n) (hj : j < n) (ne : i ≢ j)
    (w : get_index_from_address (s j).process.address (s i).process ≡ c)
    (e : (s i).process.channels ≡ before ++ ((c, m) ∷ after))
    → let sent = advance s i (record (s i).process { channels = before ++ after }) (s i).phase in
      let t = advance sent j (handle_request m (s j).process) (s j).phase in
      LockedReach n start (quiet s) → HaveRoom n s → HaveRoom n t → LockedReach n start (quiet t)
unfolding settled settle_all rest_of
handled_at_once n start s i j c before after m hi hj ne w e run room room' =
    let sent = advance s i (record (s i).process { channels = before ++ after }) (s i).phase in
    let t = advance sent j (handle_request m (s j).process) (s j).phase in
    let taken : Shared = record {
      nodes = sent;
      handlings = set_handlings (λ k. []) j (received m ∷ []);
    } in
    let self : (j == j) ≡ true = ground arith in
    let whole : settled taken ≡ t = fun_ext (λ k. elim (Bool-cases (j == k)) [
      | inl ej ↦
          let there : j ≡ k = ground arith in
          let no : (i == k) ≡ false = ground (arith, ne, there) in
          rw (ej, no)
            (ap
              (λ (u : ℕ). record { process = handle_request m (s u).process; phase = (s u).phase })
              (sym there))
      | inr ej ↦ rw ej refl
    ]) in
    let d =
      drain n start j hj 5 taken (received m) (rw self refl)
        (next run (subst (HaveRoom n) (sym (settled-quiet s)) room)
          (receive i j c before after m hi hj ne w e) tt)
        (subst (HaveRoom n) (sym whole) room') in
    let last : d.state.handlings j ≡ handled ∷ [] =
      d.here
      ∙ ap (λ (r : Handling × Process). r.0 ∷ [])
          (stages-handle_request m (taken.nodes j).process) in
    let done : Shared = record d.state { handlings = set_handlings d.state.handlings j [] } in
    let none_left : (k : ℕ) → done.handlings k ≡ [] = λ k. elim (Bool-cases (j == k)) [
      | inl ej ↦ rw ej refl
      | inr ej ↦ rw ej (d.apart k ej ∙ rw ej refl)
    ] in
    let same : done.nodes ≡ t =
      fun_ext (λ k. sym (settled-idle done k (none_left k)))
      ∙ return-settled d.state j [] last
      ∙ d.same
      ∙ whole in
    subst (LockedReach n start)
      (ap (λ (h : ℕ → List Handling). record { nodes = done.nodes; handlings = h })
          (fun_ext none_left)
        ∙ ap (λ (x : System). quiet x) same)
      (next d.run (subst (HaveRoom n) (sym (d.same ∙ whole)) room') (return j [] [] hj last) refl)

own-LockedReach :
    (n : ℕ) (start : Shared) (s t : System) (i : ℕ) (step : System.Step n s t)
    → actor step ≡ some i
    → LockedReach n start (quiet s)
    → HaveRoom n s
    → LockedReach n start (quiet t)
own-LockedReach n start s t i step e run room =
    next run (subst (HaveRoom n) (sym (settled-quiet s)) room) (own i t step e) refl

-- A step of the system, as a run with the lock.
Step-LockedReach :
    (n : ℕ) (start : Shared) (s t : System)
    → System.Step n s t
    → LockedReach n start (quiet s)
    → HaveRoom n s
    → HaveRoom n t
    → LockedReach n start (quiet t)
Step-LockedReach n start s t (greet i hi e) run room room' =
    own-LockedReach n start s t i (greet i hi e) refl run room
Step-LockedReach n start s t (begin i p hi e x) run room room' =
    own-LockedReach n start s t i (begin i p hi e x) refl run room
Step-LockedReach n start s t (ready i hi e) run room room' =
    own-LockedReach n start s t i (ready i hi e) refl run room
Step-LockedReach n start s t (want i hi e) run room room' =
    own-LockedReach n start s t i (want i hi e) refl run room
Step-LockedReach n start s t (stamp i hi e) run room room' =
    own-LockedReach n start s t i (stamp i hi e) refl run room
Step-LockedReach n start s t (ask i hi e) run room room' =
    own-LockedReach n start s t i (ask i hi e) refl run room
Step-LockedReach n start s t (send i b a u x hi e) run room room' =
    own-LockedReach n start s t i (send i b a u x hi e) refl run room
Step-LockedReach n start s t (deliver i j c b a m hi hj ne w e) run room room' =
    handled_at_once n start s i j c b a m hi hj ne w e run room room'
Step-LockedReach n start s t (pass i p hi e x) run room room' =
    own-LockedReach n start s t i (pass i p hi e x) refl run room
Step-LockedReach n start s t (enter i hi e) run room room' =
    own-LockedReach n start s t i (enter i hi e) refl run room
Step-LockedReach n start s t (leave i hi e) run room room' =
    own-LockedReach n start s t i (leave i hi e) refl run room
Step-LockedReach n start s t (answer i a p p' hi e x y) run room room' =
    own-LockedReach n start s t i (answer i a p p' hi e x y) refl run room
Step-LockedReach n start s t (finish i p hi e x) run room room' =
    own-LockedReach n start s t i (finish i p hi e x) refl run room

pub Reach-LockedReach :
    (n : ℕ) (s t : System) → Reach n s t → HaveRoom n t → LockedReach n (quiet s) (quiet t)
Reach-LockedReach n s t System.here room = here
Reach-LockedReach n s t (System.next {t = u} run before step) room =
    Step-LockedReach n (quiet s) u t step (Reach-LockedReach n s u run before) before room
