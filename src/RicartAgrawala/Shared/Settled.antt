-- ===== src/RicartAgrawala/Shared/Settled.antt =====
-- A step with the lock, for the processes that complete what they have begun: it is a step of the
-- system in which a message is handled at once, or none.
use mathlib.Core.Path.{subst, fun_ext}
use grupo.Prelude.{
  ℕ, ◌<◌, Bool-cases, inl, inr, false, ◌≡◌, ◌≢◌, ◌⊎◌, refl, sym, ap, ◌∙◌, some, List, [], ◌∷◌, ◌++◌,
  arith, ◌==◌,
}
use mathlib.Core.List.{append_assoc}
use grupo.RicartAgrawala.Message.{Message}
use grupo.RicartAgrawala.Process.{Process, get_index_from_address}
use grupo.RicartAgrawala.System
use grupo.RicartAgrawala.System.{Node, System, set, advance, deliver}
use grupo.RicartAgrawala.Handling.{Handling, received, handled, stage, rest_of, settle_all}
use grupo.RicartAgrawala.Handling.Stages.{rest_of-stage, settle_all-append, settle_all-Appends}
use grupo.RicartAgrawala.Shared.{
  Shared, set_handlings, actor, Step, own, receive, handle, return, Locked, settled,
}
use grupo.RicartAgrawala.Shared.Replayed.{replay}

-- A process with nothing in progress is as it is.
pub settled-idle : (s : Shared) (k : ℕ) → s.handlings k ≡ [] → settled s k ≡ s.nodes k
unfolding settled settle_all
settled-idle s k e =
    ap
      (λ (hs : List Handling). record {
        process = settle_all hs (s.nodes k).process;
        phase = (s.nodes k).phase;
      })
      e

-- The process completes the rest of the message that it handles.
abbrev settled_node : List Handling → Node → Node
settled_node hs x = record { process = settle_all hs x.process; phase = x.phase }

own-settled :
    (n : ℕ) (s : Shared) (i : ℕ) (t : System) (step : System.Step n s.nodes t)
    → actor step ≡ some i
    → s.handlings i ≡ []
    → System.Step n (settled s) (settled (record s { nodes = t }))
unfolding settled settle_all
own-settled n s i t step e idle =
    let (a, ea, m) =
      replay n s.nodes (settled s) t step (λ nothing. absurd (cc))
        (λ k ek.
          let same : i ≡ k = ground (arith, e, ek) in
          settled-idle s k (ap s.handlings (sym same) ∙ idle)) in
    let same : i ≡ a = ground (arith, e, ea) in
    let after : Shared = record s { nodes = t } in
    subst (System.Step n (settled s))
      (fun_ext (λ k. m.moved k ∙ elim (Bool-cases (a == k)) [
        | inl h ↦
            let there : i ≡ k = ground arith in
            rw h (sym (settled-idle after k (ap s.handlings (sym there) ∙ idle)))
        | inr h ↦ rw h (ap (λ (x : Node). settled_node (s.handlings k) x) (sym (m.outside k h)))
      ]))
      m.step

-- Taking a message out of a channel, before or after the process completes what it has begun.
taken :
    (hs : List Handling) (x : Node) (before after : List (ℕ × Message)) (c : ℕ × Message)
    → x.process.channels ≡ before ++ (c ∷ after)
    → (rest : List (ℕ × Message)) × ((settle_all hs x.process).channels ≡ before ++ (c ∷ rest))
      × (settled_node hs
            (record { process = record x.process { channels = before ++ after }; phase = x.phase })
          ≡ record {
            process = record (settle_all hs x.process) { channels = before ++ rest };
            phase = x.phase;
          })
taken hs x before after c e =
    let more = settle_all-Appends hs x.process in
    (
      after ++ more.extra,
      ap (λ (p : Process). p.channels) (more.appended x.process.channels)
          ∙ ap (λ (cs : List (ℕ × Message)). cs ++ more.extra) e
          ∙ append_assoc before (c ∷ after) more.extra,
      ap (λ (p : Process). record { process = p; phase = x.phase })
          (more.appended (before ++ after)
            ∙ ap (λ (cs : List (ℕ × Message)). record (settle_all hs x.process) { channels = cs })
                (append_assoc before after more.extra)),
    )

receive-settled :
    (n : ℕ) (s : Shared) (i j c : ℕ) (before after : List (ℕ × Message)) (m : Message)
    → i < n
    → j < n
    → i ≢ j
    → get_index_from_address (s.nodes j).process.address (s.nodes i).process ≡ c
    → (s.nodes i).process.channels ≡ before ++ ((c, m) ∷ after)
    → System.Step n (settled s) (
        settled (record {
          nodes =
              advance s.nodes i
                (record (s.nodes i).process { channels = before ++ after })
                (s.nodes i).phase;
          handlings = set_handlings s.handlings j (s.handlings j ++ received m ∷ []);
        }))
unfolding settled get_index_from_address rest_of
receive-settled n s i j c before after m hi hj ne w e =
    let (rest, there, same) = taken (s.handlings i) (s.nodes i) before after (c, m) e in
    let sender = settle_all-Appends (s.handlings i) (s.nodes i).process in
    let receiver = settle_all-Appends (s.handlings j) (s.nodes j).process in
    subst (System.Step n (settled s))
      (fun_ext (λ k. elim (Bool-cases (j == k)) [
        | inl ej ↦
            let there : j ≡ k = ground arith in
            let apart : (i == k) ≡ false = ground (arith, ne, there) in
            rw (ej, apart)
              (sym (
                  ap (λ (p : Process). record { process = p; phase = (s.nodes j).phase })
                    (settle_all-append (s.handlings j) (received m) (s.nodes j).process))
                ∙ ap (λ (u : ℕ). settled_node (s.handlings j ++ received m ∷ []) (s.nodes u)) there)
        | inr ej ↦ elim (Bool-cases (i == k)) [
          | inl ei ↦
              let here : i ≡ k = ground arith in
              rw (ej, ei)
                (sym same
                  ∙ ap
                      (λ (u : ℕ). settled_node (s.handlings u) (record {
                        process = record (s.nodes i).process { channels = before ++ after };
                        phase = (s.nodes i).phase;
                      }))
                      here)
          | inr ei ↦ rw (ej, ei) refl
        ]
      ]))
      (deliver i j c before rest m hi hj ne (rw (receiver.address, sender.channel_index) w) there)

-- The first message in progress goes on: nothing changes for the processes that complete it.
pub handle-settled :
    (s : Shared) (j : ℕ) (h : Handling) (after : List Handling)
    → s.handlings j ≡ h ∷ after
    → settled (record {
      nodes = advance s.nodes j (stage h (s.nodes j).process).1 (s.nodes j).phase;
      handlings = set_handlings s.handlings j ((stage h (s.nodes j).process).0 ∷ after);
    })
      ≡ settled s
unfolding settled settle_all
handle-settled s j h after e = fun_ext (λ k. elim (Bool-cases (j == k)) [
  | inl ej ↦
      let here : j ≡ k = ground arith in
      rw ej (
        ap (λ (p : Process). record { process = settle_all after p; phase = (s.nodes j).phase })
          (rest_of-stage h (s.nodes j).process)
        ∙ ap (λ (hs : List Handling). settled_node hs (s.nodes j)) (sym e)
        ∙ ap (λ (u : ℕ). settled_node (s.handlings u) (s.nodes u)) here)
  | inr ej ↦ rw ej refl
])

pub return-settled :
    (s : Shared) (j : ℕ) (after : List Handling)
    → s.handlings j ≡ handled ∷ after
    → settled (record s { handlings = set_handlings s.handlings j after }) ≡ settled s
unfolding settled settle_all rest_of
return-settled s j after e = fun_ext (λ k. elim (Bool-cases (j == k)) [
  | inl ej ↦
      let here : j ≡ k = ground arith in
      rw ej (
        ap (λ (u : ℕ). settled_node after (s.nodes u)) (sym here)
        ∙ ap (λ (hs : List Handling). settled_node hs (s.nodes j)) (sym e)
        ∙ ap (λ (u : ℕ). settled_node (s.handlings u) (s.nodes u)) here)
  | inr ej ↦ rw ej refl
])

-- A step with the lock is a step of the system that handles messages at once, or changes nothing for it.
pub Step-settled :
    (n : ℕ) (s t : Shared) (step : Step n s t)
    → Locked step
    → System.Step n (settled s) (settled t) ⊎ (settled t ≡ settled s)
Step-settled n s t (own i u step e) l = inl (own-settled n s i u step e l)
Step-settled n s t (receive i j c before after m hi hj ne w e) l =
    inl (receive-settled n s i j c before after m hi hj ne w e)
Step-settled n s t (handle j [] after h hj e) l = inr (handle-settled s j h after e)
Step-settled n s t (handle j (x ∷ before) after h hj e) l = absurd (cc)
Step-settled n s t (return j [] after hj e) l = inr (return-settled s j after e)
Step-settled n s t (return j (x ∷ before) after hj e) l = absurd (cc)
