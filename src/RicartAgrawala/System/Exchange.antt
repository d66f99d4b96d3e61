-- ===== src/RicartAgrawala/System/Exchange.antt =====
-- A message of process `i` is handled by process `j`: the two requests between them.
use grupo.Prelude.{
  ℕ, ◌+◌, ◌<◌, String, true, false, ◌≡◌, ◌≢◌, inl, inr, refl, ◌∙◌, List, ◌∷◌, ◌++◌, arith, ◌==◌,
}
use grupo.Prelude.Int.{==ℤ_iff, ℤ, ◌<ℤ◌}
use grupo.RicartAgrawala.Utils.{reply, permission}
use grupo.RicartAgrawala.Message.{Message}
use grupo.RicartAgrawala.Process.{handle_request}
use grupo.RicartAgrawala.Process.Requests.{Precedes, Defers}
use grupo.RicartAgrawala.System.{waiting, Node}
use grupo.RicartAgrawala.System.Views.{
  is_reply, unsent, asked, answered, outdated, deferred, uninvited, permitted,
}
use grupo.RicartAgrawala.System.Phases.{begun, awaiting, starting, competing}
use grupo.RicartAgrawala.System.Invariant.{
  Seen, Sound, Group, Fixed, Local, Pair, undisturbed_permission,
}
use grupo.RicartAgrawala.System.Later.{Later}
use grupo.RicartAgrawala.System.Receiving.{
  handle_request-Undisturbed, handle_request-Counted, handle_request-cases,
}
use grupo.RicartAgrawala.System.Delivering.{
  sender, sender-asked, sender-answered, sender-outdated, sender-permitted,
}
use grupo.RicartAgrawala.System.Arriving.{Views, Counted-Views, Deferred-Views, Replied-Views}

-- What is known of two processes and of the message between them.
module _ (n : ℕ) (addr : ℕ → String) (ids : ℕ → ℤ) (chan : ℕ → ℕ → ℕ)
    (group : Group n addr ids chan) (i j c : ℕ) (hi : i < n) (hj : j < n) (ne : i ≢ j)
    (w : (k : ℕ) → k < n → (c == chan i k) ≡ (j == k)) (x y : Node)
    (before after : List (ℕ × Message)) (m : Message)
    (e : x.process.channels ≡ before ++ ((c, m) ∷ after)) (sound : Sound x.process m)
    (fx : Fixed n addr ids chan i x.process) (fy : Fixed n addr ids chan j y.process)
    (ly : Local n addr ids chan y) (l : Later y.process (handle_request m y.process))
    (later : m.timestamp <ℤ (handle_request m y.process).timestamp) where
  abbrev x' : Node
  x' = sender n addr ids chan group i j c w x before after m e

  abbrev y' : Node
  y' = record { process = handle_request m y.process; phase = y.phase }

  abbrev from : m.address ≡ addr i
  from = sound.address ∙ fx.address

  -- The own request of `j`, when its state says that the critical section is wanted or held.
  precedence :
      competing y.phase ≡ true
      → ¬ (Defers y.process m)
      → m.request_timestamp ≡ x.process.request_timestamp
      → Precedes x.process.request_timestamp x.process.id y.process.request_timestamp y.process.id
  precedence c nd t =
      ground (arith, nd, t, sound.id, ly.state, group.ids_differ i j hi hj ne, fx.id, fy.id)

  pub forward_request :
      (g : Seen)
      → is_reply m ≡ false
      → Pair n addr ids chan i j x y g
      → Pair n addr ids chan i j x' y' g
  unfolding unsent
  forward_request g r h =
      let was : asked (chan i j) x.process ≡ 1 + asked (chan i j) x'.process =
        sender-asked n addr ids chan group i j c w x before after m e (chan i j)
        ∙ ground (arith, r, w j hj) in
      let current : m.request_timestamp ≡ x.process.request_timestamp = ground (
        arith,
        r,
        h.up_to_date,
        sender-outdated n addr ids chan group i j c w x before after m e (chan i j),
        w j hj,
        ==ℤ_iff m.request_timestamp x.process.request_timestamp,
      ) in
      let heard : x.process.request_timestamp <ℤ y'.process.timestamp =
        ground (arith, later, sound.request_past, current) in
      let und = handle_request-Undisturbed m y.process in
      let outdated_less : outdated (chan i j) x'.process ≡ 0 = omega (
        arith,
        h.up_to_date,
        sender-outdated n addr ids chan group i j c w x before after m e (chan i j),
      ) in
      elim (handle_request-cases m y.process r) [
        | inl d ↦
            let (v, more, same) =
              Deferred-Views n addr ids chan group i j hi m from y.process y'.process d und in
            record {
              one_message = omega (arith, h.one_message, was, more, same);
              up_to_date = outdated_less;
              heard = λ c. heard;
              first = λ c k. rw (und.request_timestamp, l.id) (h.first (omega (arith, c, same)) k);
              complete = h.complete;
              invite =
                  undisturbed_permission n addr ids chan i j x y x' y' g.permission h.invite
                    (λ b. b) (v.uninvited_same (addr i)) (v.permitted_same i hi) refl;
            }
        | inr (d, nd, _) ↦
            let (v, same, more) =
              Replied-Views n addr ids chan group i j hi m from y.process y'.process fy d und in
            record {
              one_message = omega (arith, h.one_message, was, more, same);
              up_to_date = outdated_less;
              heard = λ c. heard;
              first = λ c k. rw (und.request_timestamp, l.id) (precedence k nd current);
              complete = h.complete;
              invite =
                  undisturbed_permission n addr ids chan i j x y x' y' g.permission h.invite
                    (λ b. b) (v.uninvited_same (addr i)) (v.permitted_same i hi) refl;
            }
      ]

  pub backward_request :
      (v : Views n addr ids chan group i j y.process y'.process) (g : Seen)
      → is_reply m ≡ false
      → Pair n addr ids chan j i y x g
      → Pair n addr ids chan j i y' x' g
  unfolding deferred uninvited
  backward_request v g r h =
      let same : answered (chan i j) x.process ≡ answered (chan i j) x'.process =
        sender-answered n addr ids chan group i j c w x before after m e (chan i j)
        ∙ ground (arith, r, w j hj) in
      let und = handle_request-Undisturbed m y.process in
      record {
        one_message = omega (arith, h.one_message, v.unsent_same (addr i), v.asked_same i hi, same);
        up_to_date = v.outdated_same i hi ∙ h.up_to_date;
        heard = λ c. rw und.request_timestamp (h.heard (omega (arith, c, same)));
        first = λ c k. rw (und.request_timestamp, l.id) (h.first (omega (arith, c, same)) k);
        complete = h.complete;
        invite =
            undisturbed_permission n addr ids chan j i y x y' x' g.permission h.invite (λ b. b) refl
              (ground (
                arith,
                r,
                sender-permitted n addr ids chan group i j c w x before after m e (chan i j),
              ))
              refl;
      }

  pub forward_reply :
      (g : Seen)
      → is_reply m ≡ true
      → Pair n addr ids chan i j x y g
      → Pair n addr ids chan i j x' y' g
  unfolding unsent
  forward_reply g r h =
      let und = handle_request-Undisturbed m y.process in
      let (v, d, a) =
        Counted-Views n addr ids chan group i j y.process y'.process
          (handle_request-Counted m y.process r) und in
      let was : asked (chan i j) x.process ≡ asked (chan i j) x'.process =
        sender-asked n addr ids chan group i j c w x before after m e (chan i j)
        ∙ ground (arith, r, w j hj) in
      record {
        one_message = omega (arith, h.one_message, was, d, a);
        up_to_date = ground (
          arith,
          h.up_to_date,
          sender-outdated n addr ids chan group i j c w x before after m e (chan i j),
          w j hj,
        );
        heard = λ c. omega (arith, h.heard (omega (arith, c, d, a)), l.passed);
        first = λ c k. rw (und.request_timestamp, l.id) (h.first (omega (arith, c, a)) k);
        complete = h.complete;
        invite =
            undisturbed_permission n addr ids chan i j x y x' y' g.permission h.invite (λ b. b)
              (v.uninvited_same (addr i)) (v.permitted_same i hi) refl;
      }

  -- The reply is counted, and no permission with it.
  pub backward_reply :
      (g : Seen)
      → (m.type_message == reply) ≡ true
      → Pair n addr ids chan j i y x g
      → (g.reply ≡ false)
        × (y.phase ≡ waiting)
        × Pair n addr ids chan j i y' x' (record g { reply = true })
  unfolding deferred uninvited
  backward_reply g r h =
      let und = handle_request-Undisturbed m y.process in
      let (v, d, a) =
        Counted-Views n addr ids chan group i j y.process y'.process
          (handle_request-Counted m y.process (ground (arith, r))) und in
      let was : answered (chan i j) x.process ≡ 1 + answered (chan i j) x'.process =
        sender-answered n addr ids chan group i j c w x before after m e (chan i j)
        ∙ ground (arith, r, w j hj) in
      let fresh : g.reply ≡ false = ground (arith, h.one_message, was) in
      (
        fresh,
        ground (arith, h.one_message, was, h.complete),
        record {
          one_message =
              ground (arith, h.one_message, v.unsent_same (addr i), v.asked_same i hi, was);
          up_to_date = v.outdated_same i hi ∙ h.up_to_date;
          heard = λ c. rw und.request_timestamp (h.heard (omega (arith, was)));
          first = λ c k. rw (und.request_timestamp, l.id) (h.first (omega (arith, was)) k);
          complete = λ c. refl;
          invite =
              undisturbed_permission n addr ids chan j i y x y' x' g.permission h.invite (λ b. b)
                refl
                (ground (
                  arith,
                  r,
                  sender-permitted n addr ids chan group i j c w x before after m e (chan i j),
                ))
                refl;
        },
      )

  -- The permission is counted, and no reply with it.
  pub backward_permission :
      (g : Seen)
      → (m.type_message == permission) ≡ true
      → Pair n addr ids chan j i y x g
      → (g.permission ≡ false)
        × (awaiting y.phase ≡ true)
        × (starting y.phase ≡ true)
        × Pair n addr ids chan j i y' x' (record g { permission = true })
  unfolding deferred uninvited
  backward_permission g r h =
      let und = handle_request-Undisturbed m y.process in
      let (v, d, a) =
        Counted-Views n addr ids chan group i j y.process y'.process
          (handle_request-Counted m y.process (ground (arith, r))) und in
      let same : answered (chan i j) x.process ≡ answered (chan i j) x'.process =
        sender-answered n addr ids chan group i j c w x before after m e (chan i j)
        ∙ ground (arith, r, w j hj) in
      let was : permitted (chan i j) x.process ≡ 1 + permitted (chan i j) x'.process =
        sender-permitted n addr ids chan group i j c w x before after m e (chan i j)
        ∙ ground (arith, r, w j hj) in
      let fresh : g.permission ≡ false = ground (arith, h.invite.one_permission, was) in
      let not_begun : begun y.phase ≡ false = ground (arith, h.invite.all_seen, fresh) in
      (
        fresh,
        ground (arith, not_begun),
        ground (arith, not_begun),
        record {
          one_message =
              omega (arith, h.one_message, v.unsent_same (addr i), v.asked_same i hi, same);
          up_to_date = v.outdated_same i hi ∙ h.up_to_date;
          heard = λ c. rw und.request_timestamp (h.heard (omega (arith, c, same)));
          first = λ c k. rw (und.request_timestamp, l.id) (h.first (omega (arith, c, same)) k);
          complete = h.complete;
          invite = record {
            one_permission = ground (arith, h.invite.one_permission, was);
            all_seen = λ k. refl;
          };
        },
      )
