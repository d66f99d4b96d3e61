-- ===== src/RicartAgrawala/System/Handled.antt =====
-- The invariant after a delivery: a reply is counted, a request is deferred or answered.
use mathlib.Core.Path.{subst}
use grupo.Prelude.{
  ℕ, ◌+◌, ◌<◌, ◌^◌, String, Bool, true, false, ◌≡◌, ◌≢◌, inl, inr, Bool-cases, refl, sym, ap, ◌∙◌,
  List, ◌∷◌, ◌++◌, arith, ◌==◌,
}
use grupo.Prelude.Int.{ℤ, pos_part, ◌<ℤ◌}
use grupo.RicartAgrawala.Utils.{reply, permission}
use grupo.RicartAgrawala.Message.{Message}
use grupo.RicartAgrawala.Process.{handle_request}
use grupo.RicartAgrawala.System.{System, HaveRoom}
use grupo.RicartAgrawala.System.Views.{is_reply}
use grupo.RicartAgrawala.System.Invariant.{Seen, Sound, Group, Row, Pair, Inv}
use grupo.RicartAgrawala.System.Later.{Later}
use grupo.RicartAgrawala.System.Receiving.{
  handle_request-Later, handle_request-Undisturbed, handle_request-Counted,
  handle_request-Unsignalled, handle_request-cases,
}
use grupo.RicartAgrawala.System.Delivering.{sent_by}
use grupo.RicartAgrawala.System.Arriving.{Views, Counted-Views, Deferred-Views, Replied-Views}
use grupo.RicartAgrawala.System.Exchange.{
  forward_request, backward_request, forward_reply, backward_reply, backward_permission,
}
use grupo.RicartAgrawala.System.Delivered.{
  reply-Local, request-Local, delivered-Inv, sent, arrived, after_step,
}
use grupo.RicartAgrawala.System.Counting.{
  reply_seen, permission_seen, mark_other, mark_own, reply-Row, permission-Row,
}
use grupo.RicartAgrawala.System.Stepping.{recount}

module _ (n : ℕ) (addr : ℕ → String) (ids : ℕ → ℤ) (chan : ℕ → ℕ → ℕ)
    (group : Group n addr ids chan) where
  module _ (s : System) (got : ℕ → ℕ → Seen) (inv : Inv n addr ids chan s got) (room : HaveRoom n s)
      (i j c : ℕ) (hi : i < n) (hj : j < n) (ne : i ≢ j)
      (w : (k : ℕ) → k < n → (c == chan i k) ≡ (j == k)) (before after : List (ℕ × Message))
      (m : Message) (e : (s i).process.channels ≡ before ++ ((c, m) ∷ after)) where
    sound : Sound (s i).process m
    sound = (sent_by n addr ids chan group i j c w (s i) before after m e (inv.local i hi).sent).0

    message_room : pos_part m.timestamp + 3 < 2 ^ 63
    message_room = omega (arith, sound.past, sound.natural.0, (inv.local i hi).clock.0, room i hi)

    later :
        Later (s j).process (handle_request m (s j).process)
        × (m.timestamp <ℤ (handle_request m (s j).process).timestamp)
    later =
        handle_request-Later m (s j).process sound.natural (inv.local j hj).clock message_room
          (room j hj)

    from : m.address ≡ addr i
    from = sound.address ∙ (inv.fixed i hi).address

    abbrev target : System
    target = after_step n addr ids chan group s got inv i j c hi hj ne w before after m e

    -- A message that is counted.
    counted-Inv :
        (g : ℕ → Seen)
        → is_reply m ≡ true
        → Row n addr ids chan j
            (record { process = handle_request m (s j).process; phase = (s j).phase })
            g
        → ((k : ℕ) → k ≢ i → g k ≡ got j k)
        → Pair n addr ids chan j i
            (arrived n addr ids chan group s got inv i j c hi hj ne w before after m e)
            (sent n addr ids chan group s got inv i j c hi hj ne w before after m e)
            (g i)
        → Inv n addr ids chan target (recount got j g)
    counted-Inv g r row same back =
        let fi = inv.fixed i hi in
        let fj = inv.fixed j hj in
        let (views, _, _) =
          Counted-Views n addr ids chan group i j (s j).process (handle_request m (s j).process)
            (handle_request-Counted m (s j).process r)
            (handle_request-Undisturbed m (s j).process) in
        delivered-Inv n addr ids chan group s got inv i j c hi hj ne w before after m e g later.0
          views (reply-Local n addr ids chan group m (s j) (inv.local j hj) later.0 r) row same
          (forward_reply n addr ids chan group i j c hi hj ne w (s i) (s j) before after m e sound
            fi fj (inv.local j hj) later.0 later.1 (got i j) r (inv.pair i j hi hj ne))
          back

    reply-Inv :
        (m.type_message == reply) ≡ true
        → Inv n addr ids chan target (recount got j (reply_seen n addr ids chan group (got j) i))
    reply-Inv r =
        let fi = inv.fixed i hi in
        let fj = inv.fixed j hj in
        let is_counted : is_reply m ≡ true = ground (arith, r) in
        let counted = handle_request-Counted m (s j).process is_counted in
        let (fresh, waits, back) =
          backward_reply n addr ids chan group i j c hi hj ne w (s i) (s j) before after m e sound
            fi fj (inv.local j hj) later.0 later.1 (got j i) r
            (inv.pair j i hj hi (λ q. ne (sym q))) in
        counted-Inv (reply_seen n addr ids chan group (got j) i) is_counted
          (reply-Row n addr ids chan group i j (s j) (handle_request m (s j).process) (got j) hi hj
            ne fj.members counted fresh waits (inv.row j hj))
          (λ k h.
            ap (λ (b : Bool). record (got j k) { reply = b })
              (mark_other n addr ids chan group (λ u. (got j u).reply) i k h))
          (subst
            (λ (b : Bool).
              Pair n addr ids chan j i
                (arrived n addr ids chan group s got inv i j c hi hj ne w before after m e)
                (sent n addr ids chan group s got inv i j c hi hj ne w before after m e)
                (record (got j i) { reply = b }))
            (sym (mark_own n addr ids chan group (λ u. (got j u).reply) i)) back)

    permission-Inv :
        (m.type_message == permission) ≡ true
        → Inv n addr ids chan target
            (recount got j (permission_seen n addr ids chan group (got j) i))
    permission-Inv r =
        let fi = inv.fixed i hi in
        let fj = inv.fixed j hj in
        let is_counted : is_reply m ≡ true = ground (arith, r) in
        let counted = handle_request-Counted m (s j).process is_counted in
        let (fresh, waits, starts, back) =
          backward_permission n addr ids chan group i j c hi hj ne w (s i) (s j) before after m e
            sound fi fj (inv.local j hj) later.0 later.1 (got j i) r
            (inv.pair j i hj hi (λ q. ne (sym q))) in
        counted-Inv (permission_seen n addr ids chan group (got j) i) is_counted
          (permission-Row n addr ids chan group i j (s j) (handle_request m (s j).process) (got j)
            hi hj ne fj.members counted fresh waits starts (inv.row j hj))
          (λ k h.
            ap (λ (b : Bool). record (got j k) { permission = b })
              (mark_other n addr ids chan group (λ u. (got j u).permission) i k h))
          (subst
            (λ (b : Bool).
              Pair n addr ids chan j i
                (arrived n addr ids chan group s got inv i j c hi hj ne w before after m e)
                (sent n addr ids chan group s got inv i j c hi hj ne w before after m e)
                (record (got j i) { permission = b }))
            (sym (mark_own n addr ids chan group (λ u. (got j u).permission) i)) back)

    request-Views :
        is_reply m ≡ false
        → Views n addr ids chan group i j (s j).process (handle_request m (s j).process)
    request-Views r =
        let und = handle_request-Undisturbed m (s j).process in
        elim (handle_request-cases m (s j).process r) [
          | inl d ↦
              (Deferred-Views n addr ids chan group i j hi m from (s j).process
                (handle_request m (s j).process) d und).0
          | inr (d, _, _) ↦
              (Replied-Views n addr ids chan group i j hi m from (s j).process
                (handle_request m (s j).process) (inv.fixed j hj) d und).0
        ]

    request-Row :
        is_reply m ≡ false
        → Row n addr ids chan j
            (record { process = handle_request m (s j).process; phase = (s j).phase })
            (got j)
    request-Row r =
        let u = handle_request-Unsignalled m (s j).process r in
        let row = inv.row j hj in
        record {
          own = row.own;
          own_permission = row.own_permission;
          counted = u.counter ∙ row.counted;
          one_signal = omega (arith, u.received, row.one_signal);
          signalled = λ h. rw u.counter (row.signalled (omega (arith, h, u.received)));
          fresh = row.fresh;
          signal_there = λ t v k. u.received ∙ row.signal_there t v (omega (arith, k, u.counter));
        }

    request-Inv : is_reply m ≡ false → Inv n addr ids chan target (recount got j (got j))
    request-Inv r =
        let fi = inv.fixed i hi in
        let fj = inv.fixed j hj in
        delivered-Inv n addr ids chan group s got inv i j c hi hj ne w before after m e (got j)
          later.0 (request-Views r)
          (request-Local n addr ids chan group m (s j) (inv.local j hj) later.0 sound.natural
            message_room (room j hj) (rw from (fj.reached i hi)) r)
          (request-Row r) (λ k h. refl)
          (forward_request n addr ids chan group i j c hi hj ne w (s i) (s j) before after m e sound
            fi fj (inv.local j hj) later.0 later.1 (got i j) r (inv.pair i j hi hj ne))
          (backward_request n addr ids chan group i j c hi hj ne w (s i) (s j) before after m e
            sound fi fj (inv.local j hj) later.0 later.1 (request-Views r) (got j i) r
            (inv.pair j i hj hi (λ q. ne (sym q))))

    pub deliver-Inv : (g : ℕ → ℕ → Seen) × Inv n addr ids chan target g
    deliver-Inv = elim (Bool-cases (is_reply m)) [
      | inl r ↦ elim (Bool-cases (m.type_message == reply)) [
        | inl t ↦ (recount got j (reply_seen n addr ids chan group (got j) i), reply-Inv t)
        | inr t ↦ (
          recount got j (permission_seen n addr ids chan group (got j) i),
          permission-Inv (ground (arith, r, t)),
        )
      ]
      | inr r ↦ (recount got j (got j), request-Inv r)
    ]
