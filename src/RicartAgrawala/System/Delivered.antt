-- ===== src/RicartAgrawala/System/Delivered.antt =====
-- The invariant after a message of process `i` is handled by process `j`.
use mathlib.Core.Path.{subst}
use grupo.Prelude.{
  ℕ, ◌+◌, ◌<◌, ◌^◌, String, true, false, ◌≡◌, ◌≢◌, inl, inr, sym, ◌∙◌, List, [], ◌∷◌, ◌++◌, All,
  arith, ◌==◌, if◌then◌else◌,
}
use grupo.Prelude.Int.{ℤ, IsNatural, pos_part}
use grupo.Prelude.GoMap.{has}
use grupo.RicartAgrawala.Utils.{reply}
use grupo.RicartAgrawala.Message.{Message}
use grupo.RicartAgrawala.Process.{
  get_index_from_address, handle_request, update_timestamp, new_message,
}
use grupo.RicartAgrawala.Process.Clock.{update_timestamp-later}
use grupo.RicartAgrawala.System.{Node, System}
use grupo.RicartAgrawala.System.Tally.{All-append}
use grupo.RicartAgrawala.System.Views.{is_reply}
use grupo.RicartAgrawala.System.Invariant.{Seen, Sound, Group, Fixed, Local, Row, Pair}
use grupo.RicartAgrawala.System.Later.{Later, Later-Fixed, Later-Known, Later-queue, Later-sent}
use grupo.RicartAgrawala.System.Receiving.{
  handle_request-Undisturbed, handle_request-Counted, handle_request-cases,
}
use grupo.RicartAgrawala.System.Delivering.{sender}
use grupo.RicartAgrawala.System.Arriving.{Views}
use grupo.RicartAgrawala.System.{System, set}
use grupo.RicartAgrawala.System.Invariant.{Inv}
use grupo.RicartAgrawala.System.Delivering.{
  sender-Fixed, sender-Local, sender-Row, sender-asker, sender-answerer,
}
use grupo.RicartAgrawala.System.Arriving.{receiver-asker, receiver-answerer}
use grupo.RicartAgrawala.System.Stepping.{by_test, recount}

module _ (n : ℕ) (addr : ℕ → String) (ids : ℕ → ℤ) (chan : ℕ → ℕ → ℕ)
    (group : Group n addr ids chan) where
  -- The node of the receiver.
  module _ (m : Message) (y : Node) (ly : Local n addr ids chan y)
      (l : Later y.process (handle_request m y.process)) where
    abbrev handled : Node
    handled = record { process = handle_request m y.process; phase = y.phase }

    assembled :
        All
          (λ (o : Message). has o.address y.process.channel_index ≡ true)
          (handle_request m y.process).q.buffer
        → All
            (λ (o : ℕ × Message). Sound (handle_request m y.process) o.1)
            (handle_request m y.process).channels
        → Local n addr ids chan handled
    assembled buf ch =
        let und = handle_request-Undisturbed m y.process in
        record {
          clock = l.natural;
          stamp = rw und.request_timestamp ly.stamp;
          stamp_past = rw und.request_timestamp (omega (arith, ly.stamp_past, l.passed));
          state = und.state ∙ ly.state;
          spawned =
              rw und.spawned (Later-Known y.process handled.process y.process.spawned l ly.spawned);
          queue = Later-queue y.process handled.process handled.process.q.buffer l buf;
          sent = ch;
        }

    old_sent : All (λ (o : ℕ × Message). Sound handled.process o.1) y.process.channels
    old_sent = Later-sent y.process handled.process y.process.channels l ly.sent

    pub reply-Local : is_reply m ≡ true → Local n addr ids chan handled
    reply-Local r =
        let c = handle_request-Counted m y.process r in
        assembled (rw c.buffer ly.queue)
          (subst (All (λ (o : ℕ × Message). Sound handled.process o.1)) (sym c.channels) old_sent)

    reply-Sound :
        IsNatural m.timestamp
        → pos_part m.timestamp + 3 < 2 ^ 63
        → pos_part y.process.timestamp + 3 < 2 ^ 63
        → handled.process.timestamp ≡ (update_timestamp m.timestamp y.process).timestamp
        → Sound handled.process (new_message reply (update_timestamp m.timestamp y.process))
    unfolding update_timestamp
    reply-Sound natural rm ry at =
        let first =
          update_timestamp-later m.timestamp y.process natural ly.clock (omega arith)
            (omega arith) in
        record {
          address = sym l.address;
          id = sym l.id;
          natural = first.0;
          past = rw at (omega arith);
          request_past = omega (arith, ly.stamp_past, first.2);
        }

    pub request-Local :
        (natural : IsNatural m.timestamp)
        → pos_part m.timestamp + 3 < 2 ^ 63
        → pos_part y.process.timestamp + 3 < 2 ^ 63
        → has m.address y.process.channel_index ≡ true
        → is_reply m ≡ false
        → Local n addr ids chan handled
    request-Local natural rm ry known r = elim (handle_request-cases m y.process r) [
      | inl d ↦
          assembled
            (rw d.0 (
              All-append (λ (o : Message). has o.address y.process.channel_index ≡ true)
                y.process.q.buffer (m ∷ []) ly.queue (known, tt)))
            (subst (All (λ (o : ℕ × Message). Sound handled.process o.1)) (sym d.1) old_sent)
      | inr (d, _, at) ↦ assembled (rw d.0 ly.queue) (
          subst (All (λ (o : ℕ × Message). Sound handled.process o.1)) (sym d.1) (
            All-append (λ (o : ℕ × Message). Sound handled.process o.1) y.process.channels
              ((
                get_index_from_address m.address y.process,
                new_message reply (update_timestamp m.timestamp y.process),
              )
                ∷ [])
              old_sent (reply-Sound natural rm ry at, tt)))
    ]

  -- The step as a whole, from what becomes of the receiver and of the two requests between them.
  module _ (s : System) (got : ℕ → ℕ → Seen) (inv : Inv n addr ids chan s got) (i j c : ℕ)
      (hi : i < n) (hj : j < n) (ne : i ≢ j) (w : (k : ℕ) → k < n → (c == chan i k) ≡ (j == k))
      (before after : List (ℕ × Message)) (m : Message)
      (e : (s i).process.channels ≡ before ++ ((c, m) ∷ after)) where
    abbrev pub sent : Node
    sent = sender n addr ids chan group i j c w (s i) before after m e

    abbrev pub arrived : Node
    arrived = record { process = handle_request m (s j).process; phase = (s j).phase }

    abbrev pub after_step : System
    after_step = set (set s i sent) j arrived

    from_receiver :
        (g : ℕ → Seen) (l : Later (s j).process arrived.process)
        → Views n addr ids chan group i j (s j).process arrived.process
        → ((k : ℕ) → k ≢ i → g k ≡ got j k)
        → Pair n addr ids chan j i arrived sent (g i)
        → (o : ℕ) → o < n
        → j ≢ o
        → Pair n addr ids chan j o arrived (after_step o) (g o)
    from_receiver g l v same backward o ho jo =
        by_test
          (λ c. Pair n addr ids chan j o arrived (if c then arrived else set s i sent o) (g o))
          (j == o) (λ f. absurd (ground arith))
          (λ f.
            by_test (λ c. Pair n addr ids chan j o arrived (if c then sent else s o) (g o)) (i == o)
              (λ h.
                subst (λ u. Pair n addr ids chan j u arrived sent (g u)) (ground arith) backward)
              (λ h. receiver-asker n addr ids chan group i j (s j) m l v o (s o) (g o) ho (
                subst (λ b. Pair n addr ids chan j o (s j) (s o) b) (sym (same o (ground arith)))
                  (inv.pair j o hj ho jo))))

    from_sender :
        Pair n addr ids chan i j sent arrived (got i j)
        → (o : ℕ) → o < n
        → i ≢ o
        → Pair n addr ids chan i o sent (after_step o) (got i o)
    from_sender forward o ho io =
        by_test
          (λ c. Pair n addr ids chan i o sent (if c then arrived else set s i sent o) (got i o))
          (j == o)
          (λ f. subst (λ u. Pair n addr ids chan i u sent arrived (got i u)) (ground arith) forward)
          (λ f.
            by_test (λ c. Pair n addr ids chan i o sent (if c then sent else s o) (got i o))
              (i == o) (λ h. absurd (ground arith))
              (λ h.
                sender-asker n addr ids chan group i j c w (s i) before after m e o (s o) (got i o)
                  ho (ground arith) (inv.pair i o hi ho io)))

    from_other :
        (l : Later (s j).process arrived.process)
        → Views n addr ids chan group i j (s j).process arrived.process
        → (k o : ℕ) → k < n
        → o < n
        → k ≢ o
        → j ≢ k
        → i ≢ k
        → Pair n addr ids chan k o (s k) (after_step o) (got k o)
    from_other l v k o hk ho ko jk ik =
        by_test
          (λ c. Pair n addr ids chan k o (s k) (if c then arrived else set s i sent o) (got k o))
          (j == o)
          (λ f.
            subst (λ u. Pair n addr ids chan k u (s k) arrived (got k u)) (ground arith)
              (receiver-answerer n addr ids chan group i j (s j) m l v k (s k) (got k j) hk
                (ground arith) (inv.pair k j hk hj (ground arith))))
          (λ f.
            by_test (λ c. Pair n addr ids chan k o (s k) (if c then sent else s o) (got k o))
              (i == o)
              (λ h.
                subst (λ u. Pair n addr ids chan k u (s k) sent (got k u)) (ground arith)
                  (sender-answerer n addr ids chan group i j c w (s i) before after m e k (s k)
                    (got k i) hk (ground arith) (inv.pair k i hk hi (ground arith))))
              (λ h. inv.pair k o hk ho ko))

    pub delivered-Inv :
        (g : ℕ → Seen)
        → Later (s j).process arrived.process
        → Views n addr ids chan group i j (s j).process arrived.process
        → Local n addr ids chan arrived
        → Row n addr ids chan j arrived g
        → ((k : ℕ) → k ≢ i → g k ≡ got j k)
        → Pair n addr ids chan i j sent arrived (got i j)
        → Pair n addr ids chan j i arrived sent (g i)
        → Inv n addr ids chan after_step (recount got j g)
    delivered-Inv g l v local row same forward backward = record {
      fixed = λ k hk.
          by_test (λ c. Fixed n addr ids chan k (if c then arrived else set s i sent k).process)
            (j == k)
            (λ f.
              subst (λ u. Fixed n addr ids chan u arrived.process) (ground arith)
                (Later-Fixed n addr ids chan j (s j).process arrived.process l (inv.fixed j hj)))
            (λ f.
              by_test (λ c. Fixed n addr ids chan k (if c then sent else s k).process) (i == k)
                (λ h.
                  subst (λ u. Fixed n addr ids chan u sent.process) (ground arith)
                    (sender-Fixed n addr ids chan group i j c w (s i) before after m e
                      (inv.local i hi) (inv.fixed i hi)))
                (λ h. inv.fixed k hk));
      local = λ k hk.
          by_test (λ c. Local n addr ids chan (if c then arrived else set s i sent k)) (j == k)
            (λ f. local)
            (λ f.
              by_test (λ c. Local n addr ids chan (if c then sent else s k)) (i == k)
                (λ h.
                  sender-Local n addr ids chan group i j c w (s i) before after m e
                    (inv.local i hi))
                (λ h. inv.local k hk));
      row = λ k hk.
          by_test
            (λ c.
              Row n addr ids chan k (if c then arrived else set s i sent k)
                (if c then g else got k))
            (j == k) (λ f. subst (λ u. Row n addr ids chan u arrived g) (ground arith) row)
            (λ f.
              by_test (λ c. Row n addr ids chan k (if c then sent else s k) (got k)) (i == k)
                (λ h.
                  subst (λ u. Row n addr ids chan u sent (got u)) (ground arith)
                    (sender-Row n addr ids chan group i j c w (s i) before after m e (got i)
                      (inv.row i hi)))
                (λ h. inv.row k hk));
      pair = λ k o hk ho ko.
          by_test
            (λ c.
              Pair n addr ids chan k o (if c then arrived else set s i sent k) (after_step o)
                ((if c then g else got k) o))
            (j == k)
            (λ f.
              subst (λ u. Pair n addr ids chan u o arrived (after_step o) (g o)) (ground arith)
                (from_receiver g l v same backward o ho (ground arith)))
            (λ f.
              by_test
                (λ c. Pair n addr ids chan k o (if c then sent else s k) (after_step o) (got k o))
                (i == k)
                (λ h.
                  subst (λ u. Pair n addr ids chan u o sent (after_step o) (got u o)) (ground arith)
                    (from_sender forward o ho (ground arith)))
                (λ h. from_other l v k o hk ho ko (ground arith) (ground arith)));
    }
