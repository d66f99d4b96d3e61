-- ===== src/RicartAgrawala/System/Answering.antt =====
-- A process that leaves answers a request of its queue.
use grupo.Prelude.{
  List, [], ◌∷◌, ◌∙◌, ℕ, ◌+◌, ◌<◌, ◌^◌, String, Bool, true, false, ◌≡◌, refl, ap, some, All, arith,
  str_eq,
}
use mathlib.Core.Path.{subst}
use grupo.Prelude.Int.{ℤ, pos_part}
use grupo.RicartAgrawala.Utils.{reply}
use grupo.RicartAgrawala.Message.{Message}
use grupo.RicartAgrawala.Queue
use grupo.RicartAgrawala.Process.{
  Process, get_index_from_address, update_timestamp, send_message, get_message_queue_top_request,
  is_message_queue_empty, tick,
}
use grupo.RicartAgrawala.System.{leaving, Node}
use grupo.RicartAgrawala.System.Tally.{bit, tally}
use grupo.RicartAgrawala.System.Views.{
  unsent, asked, answered, outdated, deferred, uninvited, permitted, comes_from,
}
use grupo.RicartAgrawala.System.Later.{Later, tick-Later, Later-Fixed, Later-Known, Later-sent}
use grupo.RicartAgrawala.System.Invariant.{Seen, Group, Fixed, Local, Row, undisturbed_permission}
use grupo.RicartAgrawala.System.Quiet.{Kept}
use grupo.RicartAgrawala.System.Sending.{sent_message, sent-Sound}
use grupo.Prelude.GoMap.{has}

-- What getMessageQueueTopRequest takes from the queue.
top_request :
    (p p' : Process) (b : String) (ms : List Message)
    → p.q.buffer ≡ ms
    → get_message_queue_top_request p ≡ some (b, p')
    → (m : Message) × (rest : List Message) × (p.q.buffer ≡ m ∷ rest)
      × (m.address ≡ b)
      × (record (tick p) { q = record { buffer = rest } } ≡ p')
unfolding get_message_queue_top_request Queue.pop update_timestamp
top_request p p' b [] e h = absurd (ground arith)
top_request p p' b (m ∷ ms) e h = (m, ms, e, ground arith, ground arith)

module _ (n : ℕ) (addr : ℕ → String) (ids : ℕ → ℤ) (chan : ℕ → ℕ → ℕ)
    (group : Group n addr ids chan) (a : ℕ) (x : Node) (got : ℕ → Seen) (lt : a < n)
    (fixed : Fixed n addr ids chan a x.process) (local : Local n addr ids chan x)
    (row : Row n addr ids chan a x got) (room : pos_part x.process.timestamp + 3 < 2 ^ 63) where
  answer_head :
      (m : Message) (rest : List Message)
      → x.phase ≡ leaving
      → x.process.q.buffer ≡ m ∷ rest
      → Kept n addr ids chan a x
          (record {
            process =
                send_message reply m.address
                  (record (tick (tick x.process)) { q = record { buffer = rest } });
            phase = leaving;
          })
          got
          got
  unfolding send_message update_timestamp unsent deferred asked answered outdated uninvited
      permitted get_index_from_address tally
  answer_head m rest e buf =
      let q = record (tick (tick x.process)) { q = record { buffer = rest } } in
      let p' = send_message reply m.address q in
      let x' : Node = record { process = p'; phase = leaving } in
      let t1 = tick-Later x.process local.clock (omega arith) in
      let t2 = tick-Later (tick x.process) t1.0.natural (omega arith) in
      let l : Later x.process q = record {
        address = refl;
        id = refl;
        addresses = refl;
        channel_index = refl;
        natural = t2.0.natural;
        passed = omega (arith, t1.0.passed, t2.0.passed);
      } in
      let known : All (λ (o : Message). has o.address x.process.channel_index ≡ true) (m ∷ rest) =
        subst (All (λ (o : Message). has o.address x.process.channel_index ≡ true)) buf
          local.queue in
      record {
        fixed =
            Later-Fixed n addr ids chan a x.process p'
              (record {
                address = refl;
                id = refl;
                addresses = refl;
                channel_index = refl;
                natural = l.natural;
                passed = l.passed;
              })
              fixed;
        local = record {
          clock = l.natural;
          stamp = local.stamp;
          stamp_past = ground (arith, local.stamp_past, l.passed);
          state = ground (arith, local.state);
          spawned =
              Later-Known x.process p' x.process.spawned
                (record {
                  address = refl;
                  id = refl;
                  addresses = refl;
                  channel_index = refl;
                  natural = l.natural;
                  passed = l.passed;
                })
                local.spawned;
          queue = known.1;
          sent =
              sent-Sound n addr ids chan group a x got lt fixed local row room reply m.address q
                l.natural (ground (arith, local.stamp_past, l.passed))
                (Later-sent x.process q x.process.channels l local.sent);
        };
        row = record {
          own = row.own;
          own_permission = row.own_permission;
          counted = ground (arith, row.counted);
          one_signal = row.one_signal;
          signalled = λ k. ground (arith, row.signalled k);
          fresh = λ o. absurd (ground arith);
          signal_there = λ h w k. absurd (ground arith);
        };
        asker = λ j y hj ne h.
            let sent =
              sent_message n addr ids chan group a x got lt fixed local row room reply m.address q j
                (fixed.wired m.address j hj known.0) in
            record {
              one_message = ground (arith, h.one_message, sent.0);
              up_to_date = sent.1 ∙ h.up_to_date;
              heard = λ k. ground (arith, h.heard);
              first = λ k c. ground (arith, h.first);
              complete = λ k. ground (arith, h.complete);
              invite =
                  undisturbed_permission n addr ids chan a j x y x' y (got j).permission h.invite
                    (λ k. rw e refl) refl refl refl;
            };
        answerer = λ i y g hi ne h.
            let sent =
              sent_message n addr ids chan group a x got lt fixed local row room reply m.address q i
                (fixed.wired m.address i hi known.0) in
            let gone : deferred (addr i) x.process
                ≡ bit (str_eq m.address (addr i)) + tally (comes_from (addr i)) rest =
              ap (tally (comes_from (addr i))) buf in
            let more : answered (chan a i) p'
                ≡ answered (chan a i) q + bit (str_eq m.address (addr i)) =
              ground (arith, sent.2) in
            record {
              one_message = omega (arith, h.one_message, more, gone);
              up_to_date = h.up_to_date;
              heard = λ k. omega (arith, h.heard (omega (arith, k, more, gone)), l.passed);
              first = λ k c. absurd (ground (arith, c));
              complete = h.complete;
              invite =
                  undisturbed_permission n addr ids chan i a y x y x' g.permission h.invite (λ k. k)
                    refl (ground (arith, sent.3)) (rw e refl);
            };
      }

  pub answer-Kept :
      (b : String) (p p' : Process)
      → x.phase ≡ leaving
      → is_message_queue_empty x.process ≡ (false, p)
      → get_message_queue_top_request p ≡ some (b, p')
      → Kept n addr ids chan a x
          (record { process = send_message reply b p'; phase = leaving })
          got
          got
  unfolding is_message_queue_empty update_timestamp
  answer-Kept b p p' e o h =
      let is_p : tick x.process ≡ p = ap (λ (r : Bool × Process). r.1) o in
      let (m, rest, buf, is_b, is_p') = top_request p p' b p.q.buffer refl h in
      let same : record (tick (tick x.process)) { q = record { buffer = rest } } ≡ p' =
        ap (λ (r : Process). record (tick r) { q = record { buffer = rest } }) is_p ∙ is_p' in
      subst
        (λ (r : Process).
          Kept n addr ids chan a x (record { process = r; phase = leaving }) got got)
        (ap (λ (r : Process). send_message reply m.address r) same
          ∙ ap (λ (c : String). send_message reply c p') is_b)
        (answer_head m rest e (ap (λ (r : Process). r.q.buffer) is_p ∙ buf))
