-- ===== src/RicartAgrawala/System/Asking.antt =====
-- A process multicasts its request, or the permission at the start.
use grupo.Prelude.{
  List, [], ◌∷◌, ◌++◌, ◌∙◌, eq_iff, ℕ, ◌+◌, ◌<◌, ◌^◌, String, Bool, true, false, ◌≡◌, ◌≢◌, refl,
  sym, All, arith, str_eq, contains, ◌==◌, ◌&&◌, ◌⊎◌, inl, inr, if◌then◌else◌,
}
use grupo.Prelude.Int.{ℤ, pos_part}
use grupo.RicartAgrawala.Utils.{request, permission}
use grupo.RicartAgrawala.Process.{
  Process, update_timestamp, do_multicast, others, goroutines, send_permission_to_all_processes,
}
use grupo.RicartAgrawala.System.{Phase, opened, greeting, stamped, waiting, Node}
use grupo.RicartAgrawala.System.Tally.{bit, tally, tally-append, All-append}
use grupo.RicartAgrawala.System.Views.{
  unsent, asked, answered, outdated, deferred, uninvited, permitted,
}
use grupo.RicartAgrawala.System.Later.{
  Later, tick-Later, Later-Fixed, Later-Known, Later-queue, Later-sent,
}
use grupo.RicartAgrawala.System.Phases.{state_of}
use grupo.RicartAgrawala.System.Invariant.{
  Seen, Known, Group, Fixed, Local, Row, undisturbed_permission,
}
use grupo.RicartAgrawala.System.Quiet.{Kept}
use grupo.RicartAgrawala.Process.Addresses.{contains-others}
use grupo.Prelude.GoMap.{has}

-- The goroutines of one type of message, those for address `a` that a test on the type passes.
goroutines-tally :
    (a : String) (t : ℕ) (f : ℕ → Bool) (bs : List String)
    → tally (λ (g : ℕ × String). str_eq g.1 a && f g.0) (goroutines t bs)
      ≡ (if f t then tally (λ b. str_eq b a) bs else 0)
unfolding goroutines tally
goroutines-tally a t f [] = ground arith
goroutines-tally a t f (b ∷ bs) = ground (arith, goroutines-tally a t f bs)

pub others-tally :
    (own a : String) (bs : List String)
    → str_eq a own ≡ false
    → tally (λ b. str_eq b a) (others own bs) ≡ tally (λ b. str_eq b a) bs
unfolding others tally
others-tally own a [] h = refl
others-tally own a (b ∷ bs) h =
    ground (arith, others-tally own a bs h, eq_iff b a, eq_iff b own, eq_iff a own)

goroutines-Known :
    (p : Process) (t : ℕ) (bs : List String)
    → (t ≡ request) ⊎ (t ≡ permission)
    → ((b : String) → contains b bs ≡ true → has b p.channel_index ≡ true)
    → All (Known p) (goroutines t bs)
unfolding goroutines contains
goroutines-Known p t [] w h = tt
goroutines-Known p t (b ∷ bs) w h = (
  (w, h b (ground (arith, eq_iff b b))),
  goroutines-Known p t bs w (λ c k. h c (ground (arith, k))),
)

module _ (n : ℕ) (addr : ℕ → String) (ids : ℕ → ℤ) (chan : ℕ → ℕ → ℕ)
    (group : Group n addr ids chan) (a : ℕ) (x : Node) (got : ℕ → Seen) (lt : a < n)
    (fixed : Fixed n addr ids chan a x.process) (local : Local n addr ids chan x)
    (row : Row n addr ids chan a x got) (room : pos_part x.process.timestamp + 3 < 2 ^ 63) where
  multicast-tally :
      (t : ℕ) (f : ℕ → Bool) (j : ℕ)
      → j < n
      → a ≢ j
      → tally (λ (g : ℕ × String). str_eq g.1 (addr j) && f g.0) (do_multicast t x.process).spawned
        ≡ tally (λ (g : ℕ × String). str_eq g.1 (addr j) && f g.0) x.process.spawned + bit (f t)
  unfolding do_multicast update_timestamp
  multicast-tally t f j hj ne =
      let names = others x.process.address x.process.processes_addresses in
      let once =
        others-tally x.process.address (addr j) x.process.processes_addresses
          (rw fixed.address (group.addresses j a hj lt ∙ ground arith)) in
      tally-append (λ (g : ℕ × String). str_eq g.1 (addr j) && f g.0) x.process.spawned
        (goroutines t names)
      ∙ ground (arith, goroutines-tally (addr j) t f names, once, fixed.listed j hj)

  -- What a multicast leaves behind.
  multicast-Local :
      (t : ℕ) (phase : Phase)
      → (t ≡ request) ⊎ (t ≡ permission)
      → state_of phase ≡ state_of x.phase
      → Local n addr ids chan (record { process = do_multicast t x.process; phase = phase })
        × Later x.process (do_multicast t x.process)
  unfolding do_multicast update_timestamp
  multicast-Local t phase w same =
      let p' = do_multicast t x.process in
      let u = (tick-Later x.process local.clock (omega arith)).0 in
      let l : Later x.process p' = record {
        address = refl;
        id = refl;
        addresses = refl;
        channel_index = refl;
        natural = u.natural;
        passed = u.passed;
      } in
      let names = others x.process.address x.process.processes_addresses in
      (
        record {
          clock = l.natural;
          stamp = local.stamp;
          stamp_past = ground (arith, local.stamp_past, l.passed);
          state = local.state ∙ sym same;
          spawned = Later-Known x.process p' (x.process.spawned ++ goroutines t names) l (
              All-append (Known x.process) x.process.spawned (goroutines t names) local.spawned (
                goroutines-Known x.process t names w (λ b h. fixed.known b (
                  ground
                    (arith, contains-others x.process.address b x.process.processes_addresses)))));
          queue = Later-queue x.process p' x.process.q.buffer l local.queue;
          sent = Later-sent x.process p' x.process.channels l local.sent;
        },
        l,
      )

  pub ask-Kept :
      x.phase ≡ stamped
      → Kept n addr ids chan a x
          (record { process = do_multicast request x.process; phase = waiting })
          got
          got
  unfolding do_multicast update_timestamp unsent asked answered outdated deferred uninvited
      permitted
  ask-Kept e =
      let p' = do_multicast request x.process in
      let x' : Node = record { process = p'; phase = waiting } in
      let (local', l) = multicast-Local request waiting (inl refl) (rw e refl) in
      record {
        fixed = Later-Fixed n addr ids chan a x.process p' l fixed;
        local = local';
        row = record {
          own = row.own;
          own_permission = row.own_permission;
          counted = ground (arith, row.counted);
          one_signal = row.one_signal;
          signalled = λ k. absurd (ground (arith, row.signalled k));
          fresh = λ o. absurd (ground arith);
          signal_there =
              λ m w k. absurd (ground (arith, m, k, row.counted, row.fresh (ground arith)));
        };
        asker = λ j y hj ne h. record {
          one_message =
              ground (arith, h.one_message, multicast-tally request (λ t. t == request) j hj ne);
          up_to_date = h.up_to_date;
          heard = λ k. ground (arith, h.heard);
          first = λ k c. ground (arith, h.first);
          complete = λ k. absurd (ground arith);
          invite =
              undisturbed_permission n addr ids chan a j x y x' y (got j).permission h.invite
                (λ k. rw e refl) refl refl refl;
        };
        answerer = λ i y g hi ne h. record {
          one_message = h.one_message;
          up_to_date = h.up_to_date;
          heard = λ k. ground (arith, h.heard k, l.passed);
          first = λ k c. ground (arith, h.first k, h.heard);
          complete = h.complete;
          invite =
              undisturbed_permission n addr ids chan i a y x y x' g.permission h.invite (λ k. k)
                (ground
                  (arith, multicast-tally request (λ t. t == permission) i hi (λ q. ne (sym q))))
                refl (rw e refl);
        };
      }

  pub greet-Kept :
      x.phase ≡ opened
      → Kept n addr ids chan a x
          (record { process = send_permission_to_all_processes x.process; phase = greeting })
          got
          got
  unfolding send_permission_to_all_processes do_multicast update_timestamp unsent asked answered
      outdated deferred uninvited permitted
  greet-Kept e =
      let p' = do_multicast permission x.process in
      let x' : Node = record { process = p'; phase = greeting } in
      let (local', l) = multicast-Local permission greeting (inr refl) (rw e refl) in
      record {
        fixed = Later-Fixed n addr ids chan a x.process p' l fixed;
        local = local';
        row = record {
          own = row.own;
          own_permission = row.own_permission;
          counted = ground (arith, row.counted);
          one_signal = row.one_signal;
          signalled = λ k. ground (arith, row.signalled k);
          fresh = λ o. row.fresh (rw e refl);
          signal_there = λ m w k. row.signal_there m (rw e refl) k;
        };
        asker = λ j y hj ne h. record {
          one_message =
              ground (arith, h.one_message, multicast-tally permission (λ t. t == request) j hj ne);
          up_to_date = h.up_to_date;
          heard = λ k. ground (arith, h.heard);
          first = λ k c. ground (arith, h.first);
          complete = λ k. absurd (ground arith);
          invite =
              undisturbed_permission n addr ids chan a j x y x' y (got j).permission h.invite
                (λ k. absurd (ground arith)) refl refl refl;
        };
        answerer = λ i y g hi ne h. record {
          one_message = h.one_message;
          up_to_date = h.up_to_date;
          heard = λ k. ground (arith, h.heard k, l.passed);
          first = λ k c. absurd (ground arith);
          complete = h.complete;
          invite = record {
            one_permission = ground (
              arith,
              h.invite.one_permission,
              multicast-tally permission (λ t. t == permission) i hi (λ q. ne (sym q)),
            );
            all_seen = h.invite.all_seen;
          };
        };
      }
