-- ===== src/RicartAgrawala/System/Sending.antt =====
-- A goroutine of a multicast sends its message, and what a message that is sent adds to the lists.
use grupo.Prelude.{
  List, [], ◌∷◌, ◌++◌, ◌∙◌, ℕ, ◌+◌, ◌<◌, ◌^◌, String, Bool, ◌≡◌, refl, All, arith, ◌==◌, str_eq,
  not, ◌&&◌, ◌||◌, ◌⊎◌,
}
use mathlib.Core.Path.{subst}
use grupo.Prelude.Int.{==ℤ_iff, ℤ, IsNatural, pos_part, ◌≤ℤ◌}
use grupo.RicartAgrawala.Utils.{reply, request, permission}
use grupo.RicartAgrawala.Message.{Message}
use grupo.RicartAgrawala.Process.{Process, get_index_from_address, send_message, new_message}
use grupo.RicartAgrawala.System.{Node}
use grupo.RicartAgrawala.System.Tally.{
  bit, tally, tally-snoc, tally-middle, All-append, All-middle, All_mono,
}
use grupo.RicartAgrawala.System.Views.{
  unsent, asked, answered, outdated, deferred, uninvited, permitted, calls, invites, asks, answers,
  permits, stale,
}
use grupo.RicartAgrawala.System.Later.{Later, Later-Fixed, Later-sent}
use grupo.RicartAgrawala.System.Invariant.{
  Seen, Sound, Known, Group, Fixed, Local, Row, undisturbed_permission,
}
use grupo.RicartAgrawala.System.Quiet.{Kept}

module _ (n : ℕ) (addr : ℕ → String) (ids : ℕ → ℤ) (chan : ℕ → ℕ → ℕ)
    (group : Group n addr ids chan) (a : ℕ) (x : Node) (got : ℕ → Seen) (lt : a < n)
    (fixed : Fixed n addr ids chan a x.process) (local : Local n addr ids chan x)
    (row : Row n addr ids chan a x got) (room : pos_part x.process.timestamp + 3 < 2 ^ 63) where
  -- What a message on its way to the process of its address adds to the channels.
  pub sent_message :
      (t : ℕ) (b : String) (p : Process) (j : ℕ)
      → (get_index_from_address b p == chan a j) ≡ str_eq b (addr j)
      → (asked (chan a j) (send_message t b p)
          ≡ asked (chan a j) p + bit (str_eq b (addr j) && not (t == reply || t == permission)))
        × (outdated (chan a j) (send_message t b p) ≡ outdated (chan a j) p)
        × (answered (chan a j) (send_message t b p)
            ≡ answered (chan a j) p + bit (str_eq b (addr j) && (t == reply)))
        × (permitted (chan a j) (send_message t b p)
            ≡ permitted (chan a j) p + bit (str_eq b (addr j) && (t == permission)))
  unfolding send_message asked outdated answered permitted
  sent_message t b p j w =
      let m = new_message t p in
      let k = get_index_from_address b p in
      (
        tally-snoc (asks (chan a j)) p.channels (k, m) ∙ ground (arith, w),
        tally-snoc (stale p.request_timestamp (chan a j)) p.channels (k, m)
            ∙ ground (arith, (==ℤ_iff p.request_timestamp p.request_timestamp).1 refl),
        tally-snoc (answers (chan a j)) p.channels (k, m) ∙ ground (arith, w),
        tally-snoc (permits (chan a j)) p.channels (k, m) ∙ ground (arith, w),
      )

  pub sent-Sound :
      (t : ℕ) (b : String) (p : Process)
      → IsNatural p.timestamp
      → p.request_timestamp ≤ℤ p.timestamp
      → All (λ (e : ℕ × Message). Sound p e.1) p.channels
      → All (λ (e : ℕ × Message). Sound (send_message t b p) e.1) (send_message t b p).channels
  unfolding send_message
  sent-Sound t b p nat past h =
      All_mono (λ (e : ℕ × Message). Sound p e.1)
        (λ (e : ℕ × Message). Sound (send_message t b p) e.1) (send_message t b p).channels
        (λ e k. record {
          address = k.address;
          id = k.id;
          natural = k.natural;
          past = k.past;
          request_past = k.request_past;
        })
        (All-append (λ (e : ℕ × Message). Sound p e.1) p.channels
          ((get_index_from_address b p, new_message t p) ∷ []) h
          (
            record {
              address = refl;
              id = refl;
              natural = nat;
              past = omega arith;
              request_past = past;
            },
            tt,
          ))

  pub send-Kept :
      (t : ℕ) (b : String) (before after : List (ℕ × String))
      → x.process.spawned ≡ before ++ ((t, b) ∷ after)
      → Kept n addr ids chan a x
          (record {
            process = send_message t b (record x.process { spawned = before ++ after });
            phase = x.phase;
          })
          got
          got
  unfolding send_message unsent deferred uninvited asked answered outdated permitted
      get_index_from_address
  send-Kept t b before after e =
      let (head, rest) =
        All-middle (Known x.process) before after (t, b)
          (subst (All (Known x.process)) e local.spawned) in
      let type_of : (t ≡ request) ⊎ (t ≡ permission) = head.0 in
      let q = record x.process { spawned = before ++ after } in
      let x' : Node = record { process = send_message t b q; phase = x.phase } in
      let l : Later x.process q = record {
        address = refl;
        id = refl;
        addresses = refl;
        channel_index = refl;
        natural = local.clock;
        passed = omega arith;
      } in
      let gone : (f : ℕ × String → Bool)
          → tally f x.process.spawned ≡ bit (f (t, b)) + tally f (before ++ after) =
        λ f. rw e (tally-middle f before after (t, b)) in
      record {
        fixed =
            Later-Fixed n addr ids chan a x.process x'.process
              (record {
                address = refl;
                id = refl;
                addresses = refl;
                channel_index = refl;
                natural = local.clock;
                passed = omega arith;
              })
              fixed;
        local = record {
          clock = local.clock;
          stamp = local.stamp;
          stamp_past = local.stamp_past;
          state = local.state;
          spawned = rest;
          queue = local.queue;
          sent =
              sent-Sound t b q local.clock local.stamp_past
                (Later-sent x.process q x.process.channels l local.sent);
        };
        row = record {
          own = row.own;
          own_permission = row.own_permission;
          counted = row.counted;
          one_signal = row.one_signal;
          signalled = row.signalled;
          fresh = row.fresh;
          signal_there = row.signal_there;
        };
        asker = λ j y hj ne h.
            let sent = sent_message t b q j (fixed.wired b j hj head.1) in
            let kind : bit (calls (addr j) (t, b))
                ≡ bit (str_eq b (addr j) && not (t == reply || t == permission)) =
              ground (arith, type_of) in
            record {
              one_message = omega (arith, h.one_message, gone (calls (addr j)), sent.0, kind);
              up_to_date = sent.1 ∙ h.up_to_date;
              heard = h.heard;
              first = h.first;
              complete = h.complete;
              invite =
                  undisturbed_permission n addr ids chan a j x y x' y (got j).permission h.invite
                    (λ k. k) refl refl refl;
            };
        answerer = λ i y g hi ne h.
            let sent = sent_message t b q i (fixed.wired b i hi head.1) in
            let same : answered (chan a i) x'.process ≡ answered (chan a i) x.process =
              ground (arith, sent.2, type_of) in
            record {
              one_message = omega (arith, h.one_message, same);
              up_to_date = h.up_to_date;
              heard = λ k. h.heard (omega (arith, k, same));
              first = λ k c. h.first (omega (arith, k, same)) c;
              complete = h.complete;
              invite = record {
                one_permission =
                    omega (arith, h.invite.one_permission, gone (invites (addr i)), sent.3);
                all_seen = h.invite.all_seen;
              };
            };
      }
