-- ===== src/RicartAgrawala/Handling/Stages.antt =====
-- The stages of handleRequest, when nothing comes in between, and what they leave alone.
use mathlib.Core.List.{append_assoc, append-nil}
use grupo.Prelude.{
  ℕ, ◌+◌, Bool, Bool-cases, inl, inr, ◌≡◌, refl, sym, ap, ◌∙◌, List, [], ◌∷◌, ◌++◌, ◌&&◌, ◌||◌,
  ◌==◌, arith, if◌then◌else◌,
}
use grupo.RicartAgrawala.Utils.{reply, permission, wanted, held}
use grupo.RicartAgrawala.Message.{Message}
use grupo.RicartAgrawala.Counter.{add_reply, size}
use grupo.RicartAgrawala.Process.{
  Process, tick, update_timestamp, number_of_processes, signal_if_all, increment_reply,
  enqueue_message, send_message, less, handle_request, get_index_from_address, new_message,
}
use grupo.RicartAgrawala.Handling.{
  Handling, received, clocked, not_held, deferring, answering, counting, added, signalling, handled,
  stage, stages, rest_of, settle_all,
}

-- An access does a part of what is left.
pub rest_of-stage : (h : Handling) (p : Process) → rest_of (stage h p).0 (stage h p).1 ≡ rest_of h p
unfolding stage rest_of handle_request increment_reply signal_if_all
rest_of-stage (received m) p = refl
rest_of-stage (clocked m) p = ground arith
rest_of-stage counting p = refl
rest_of-stage added p = ground arith
rest_of-stage signalling p = refl
rest_of-stage (not_held m) p = ground arith
rest_of-stage (deferring m) p = refl
rest_of-stage (answering m) p = refl
rest_of-stage handled p = refl

pub stages-handle_request :
    (m : Message) (p : Process) → stages 5 (received m) p ≡ (handled, handle_request m p)
unfolding stages stage handle_request increment_reply signal_if_all
stages-handle_request m p = ground arith

pub state-rest_of : (h : Handling) (p : Process) → (rest_of h p).state ≡ p.state
unfolding rest_of handle_request increment_reply signal_if_all enqueue_message send_message
    update_timestamp
state-rest_of (received m) p = ground arith
state-rest_of (clocked m) p = ground arith
state-rest_of counting p = ground arith
state-rest_of added p = ground arith
state-rest_of signalling p = refl
state-rest_of (not_held m) p = ground arith
state-rest_of (deferring m) p = refl
state-rest_of (answering m) p = refl
state-rest_of handled p = refl

pub state-settle_all : (hs : List Handling) (p : Process) → (settle_all hs p).state ≡ p.state
unfolding settle_all
state-settle_all [] p = refl
state-settle_all (h ∷ hs) p = state-settle_all hs (rest_of h p) ∙ state-rest_of h p

pub settle_all-append :
    (hs : List Handling) (h : Handling) (p : Process)
    → settle_all (hs ++ h ∷ []) p ≡ rest_of h (settle_all hs p)
unfolding settle_all
settle_all-append [] h p = refl
settle_all-append (h' ∷ hs) h p = settle_all-append hs h (rest_of h' p)

-- A change of a process that adds messages behind those in the channels, whatever these are, and
-- leaves its addresses alone.
pub record Appends (f : Process → Process) (p : Process) : Type 0 where
  pub extra : List (ℕ × Message)
  pub appended :
      (c : List (ℕ × Message))
      → f (record p { channels = c }) ≡ record (f p) { channels = c ++ extra }
  pub address : (f p).address ≡ p.address
  pub channel_index : (f p).channel_index ≡ p.channel_index

silent :
    (f : Process → Process) (p : Process)
    → ((c : List (ℕ × Message)) → f (record p { channels = c }) ≡ record (f p) { channels = c })
    → (f p).address ≡ p.address
    → (f p).channel_index ≡ p.channel_index
    → Appends f p
silent f p same a i = record {
  extra = [];
  appended = λ c.
      same c ∙ ap (λ (x : List (ℕ × Message)). record (f p) { channels = x }) (sym (append-nil c));
  address = a;
  channel_index = i;
}

chosen :
    (test : Process → Bool) (f g : Process → Process) (p : Process)
    → ((c : List (ℕ × Message)) → test (record p { channels = c }) ≡ test p)
    → Appends f p
    → Appends g p
    → Appends (λ q. if test q then f q else g q) p
chosen test f g p same af ag = elim (Bool-cases (test p)) [
  | inl e ↦ record {
    extra = af.extra;
    appended = λ c. rw (same c, e) (af.appended c);
    address = rw e af.address;
    channel_index = rw e af.channel_index;
  }
  | inr e ↦ record {
    extra = ag.extra;
    appended = λ c. rw (same c, e) (ag.appended c);
    address = rw e ag.address;
    channel_index = rw e ag.channel_index;
  }
]

followed :
    (f g : Process → Process) (p : Process)
    → Appends f p
    → Appends g (f p)
    → Appends (λ q. g (f q)) p
followed f g p af ag = record {
  extra = af.extra ++ ag.extra;
  appended = λ c.
      ap g (af.appended c)
      ∙ ag.appended (c ++ af.extra)
      ∙ ap (λ (x : List (ℕ × Message)). record (g (f p)) { channels = x })
          (append_assoc c af.extra ag.extra);
  address = ag.address ∙ af.address;
  channel_index = ag.channel_index ∙ af.channel_index;
}

signal-Appends : (p : Process) → Appends signal_if_all p
unfolding signal_if_all
signal-Appends p =
    chosen (λ q. size q.s + 1 == number_of_processes q)
      (λ q. record q { received_all_replies = q.received_all_replies + 1 }) (λ q. q) p (λ c. refl)
      (silent _ p (λ c. refl) refl refl) (silent _ p (λ c. refl) refl refl)

counting-Appends : (p : Process) → Appends (rest_of counting) p
unfolding rest_of
counting-Appends p =
    followed (λ q. record q { s = add_reply q.s }) signal_if_all p
      (silent _ p (λ c. refl) refl refl) (signal-Appends (record p { s = add_reply p.s }))

tick-Appends : (p : Process) → Appends tick p
unfolding update_timestamp
tick-Appends p = silent _ p (λ c. refl) refl refl

increment_reply-Appends : (p : Process) → Appends increment_reply p
unfolding increment_reply rest_of
increment_reply-Appends p =
    followed tick (rest_of counting) p (tick-Appends p) (counting-Appends (tick p))

enqueue-Appends : (m : Message) (p : Process) → Appends (enqueue_message m) p
unfolding enqueue_message update_timestamp
enqueue-Appends m p = silent _ p (λ c. refl) refl refl

send-Appends : (m : Message) (p : Process) → Appends (send_message reply m.address) p
unfolding send_message get_index_from_address
send-Appends m p = record {
  extra = (get_index_from_address m.address p, new_message reply p) ∷ [];
  appended = λ c. refl;
  address = refl;
  channel_index = refl;
}

clocked-Appends : (m : Message) (p : Process) → Appends (rest_of (clocked m)) p
unfolding rest_of
clocked-Appends m p =
    chosen (λ q. (m.type_message == reply) || (m.type_message == permission)) increment_reply _ p
      (λ c. refl) (increment_reply-Appends p)
      (chosen (λ q. (q.state == held) || ((q.state == wanted) && less q m)) (enqueue_message m)
        (send_message reply m.address) p (λ c. refl) (enqueue-Appends m p) (send-Appends m p))

rest_of-Appends : (h : Handling) (p : Process) → Appends (rest_of h) p
unfolding rest_of handle_request update_timestamp
rest_of-Appends (received m) p =
    followed (update_timestamp m.timestamp) (rest_of (clocked m)) p
      (silent _ p (λ c. refl) refl refl) (clocked-Appends m (update_timestamp m.timestamp p))
rest_of-Appends (clocked m) p = clocked-Appends m p
rest_of-Appends counting p = counting-Appends p
rest_of-Appends added p = signal-Appends p
rest_of-Appends signalling p = silent _ p (λ c. refl) refl refl
rest_of-Appends (not_held m) p =
    chosen (λ q. (q.state == wanted) && less q m) (enqueue_message m) (send_message reply m.address)
      p (λ c. refl) (enqueue-Appends m p) (send-Appends m p)
rest_of-Appends (deferring m) p = enqueue-Appends m p
rest_of-Appends (answering m) p = send-Appends m p
rest_of-Appends handled p = silent _ p (λ c. refl) refl refl

pub settle_all-Appends : (hs : List Handling) (p : Process) → Appends (settle_all hs) p
unfolding settle_all
settle_all-Appends [] p = silent _ p (λ c. refl) refl refl
settle_all-Appends (h ∷ hs) p =
    followed (rest_of h) (settle_all hs) p (rest_of-Appends h p)
      (settle_all-Appends hs (rest_of h p))
