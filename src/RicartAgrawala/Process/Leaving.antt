-- ===== src/RicartAgrawala/Process/Leaving.antt =====
-- Leaving the critical section: every request in the queue gets its reply.
use grupo.Prelude.{
  ℕ, zero, suc, true, false, ◌≡◌, refl, ap, sym, ◌∙◌, some, List, [], ◌∷◌, ◌++◌, length, ◌<◌, ◌+◌,
  arith,
}
use mathlib.Core.List.{append-nil, append_assoc}
use grupo.RicartAgrawala.Utils.{reply, released}
use grupo.RicartAgrawala.Message.{Message}
use grupo.RicartAgrawala.Queue
use grupo.RicartAgrawala.Process.{
  Process, tick, update_timestamp, change_state, send_message, get_index_from_address,
  get_message_queue_top_request, is_message_queue_empty, reply_all_enqueued_requests,
  clear_reply_counter, leave_critical_section,
}

-- Where a message went, and what kind it is.
abbrev pub sent_to : List (ℕ × Message) → List (ℕ × ℕ)
sent_to [] = []
sent_to ((i, m) ∷ ms) = (i, m.type_message) ∷ sent_to ms

abbrev pub replies_to : Process → List Message → List (ℕ × ℕ)
replies_to p [] = []
replies_to p (m ∷ ms) = (get_index_from_address m.address p, reply) ∷ replies_to p ms

pub sent_to-append : (xs ys : List (ℕ × Message)) → sent_to (xs ++ ys) ≡ sent_to xs ++ sent_to ys
sent_to-append [] ys = refl
sent_to-append ((i, m) ∷ xs) ys = ap (λ l. (i, m.type_message) ∷ l) (sent_to-append xs ys)

replies_to-index :
    (p p' : Process) (ms : List Message)
    → p'.channel_index ≡ p.channel_index
    → replies_to p' ms ≡ replies_to p ms
unfolding get_index_from_address
replies_to-index p p' [] e = refl
replies_to-index p p' (m ∷ ms) e = ground (arith, replies_to-index p p' ms e)

abbrev with_queue : List Message → Process → Process
with_queue ms p = record p { q = record { buffer = ms } }

-- One round of the loop, but for the queue.
abbrev replied : Message → Process → Process
replied m p = send_message reply m.address (tick (tick p))

moved :
    (m : Message) (p : Process) (ms : List Message)
    → sent_to (replied m p).channels ++ replies_to (replied m p) ms
      ≡ sent_to p.channels ++ replies_to p (m ∷ ms)
unfolding send_message get_index_from_address update_timestamp
moved m p ms =
    rw (sent_to-append, replies_to-index p (replied m p) ms refl)
      (append_assoc (sent_to p.channels) ((get_index_from_address m.address p, reply) ∷ [])
        (replies_to p ms))

empty-nil : Queue.empty (record { buffer = [] }) ≡ true
unfolding Queue.empty
empty-nil = refl

empty-cons : (m : Message) (ms : List Message) → Queue.empty (record { buffer = m ∷ ms }) ≡ false
unfolding Queue.empty
empty-cons m ms = ground arith

-- The loop of replyAllEnqueuedRequests, on a queue of known contents.
reply_all-queue :
    (ms : List Message) (fuel : ℕ) (p : Process)
    → length ms < fuel
    → (r : Process) × (reply_all_enqueued_requests fuel (with_queue ms p) ≡ some r)
      × (r.q.buffer ≡ [])
      × (sent_to r.channels ≡ sent_to p.channels ++ replies_to p ms)
      × (r.state ≡ p.state)
      × (r.request_timestamp ≡ p.request_timestamp)
unfolding reply_all_enqueued_requests is_message_queue_empty get_message_queue_top_request Queue.pop
    update_timestamp send_message get_index_from_address
reply_all-queue ms zero p h = absurd (omega arith)
reply_all-queue [] (suc fuel) p h = (
  tick (with_queue [] p),
  rw (empty-nil, reply_all_enqueued_requests),
  refl,
  sym (append-nil (sent_to p.channels)),
  refl,
  refl,
)
reply_all-queue (m ∷ ms) (suc fuel) p h =
    let (r, e, empty', sent, st, rt) = reply_all-queue ms fuel (replied m p) (omega arith) in
    (r, rw (empty-cons m ms, reply_all_enqueued_requests) e, empty', (sent ∙ moved m p ms), st, rt)

-- A process that leaves the critical section always gets through: it is released, with an empty
-- queue and a reply counter of zero, and it has sent one reply to each request of the queue, in the
-- order in which the requests came, and nothing else.
pub leave_critical_section_lem :
    (p : Process)
    → (r : Process) × (leave_critical_section p ≡ some r)
      × (r.state ≡ released)
      × (r.q.buffer ≡ [])
      × (r.s.counter ≡ 0)
      × (sent_to r.channels ≡ sent_to p.channels ++ replies_to p p.q.buffer)
      × (r.request_timestamp ≡ p.request_timestamp)
unfolding leave_critical_section change_state update_timestamp clear_reply_counter Queue.size
leave_critical_section_lem p =
    let (r, e, empty', sent, st, rt) =
      reply_all-queue p.q.buffer (length p.q.buffer + 1) (change_state released p) (omega arith) in
    (
      tick (clear_reply_counter r),
      rw e,
      st,
      empty',
      refl,
      sent
          ∙ ap (λ l. sent_to p.channels ++ l)
              (replies_to-index p (change_state released p) p.q.buffer refl),
      rt,
    )
