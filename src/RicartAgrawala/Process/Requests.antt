-- ===== src/RicartAgrawala/Process/Requests.antt =====
-- What becomes of a request: a reply now, or a place in the queue.
use grupo.Prelude.{◌≡◌, ◌≢◌, ◌⊎◌, inl, inr, refl, [], ◌∷◌, ◌++◌, ◌<◌, ◌+◌, ◌^◌, arith}
use grupo.Prelude.Int.{IsNatural, ℤ, pos_part, ◌<ℤ◌, ◌≤ℤ◌}
use grupo.RicartAgrawala.Utils.{reply, request, wanted, held, is_minor}
use grupo.RicartAgrawala.Message.{Message}
use grupo.RicartAgrawala.Queue.{push}
use grupo.RicartAgrawala.Process.Clock.{update_timestamp-later, handle_request-later}
use grupo.RicartAgrawala.Process.{
  Process, update_timestamp, handle_request, enqueue_message, send_message, new_message,
  get_index_from_address, change_state, update_request_timestamp, do_multicast,
}

-- Request (t, i) precedes request (u, j).
abbrev pub Precedes : ℤ → ℤ → ℤ → ℤ → Type 0
Precedes t i u j = (t <ℤ u) ⊎ ((t ≡ u) × (i <ℤ j))

abbrev pub Defers : Process → Message → Type 0
Defers p msg =
    (p.state ≡ held)
    ⊎ ((p.state ≡ wanted) × Precedes p.request_timestamp p.id msg.request_timestamp msg.id)

abbrev pub Deferred : Message → Process → Process → Type 0
Deferred msg p p' = (p'.q.buffer ≡ p.q.buffer ++ msg ∷ []) × (p'.channels ≡ p.channels)

abbrev pub Replied : Message → Process → Process → Type 0
Replied msg p p' =
    (p'.q.buffer ≡ p.q.buffer)
    × (p'.channels
        ≡ p.channels
          ++ (
            get_index_from_address msg.address p,
            new_message reply (update_timestamp msg.timestamp p),
          )
            ∷ [])

-- A request is put in the queue, and nothing is sent, exactly when the process is in the critical
-- section or wants it with a request that precedes this one by timestamp and then by id. In every
-- other case the reply is sent at once, and the queue stays. Neither changes the state, the own
-- request's timestamp or the count of replies.
pub handle_request_lem :
    (msg : Message) (p : Process)
    → msg.type_message ≡ request
    → (Defers p msg → Deferred msg p (handle_request msg p))
      × (¬ (Defers p msg) → Replied msg p (handle_request msg p))
      × ((handle_request msg p).state ≡ p.state)
      × ((handle_request msg p).request_timestamp ≡ p.request_timestamp)
      × ((handle_request msg p).s ≡ p.s)
unfolding handle_request update_timestamp enqueue_message push send_message get_index_from_address
    is_minor
handle_request_lem msg p e =
    (λ d. ground arith, λ n. ground arith, ground arith, ground arith, ground arith)

Precedes-or :
    (p q : Process)
    → p.id ≢ q.id
    → (Precedes p.request_timestamp p.id q.request_timestamp q.id
        × ¬ (Precedes q.request_timestamp q.id p.request_timestamp p.id))
      ⊎ (Precedes q.request_timestamp q.id p.request_timestamp p.id
          × ¬ (Precedes p.request_timestamp p.id q.request_timestamp q.id))
Precedes-or p q ne = ground arith

not_deferring :
    (p q : Process)
    → p.state ≡ wanted
    → ¬ (Precedes p.request_timestamp p.id q.request_timestamp q.id)
    → ¬ (Defers p (new_message request q))
not_deferring p q w n d = ground arith

-- Two processes with different ids want the critical section, and each receives the request of the
-- other: exactly one
-- of them puts the other's request in its queue, and the other one replies.
pub one_defers :
    (p q : Process)
    → p.id ≢ q.id
    → p.state ≡ wanted
    → q.state ≡ wanted
    → (Deferred (new_message request q) p (handle_request (new_message request q) p)
        × Replied (new_message request p) q (handle_request (new_message request p) q))
      ⊎ (Replied (new_message request q) p (handle_request (new_message request q) p)
          × Deferred (new_message request p) q (handle_request (new_message request p) q))
one_defers p q ne wp wq =
    let at_p = handle_request_lem (new_message request q) p refl in
    let at_q = handle_request_lem (new_message request p) q refl in
    elim (Precedes-or p q ne) [
      | inl first ↦ inl (at_p.0 (inr (wp, first.0)), at_q.1 (not_deferring q p wq first.1))
      | inr second ↦ inr (at_p.1 (not_deferring p q wp second.1), at_q.0 (inr (wq, second.0)))
    ]

-- A process on its way into enterOnCriticalSection, when the request of `q` arrives between
-- changeState and updateRequestTimestamp.
abbrev pub interrupted : Process → Process → Process
interrupted p q =
    do_multicast request
      (update_request_timestamp (handle_request (new_message request q) (change_state wanted p)))

-- A process says that it wants the critical section, and only then gives its request a timestamp.
-- A newer request that arrives in between is put in the queue on the strength of the old timestamp,
-- although it precedes the request that the process then makes; the process that made it puts the
-- other's request in its own queue. Each waits for the other: neither has sent a reply. The clocks
-- are not negative and have room, and the newer request is not ahead of its own process's clock.
pub both_defer :
    (p q : Process)
    → IsNatural p.timestamp
    → pos_part p.timestamp + 3 < 2 ^ 63
    → IsNatural q.timestamp
    → pos_part q.timestamp + 2 < 2 ^ 63
    → q.state ≡ wanted
    → p.request_timestamp <ℤ q.request_timestamp
    → q.request_timestamp ≤ℤ q.timestamp
    → Deferred (new_message request q) p (interrupted p q)
      × Deferred
          (new_message request (interrupted p q))
          q
          (handle_request (new_message request (interrupted p q)) q)
unfolding change_state update_timestamp update_request_timestamp do_multicast
both_defer p q np rp nq rq wq stale fresh =
    let w = change_state wanted p in
    let ticked = update_timestamp-later p.timestamp p np np (omega arith) (omega arith) in
    let handled = handle_request-later (new_message request q) w nq ticked.0 rq (ground arith) in
    (
      (handle_request_lem (new_message request q) w refl).0 (inr (refl, inl stale)),
      (handle_request_lem (new_message request (interrupted p q)) q refl).0
          (inr (wq, inl (omega arith))),
    )
