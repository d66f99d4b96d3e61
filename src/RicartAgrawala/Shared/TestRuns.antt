-- ===== src/RicartAgrawala/Shared/TestRuns.antt =====
-- Two processes that start: each sends its permission to the other, and is ready once it has the other's.
use grupo.Prelude.{
  ℕ, zero, suc, String, ◌≡◌, ◌≢◌, refl, [], ◌∷◌, List, ◌<◌, ◌+◌, ◌^◌, arith, ◌==◌, str_eq, length,
}
use grupo.Prelude.Int.{ℤ, add64, wrap64, pos, pos_part}
use grupo.Prelude.GoMap.{lookup, insert}
use grupo.RicartAgrawala.Utils.{max, permission}
use grupo.RicartAgrawala.Counter
use grupo.RicartAgrawala.Queue
use grupo.RicartAgrawala.Message.{Message}
use grupo.RicartAgrawala.Process.{
  start_process, new_process, new_message, change_state, update_timestamp, do_multicast, others,
  goroutines, send_message, handle_request, get_index_from_address, increment_reply,
  wait_all_processes_replies, open_all_connections, send_permission_to_all_processes,
  clear_reply_counter,
}
use grupo.RicartAgrawala.System.{
  System, greeting, greeted, idle, Reach, here, next, HaveRoom, advance, greet, begin, ready, send,
  deliver,
}
use grupo.RicartAgrawala.System.Tally.{tally}
use grupo.RicartAgrawala.System.Invariant.{Group}
use grupo.RicartAgrawala.System.StartUp.{Listed, channel, start}

abbrev pub addr : ℕ → String
addr zero = "localhost:1"
addr (suc _) = "localhost:2"

abbrev pub ids : ℕ → ℤ
ids zero = pos 1
ids (suc _) = pos 2

-- The register server lists the addresses in another order for each process.
abbrev pub lists : ℕ → List String
lists zero = "localhost:1" ∷ "localhost:2" ∷ []
lists (suc _) = "localhost:2" ∷ "localhost:1" ∷ []

abbrev pub opened_both : System
opened_both = start 2 addr ids lists

pub below_two {ℓ} : (P : ℕ → Type ℓ) → P 0 → P 1 → (i : ℕ) → i < 2 → P i
below_two P a b zero h = a
below_two P a b (suc zero) h = b
below_two P a b (suc (suc i)) h = absurd (omega arith)

pub group : Group 2 addr ids (channel 2 addr ids lists)
group = record {
  addresses = λ i j hi hj.
      below_two (λ i. str_eq (addr i) (addr j) ≡ (i == j))
        (below_two (λ j. str_eq (addr 0) (addr j) ≡ (0 == j)) refl refl j hj)
        (below_two (λ j. str_eq (addr 1) (addr j) ≡ (1 == j)) refl refl j hj) i hi;
  ids_differ = λ i j hi hj.
      below_two (λ i. i ≢ j → ids i ≢ ids j)
        (below_two (λ j. 0 ≢ j → ids 0 ≢ ids j) (λ ne. absurd (ne refl)) (λ ne. ground arith) j hj)
        (below_two (λ j. 1 ≢ j → ids 1 ≢ ids j) (λ ne. ground arith) (λ ne. absurd (ne refl)) j hj)
        i hi;
}

pub listed : Listed 2 addr ids lists
unfolding tally
listed = record {
  members = below_two (λ i. length (lists i) ≡ 2) refl refl;
  once = λ i j hi hj.
      below_two (λ i. tally (λ b. str_eq b (addr j)) (lists i) ≡ 1)
        (below_two (λ j. tally (λ b. str_eq b (addr j)) (lists 0) ≡ 1) refl refl j hj)
        (below_two (λ j. tally (λ b. str_eq b (addr j)) (lists 1) ≡ 1) refl refl j hj) i hi;
}

pub room :
    (s : System)
    → pos_part (s 0).process.timestamp < 100
    → pos_part (s 1).process.timestamp < 100
    → HaveRoom 2 s
room s a b =
    below_two (λ i. pos_part (s i).process.timestamp + 3 < 2 ^ 63) (omega arith) (omega arith)

abbrev pub greeting_0 : System
greeting_0 =
    advance opened_both 0 (send_permission_to_all_processes (opened_both 0).process) greeting

abbrev greeting_1 : System
greeting_1 = advance greeting_0 1 (send_permission_to_all_processes (greeting_0 1).process) greeting

abbrev invited_1 : System
invited_1 =
    advance greeting_1 0
      (send_message permission "localhost:2" (record (greeting_1 0).process { spawned = [] }))
      greeting

abbrev invited_0 : System
invited_0 =
    advance invited_1 1
      (send_message permission "localhost:1" (record (invited_1 1).process { spawned = [] }))
      greeting

abbrev from_0 : Message
from_0 = new_message permission (greeting_0 0).process

abbrev from_1 : Message
from_1 = new_message permission (greeting_1 1).process

abbrev counted_by_1 : System
counted_by_1 =
    advance (advance invited_0 0 (record (invited_0 0).process { channels = [] }) greeting) 1
      (handle_request from_0 (invited_0 1).process) greeting

abbrev pub counted_by_both : System
counted_by_both =
    advance (advance counted_by_1 1 (record (counted_by_1 1).process { channels = [] }) greeting) 0
      (handle_request from_1 (counted_by_1 0).process) greeting

abbrev greeted_0 : System
greeted_0 =
    advance counted_by_both 0 (record (counted_by_both 0).process { received_all_replies = 0 })
      greeted

abbrev greeted_1 : System
greeted_1 = advance greeted_0 1 (record (greeted_0 1).process { received_all_replies = 0 }) greeted

abbrev ready_0 : System
ready_0 = advance greeted_1 0 (clear_reply_counter (greeted_1 0).process) idle

-- Both are ready for their first request.
abbrev pub first : System
first = advance ready_0 1 (clear_reply_counter (ready_0 1).process) idle

pub counted_run : Reach 2 opened_both counted_by_both
unfolding start_process new_process change_state update_timestamp open_all_connections do_multicast
    send_permission_to_all_processes others goroutines send_message handle_request
    get_index_from_address increment_reply clear_reply_counter wait_all_processes_replies max add64
    wrap64 lookup insert Counter.new_reply_counter Counter.clear Counter.add_reply
    Queue.new_message_queue
counted_run =
    let r1 : Reach 2 opened_both greeting_0 =
      next here (room opened_both (ground arith) (ground arith)) (greet 0 (omega arith) refl) in
    let r2 : Reach 2 opened_both greeting_1 =
      next r1 (room greeting_0 (ground arith) (ground arith)) (greet 1 (omega arith) refl) in
    let r3 : Reach 2 opened_both invited_1 =
      next r2 (room greeting_1 (ground arith) (ground arith))
        (send 0 [] [] permission "localhost:2" (omega arith) refl) in
    let r4 : Reach 2 opened_both invited_0 =
      next r3 (room invited_1 (ground arith) (ground arith))
        (send 1 [] [] permission "localhost:1" (omega arith) refl) in
    let r5 : Reach 2 opened_both counted_by_1 =
      next r4 (room invited_0 (ground arith) (ground arith))
        (deliver 0 1 1 [] [] from_0 (omega arith) (omega arith) (ground arith) refl refl) in
    next r5 (room counted_by_1 (ground arith) (ground arith))
      (deliver 1 0 1 [] [] from_1 (omega arith) (omega arith) (ground arith) refl refl)

pub first_run : Reach 2 opened_both first
unfolding start_process new_process change_state update_timestamp open_all_connections do_multicast
    send_permission_to_all_processes others goroutines send_message handle_request
    get_index_from_address increment_reply clear_reply_counter wait_all_processes_replies max add64
    wrap64 lookup insert Counter.new_reply_counter Counter.clear Counter.add_reply
    Queue.new_message_queue
first_run =
    let r7 : Reach 2 opened_both greeted_0 =
      next counted_run (room counted_by_both (ground arith) (ground arith))
        (begin 0 _ (omega arith) refl refl) in
    let r8 : Reach 2 opened_both greeted_1 =
      next r7 (room greeted_0 (ground arith) (ground arith)) (begin 1 _ (omega arith) refl refl) in
    let r9 : Reach 2 opened_both ready_0 =
      next r8 (room greeted_1 (ground arith) (ground arith)) (ready 0 (omega arith) refl) in
    next r9 (room ready_0 (ground arith) (ground arith)) (ready 1 (omega arith) refl)
