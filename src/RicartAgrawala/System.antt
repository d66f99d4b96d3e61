-- ===== src/RicartAgrawala/System.antt =====
-- ricart_agrawala: `n` processes that share nothing but messages, interleaved in any order, each of
-- which handles a message at once: the view of `Shared`, where a process may be handling several, when
-- what has begun is completed. A step is one method of a process, or one message that a process
-- receives and handles. A message travels in the sender's list of channels until its receiver handles
-- it, and overtakes others freely. The calls of sendPermissionToAllProcesses, enterOnCriticalSection and
-- leaveCriticalSection are taken apart, so that messages come in between. The steps begin when
-- startProcess has returned.
pub mod Tally
pub mod Views
pub mod Phases
pub mod Invariant
pub mod Later
pub mod Quiet
pub mod Moving
pub mod Awaiting
pub mod Asking
pub mod Sending
pub mod Answering
pub mod Stepping
pub mod Delivering
pub mod Arriving
pub mod Exchange
pub mod Delivered
pub mod Receiving
pub mod Counting
pub mod Handled
pub mod Reached
pub mod StartUp
pub mod Waiting
pub mod Entering
use grupo.Prelude.{
  ℕ, zero, suc, ◌+◌, ◌<◌, ◌^◌, String, Bool, true, false, ◌≡◌, ◌≢◌, Option, some, List, [], ◌∷◌,
  ◌++◌, ◌==◌, if◌then◌else◌,
}
use grupo.Prelude.Int.{ℤ, pos_part}
use grupo.RicartAgrawala.Utils.{reply, request, wanted, released, held}
use grupo.RicartAgrawala.Message.{Message}
use grupo.RicartAgrawala.Process.{
  Process, tick, get_index_from_address, change_state, update_request_timestamp, do_multicast,
  send_message, handle_request, wait_all_processes_replies, send_permission_to_all_processes,
  get_message_queue_top_request, is_message_queue_empty, clear_reply_counter,
}

-- How far runRicartAgrawala is. At the start: before doMulticast(PERMISSION), after it, after the wait
-- for the permissions. In the loop: before changeState(WANTED), after it, after
-- updateRequestTimestamp, after doMulticast(REQUEST), after the wait for the replies, after
-- changeState(HELD), after changeState(RELEASED).
pub data Phase : Type 0 where
  opened greeting greeted : Phase
  idle wanting stamped waiting granted inside leaving : Phase

pub record Node : Type 0 where
  pub process : Process
  pub phase : Phase

-- A process from `n` on takes no step.
abbrev pub System : Type 0
System = ℕ → Node

abbrev pub set : System → ℕ → Node → System
set s i x j = if i == j then x else s j

-- A process goes on from a phase to the next.
abbrev pub advance : System → ℕ → Process → Phase → System
advance s i p phase = set s i (record { process = p; phase = phase })

pub data Step (n : ℕ) (s : System) : System → Type 0 where
  greet :
      (i : ℕ)
      → i < n
      → (s i).phase ≡ opened
      → Step n s (advance s i (send_permission_to_all_processes (s i).process) greeting)
  begin :
      (i : ℕ) (p : Process)
      → i < n
      → (s i).phase ≡ greeting
      → wait_all_processes_replies (s i).process ≡ some p
      → Step n s (advance s i p greeted)
  ready :
      (i : ℕ)
      → i < n
      → (s i).phase ≡ greeted
      → Step n s (advance s i (clear_reply_counter (s i).process) idle)
  want :
      (i : ℕ)
      → i < n
      → (s i).phase ≡ idle
      → Step n s (advance s i (change_state wanted (s i).process) wanting)
  stamp :
      (i : ℕ)
      → i < n
      → (s i).phase ≡ wanting
      → Step n s (advance s i (update_request_timestamp (s i).process) stamped)
  ask :
      (i : ℕ)
      → i < n
      → (s i).phase ≡ stamped
      → Step n s (advance s i (do_multicast request (s i).process) waiting)
  -- One of the goroutines of doMulticast runs.
  send :
      (i : ℕ) (before after : List (ℕ × String)) (t : ℕ) (a : String)
      → i < n
      → (s i).process.spawned ≡ before ++ ((t, a) ∷ after)
      → Step n s (
          advance s i
            (send_message t a (record (s i).process { spawned = before ++ after }))
            (s i).phase)
  -- Process `j` handles a message of process `i`, which stands in the channel of the address of `j`.
  deliver :
      (i j c : ℕ) (before after : List (ℕ × Message)) (m : Message)
      → i < n
      → j < n
      → i ≢ j
      → get_index_from_address (s j).process.address (s i).process ≡ c
      → (s i).process.channels ≡ before ++ ((c, m) ∷ after)
      → Step n s (
          advance
            (advance s i (record (s i).process { channels = before ++ after }) (s i).phase)
            j
            (handle_request m (s j).process)
            (s j).phase)
  pass :
      (i : ℕ) (p : Process)
      → i < n
      → (s i).phase ≡ waiting
      → wait_all_processes_replies (s i).process ≡ some p
      → Step n s (advance s i p granted)
  enter :
      (i : ℕ)
      → i < n
      → (s i).phase ≡ granted
      → Step n s (advance s i (change_state held (s i).process) inside)
  leave :
      (i : ℕ)
      → i < n
      → (s i).phase ≡ inside
      → Step n s (advance s i (change_state released (s i).process) leaving)
  -- One round of the loop of replyAllEnqueuedRequests.
  answer :
      (i : ℕ) (a : String) (p p' : Process)
      → i < n
      → (s i).phase ≡ leaving
      → is_message_queue_empty (s i).process ≡ (false, p)
      → get_message_queue_top_request p ≡ some (a, p')
      → Step n s (advance s i (send_message reply a p') leaving)
  finish :
      (i : ℕ) (p : Process)
      → i < n
      → (s i).phase ≡ leaving
      → is_message_queue_empty (s i).process ≡ (true, p)
      → Step n s (advance s i (tick (clear_reply_counter p)) idle)

-- No clock is near the greatest int.
abbrev pub HaveRoom : ℕ → System → Type 0
HaveRoom n s = (i : ℕ) → i < n → pos_part (s i).process.timestamp + 3 < 2 ^ 63

-- The states that a run from one state reaches, while the clocks have room.
pub data Reach (n : ℕ) (s : System) : System → Type 0 where
  here : Reach n s s
  next : {t u : System} → Reach n s t → HaveRoom n t → Step n t u → Reach n s u
