-- ===== src/RicartAgrawala/Shared.antt =====
-- ricart_agrawala: the processes with their goroutines. A process may be handling any number of
-- messages, each at its own stage, while its methods go on: the steps below interleave them freely.
-- Only the methods that `Process` has as one function, such as a push to the queue, are one access.
-- `Locked` says which steps a lock in each process would allow, which the code does not have.
pub mod Settled
pub mod Replayed
pub mod Atomic
pub mod Runs
mod TestRuns
mod Tests
use grupo.Prelude.{
  ℕ, ◌<◌, Bool, true, false, ◌≡◌, ◌≢◌, Option, none, some, List, [], ◌∷◌, ◌++◌, ◌==◌, if◌then◌else◌,
}
use grupo.RicartAgrawala.Message.{Message}
use grupo.RicartAgrawala.Process.{get_index_from_address}
use grupo.RicartAgrawala.System
use grupo.RicartAgrawala.System.{
  System, advance, greet, begin, ready, want, stamp, ask, send, deliver, pass, enter, leave, answer,
  finish, HaveRoom,
}
use grupo.RicartAgrawala.Handling.{Handling, received, handled, stage, settle_all}

-- The processes, and the messages that each of them is handling.
pub record Shared : Type 0 where
  pub nodes : System
  pub handlings : ℕ → List Handling

abbrev pub set_handlings : (ℕ → List Handling) → ℕ → List Handling → ℕ → List Handling
set_handlings h i x j = if i == j then x else h j

-- The process whose own method a step of the system is; a delivery is none.
abbrev pub actor : {n : ℕ} → {s t : System} → System.Step n s t → Option ℕ
actor (greet i hi e) = some i
actor (begin i p hi e x) = some i
actor (ready i hi e) = some i
actor (want i hi e) = some i
actor (stamp i hi e) = some i
actor (ask i hi e) = some i
actor (send i before after u a hi e) = some i
actor (deliver i j c before after m hi hj ne w e) = none
actor (pass i p hi e x) = some i
actor (enter i hi e) = some i
actor (leave i hi e) = some i
actor (answer i a p p' hi e x y) = some i
actor (finish i p hi e x) = some i

pub data Step (n : ℕ) (s : Shared) : Shared → Type 0 where
  -- A method of process `i` goes on, or one of its goroutines of doMulticast runs.
  own :
      (i : ℕ) (t : System) (step : System.Step n s.nodes t)
      → actor step ≡ some i
      → Step n s (record s { nodes = t })
  -- Process `j` receives a message of process `i`, which stands in the channel of its address.
  receive :
      (i j c : ℕ) (before after : List (ℕ × Message)) (m : Message)
      → i < n
      → j < n
      → i ≢ j
      → get_index_from_address (s.nodes j).process.address (s.nodes i).process ≡ c
      → (s.nodes i).process.channels ≡ before ++ ((c, m) ∷ after)
      → Step n s (record {
        nodes =
            advance s.nodes i
              (record (s.nodes i).process { channels = before ++ after })
              (s.nodes i).phase;
        handlings = set_handlings s.handlings j (s.handlings j ++ received m ∷ []);
      })
  -- The next access of one of the goroutines in which process `j` handles a message.
  handle :
      (j : ℕ) (before after : List Handling) (h : Handling)
      → j < n
      → s.handlings j ≡ before ++ (h ∷ after)
      → Step n s (record {
        nodes = advance s.nodes j (stage h (s.nodes j).process).1 (s.nodes j).phase;
        handlings =
            set_handlings s.handlings j (before ++ ((stage h (s.nodes j).process).0 ∷ after));
      })
  -- A goroutine has handled a message.
  return :
      (j : ℕ) (before after : List Handling)
      → j < n
      → s.handlings j ≡ before ++ (handled ∷ after)
      → Step n s (record s { handlings = set_handlings s.handlings j (before ++ after) })

-- What a lock that each process holds while it handles a message, and while a method of its own takes a
-- step, would ensure: the process takes no step of its own meanwhile, and handles the messages one
-- after the other. The processes interleave as they like.
abbrev pub Locked : {n : ℕ} → {s t : Shared} → Step n s t → Type 0
Locked {s = s} (own i t step e) = s.handlings i ≡ []
Locked (receive i j c before after m hi hj ne w e) = Unit
Locked (handle j before after h hj e) = before ≡ []
Locked (return j before after hj e) = before ≡ []

-- The processes when each completes the messages that it is handling.
unfoldable pub settled : Shared → System
settled s k = record {
  process = settle_all (s.handlings k) (s.nodes k).process;
  phase = (s.nodes k).phase;
}

-- The states that a run with the lock reaches, while the clocks have room, also for the messages that
-- are being handled.
pub data LockedReach (n : ℕ) (s : Shared) : Shared → Type 0 where
  here : LockedReach n s s
  next :
      {t u : Shared}
      → LockedReach n s t
      → HaveRoom n (settled t)
      → (step : Step n t u) → Locked step
      → LockedReach n s u

-- No message is being handled at the start.
abbrev pub quiet : System → Shared
quiet s = record { nodes = s; handlings = λ k. [] }
