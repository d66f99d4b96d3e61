-- ===== src/RicartAgrawala/System/Phases.antt =====
-- What the phase of a process says of its request, its replies and its state.
use grupo.Prelude.{ℕ, Bool, true, false}
use grupo.RicartAgrawala.Utils.{wanted, released, held}
use grupo.RicartAgrawala.System.{
  Phase, opened, greeting, greeted, idle, wanting, stamped, waiting, granted, inside, leaving,
}

-- A request is open from doMulticast until the process is ready for the next one.
abbrev pub open_request : Phase → Bool
open_request opened = false
open_request greeting = false
open_request greeted = false
open_request idle = false
open_request wanting = false
open_request stamped = false
open_request waiting = true
open_request granted = true
open_request inside = true
open_request leaving = true

-- The replies to the request are all there, and not cleared yet.
abbrev pub entered : Phase → Bool
entered opened = false
entered greeting = false
entered greeted = false
entered idle = false
entered wanting = false
entered stamped = false
entered waiting = false
entered granted = true
entered inside = true
entered leaving = true

-- The request has its timestamp, and the critical section is not left yet.
abbrev pub competing : Phase → Bool
competing opened = false
competing greeting = false
competing greeted = false
competing idle = false
competing wanting = false
competing stamped = true
competing waiting = true
competing granted = true
competing inside = true
competing leaving = false

-- The counter counts permissions.
abbrev pub starting : Phase → Bool
starting opened = true
starting greeting = true
starting greeted = true
starting idle = false
starting wanting = false
starting stamped = false
starting waiting = false
starting granted = false
starting inside = false
starting leaving = false

-- The permissions to the others are sent, or on their way.
abbrev pub invited : Phase → Bool
invited opened = false
invited greeting = true
invited greeted = true
invited idle = true
invited wanting = true
invited stamped = true
invited waiting = true
invited granted = true
invited inside = true
invited leaving = true

-- The permissions of the others are all there.
abbrev pub begun : Phase → Bool
begun opened = false
begun greeting = false
begun greeted = true
begun idle = true
begun wanting = true
begun stamped = true
begun waiting = true
begun granted = true
begun inside = true
begun leaving = true

-- A signal may be there.
abbrev pub awaiting : Phase → Bool
awaiting opened = true
awaiting greeting = true
awaiting greeted = false
awaiting idle = false
awaiting wanting = false
awaiting stamped = false
awaiting waiting = true
awaiting granted = false
awaiting inside = false
awaiting leaving = false

abbrev pub state_of : Phase → ℕ
state_of opened = released
state_of greeting = released
state_of greeted = released
state_of idle = released
state_of wanting = wanted
state_of stamped = wanted
state_of waiting = wanted
state_of granted = wanted
state_of inside = held
state_of leaving = released
