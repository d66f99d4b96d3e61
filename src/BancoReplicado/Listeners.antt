-- ===== src/BancoReplicado/Listeners.antt =====
-- BancoReplicado/http.go: the events that a node sends to the WebSocket connections that listen to it. A
-- handler posts an event and waits; one goroutine takes the events and hands each to every listener
-- while it holds the lock of the listeners; the goroutine of a connection writes what it is handed.
pub mod Stuck
use grupo.Prelude.{ℕ, String, Bool, true, false, ◌≡◌, Option, none, some, List, [], ◌∷◌, ◌++◌}
use grupo.Prelude.GoMap.{GoMap, lookup, insert, delete, keys}
use grupo.BancoReplicado.Instance.{Event}

-- Where the goroutine of a connection is: at `range recv`, before WriteMessage with an event, or at the
-- deferred function, which needs the lock.
pub data Listener : Type 0 where
  receiving : Listener
  writing : Event → Listener
  leaving : Listener

pub record Hub : Type 0 where
  -- wsListeners, by the name of the connection
  pub listeners : GoMap Listener
  -- the events that handlers wait to send on visEventsChannel
  pub posted : List Event
  -- the event that the goroutine of startHTTPServer hands on, with the connections still to come; it
  -- holds the lock then
  pub sending : Option (Event × List String)
  -- what the connections have written
  pub written : List (String × Event)

-- startHTTPServer, before the first request.
abbrev pub start_http_server : Hub
start_http_server = record { listeners = []; posted = []; sending = none; written = [] }

-- The goroutine of startHTTPServer, one round of whose loop is `take_event`, then `hand` for each
-- listener, then `unlock`.
pub data Broadcast (h : Hub) : Hub → Type 0 where
  -- The next event is taken from the channel, and the lock.
  take_event :
      (e : Event) (rest : List Event)
      → h.sending ≡ none
      → h.posted ≡ e ∷ rest
      → Broadcast h (record h { posted = rest; sending = some (e, keys h.listeners) })
  -- recv <- msg: only a goroutine that receives takes it.
  hand :
      (e : Event) (c : String) (rest : List String)
      → h.sending ≡ some (e, c ∷ rest)
      → lookup c h.listeners ≡ some receiving
      → Broadcast h
          (record h { listeners = insert c (writing e) h.listeners; sending = some (e, rest) })
  -- The loop over the listeners ends, and the lock is given back.
  unlock : (e : Event) → h.sending ≡ some (e, []) → Broadcast h (record h { sending = none })

-- What the goroutines of a node do: a handler, the connections at /ws, and the one that hands events on.
pub data Step (h : Hub) : Hub → Type 0 where
  -- A connection at /ws: it takes the lock and puts its channel into the map.
  connect :
      (c : String)
      → h.sending ≡ none
      → lookup c h.listeners ≡ none
      → Step h (record h { listeners = insert c receiving h.listeners })
  -- A handler sends an event, and waits until it is taken.
  post : (e : Event) → Step h (record h { posted = h.posted ++ e ∷ [] })
  broadcast : {k : Hub} → Broadcast h k → Step h k
  write :
      (c : String) (e : Event)
      → lookup c h.listeners ≡ some (writing e)
      → Step h (record h {
        listeners = insert c receiving h.listeners;
        written = h.written ++ (c, e) ∷ [];
      })
  -- WriteMessage fails, and the goroutine leaves its loop.
  fail :
      (c : String) (e : Event)
      → lookup c h.listeners ≡ some (writing e)
      → Step h (record h { listeners = insert c leaving h.listeners })
  -- The deferred function takes the lock and deletes the channel from the map.
  disconnect :
      (c : String)
      → h.sending ≡ none
      → lookup c h.listeners ≡ some leaving
      → Step h (record h { listeners = delete c h.listeners })

pub data Reach (h : Hub) : Hub → Type 0 where
  here : Reach h h
  next : {k l : Hub} → Reach h k → Step k l → Reach h l
