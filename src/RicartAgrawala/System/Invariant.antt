-- ===== src/RicartAgrawala/System/Invariant.antt =====
-- What holds in every state that a run reaches: for two processes, at most one message is on its way
-- between them for the request of the first one, and a process that has replied to a request that is
-- still open has heard of its timestamp, so that its own request comes later.
use grupo.Prelude.{
  ℕ, ◌+◌, ◌≤◌, ◌<◌, String, Bool, true, false, ◌≡◌, ◌≢◌, ◌⊎◌, All, arith, ◌==◌, str_eq, contains,
  if◌then◌else◌,
}
use grupo.Prelude.Int.{ℤ, IsNatural, ◌<ℤ◌, ◌≤ℤ◌}
use grupo.Prelude.GoMap.{has}
use grupo.RicartAgrawala.Utils.{request, permission}
use grupo.RicartAgrawala.Message.{Message}
use grupo.RicartAgrawala.Process.{Process, number_of_processes, get_index_from_address}
use grupo.RicartAgrawala.Process.Requests.{Precedes}
use grupo.RicartAgrawala.System.{Node, System}
use grupo.RicartAgrawala.System.Phases.{
  open_request, entered, competing, starting, invited, begun, awaiting, state_of,
}
use grupo.RicartAgrawala.System.Tally.{bit, tally, total}
use grupo.RicartAgrawala.System.Views.{
  unsent, asked, answered, outdated, deferred, uninvited, permitted,
}

-- The messages of one process that another one has counted: the reply to its request, the permission.
pub record Seen : Type 0 where
  pub reply : Bool
  pub permission : Bool

-- A message that its sender made, at a time that its clock has reached.
pub record Sound (p : Process) (m : Message) : Type 0 where
  pub address : m.address ≡ p.address
  pub id : m.id ≡ p.id
  pub natural : IsNatural m.timestamp
  pub past : m.timestamp ≤ℤ p.timestamp
  pub request_past : m.request_timestamp ≤ℤ m.timestamp

-- A goroutine that sends a request or a permission to a process with a channel.
abbrev pub Known : Process → ℕ × String → Type 0
Known p g = ((g.0 ≡ request) ⊎ (g.0 ≡ permission)) × (has g.1 p.channel_index ≡ true)

-- `addr i` and `ids i` are the address and the id of process `i` of `n`; `chan i j` is its channel to
-- process `j`, which depends on the order in which the register server lists the addresses.
module _ (n : ℕ) (addr : ℕ → String) (ids : ℕ → ℤ) (chan : ℕ → ℕ → ℕ) where
  -- The group: different addresses and ids.
  pub record Group : Type 0 where
    pub addresses : (i j : ℕ) → i < n → j < n → str_eq (addr i) (addr j) ≡ (i == j)
    pub ids_differ : (i j : ℕ) → i < n → j < n → i ≢ j → ids i ≢ ids j

  -- What a process knows of the group, and never changes.
  pub record Fixed (i : ℕ) (p : Process) : Type 0 where
    pub address : p.address ≡ addr i
    pub id : p.id ≡ ids i
    pub members : number_of_processes p ≡ n
    pub listed : (j : ℕ) → j < n → tally (λ a. str_eq a (addr j)) p.processes_addresses ≡ 1
    pub known :
        (a : String) → contains a p.processes_addresses ≡ true → has a p.channel_index ≡ true
    pub reached : (j : ℕ) → j < n → has (addr j) p.channel_index ≡ true
    pub wired :
        (a : String) (j : ℕ)
        → j < n
        → has a p.channel_index ≡ true
        → (get_index_from_address a p == chan i j) ≡ str_eq a (addr j)

  pub record Local (x : Node) : Type 0 where
    pub clock : IsNatural x.process.timestamp
    pub stamp : IsNatural x.process.request_timestamp
    pub stamp_past : x.process.request_timestamp ≤ℤ x.process.timestamp
    pub state : x.process.state ≡ state_of x.phase
    pub spawned : All (Known x.process) x.process.spawned
    pub queue :
        All (λ (m : Message). has m.address x.process.channel_index ≡ true) x.process.q.buffer
    pub sent : All (λ (e : ℕ × Message). Sound x.process e.1) x.process.channels

  -- What process `i` has counted: `got j` are the messages of `j` among it.
  pub record Row (i : ℕ) (x : Node) (got : ℕ → Seen) : Type 0 where
    pub own : (got i).reply ≡ false
    pub own_permission : (got i).permission ≡ false
    pub counted : x.process.s.counter ≡ (
        if starting x.phase
        then total n (λ j. (got j).permission)
        else total n (λ j. (got j).reply))
    pub one_signal : x.process.received_all_replies ≤ 1
    pub signalled :
        1 ≤ x.process.received_all_replies
        → (awaiting x.phase ≡ true) × (x.process.s.counter + 1 ≡ n)
    pub fresh : open_request x.phase ≡ false → total n (λ j. (got j).reply) ≡ 0
    pub signal_there :
        2 ≤ n
        → awaiting x.phase ≡ true
        → x.process.s.counter + 1 ≡ n
        → x.process.received_all_replies ≡ 1

  -- The permission of process `j` for process `i`.
  pub record Invite (i j : ℕ) (x y : Node) (seen : Bool) : Type 0 where
    pub one_permission :
        uninvited (addr i) y.process + permitted (chan j i) y.process + bit seen
        ≡ bit (invited y.phase)
    pub all_seen : begun x.phase ≡ true → seen ≡ true

  -- The request of process `i` at process `j`; `got` says what of `j` is counted.
  pub record Pair (i j : ℕ) (x y : Node) (got : Seen) : Type 0 where
    pub one_message :
        unsent (addr j) x.process
          + asked (chan i j) x.process
          + deferred (addr i) y.process
          + answered (chan j i) y.process
          + bit got.reply
        ≡ bit (open_request x.phase)
    pub up_to_date : outdated (chan i j) x.process ≡ 0
    pub heard :
        1 ≤ deferred (addr i) y.process + answered (chan j i) y.process + bit got.reply
        → x.process.request_timestamp <ℤ y.process.timestamp
    pub first :
        1 ≤ answered (chan j i) y.process + bit got.reply
        → competing y.phase ≡ true
        → Precedes x.process.request_timestamp x.process.id y.process.request_timestamp y.process.id
    pub complete : entered x.phase ≡ true → got.reply ≡ true
    pub invite : Invite i j x y got.permission

  -- The permission is where it was, and the one who waits for it got no further.
  pub undisturbed_permission :
      (i j : ℕ) (x y x' y' : Node) (seen : Bool)
      → Invite i j x y seen
      → (begun x'.phase ≡ true → begun x.phase ≡ true)
      → uninvited (addr i) y'.process ≡ uninvited (addr i) y.process
      → permitted (chan j i) y'.process ≡ permitted (chan j i) y.process
      → invited y'.phase ≡ invited y.phase
      → Invite i j x' y' seen
  undisturbed_permission i j x y x' y' seen h b u p v = record {
    one_permission = rw v (omega (arith, h.one_permission, u, p));
    all_seen = λ k. h.all_seen (b k);
  }

  pub record Inv (s : System) (got : ℕ → ℕ → Seen) : Type 0 where
    pub fixed : (i : ℕ) → i < n → Fixed i (s i).process
    pub local : (i : ℕ) → i < n → Local (s i)
    pub row : (i : ℕ) → i < n → Row i (s i) (got i)
    pub pair : (i j : ℕ) → i < n → j < n → i ≢ j → Pair i j (s i) (s j) (got i j)
