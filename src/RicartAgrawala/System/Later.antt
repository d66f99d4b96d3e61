-- ===== src/RicartAgrawala/System/Later.antt =====
-- A process whose clock has moved on, and what that leaves as it was.
use grupo.Prelude.{ℕ, ◌+◌, ◌≤◌, ◌<◌, ◌^◌, String, true, ◌≡◌, refl, All, arith, List}
use grupo.Prelude.Int.{ℤ, IsNatural, pos_part, ◌≤ℤ◌}
use grupo.Prelude.GoMap.{has}
use grupo.RicartAgrawala.Message.{Message}
use grupo.RicartAgrawala.Process.{Process, update_timestamp, tick, get_index_from_address}
use grupo.RicartAgrawala.Process.Clock.{update_timestamp-later}
use grupo.RicartAgrawala.System.Tally.{All_mono}
use grupo.RicartAgrawala.System.Invariant.{Sound, Known, Fixed}

pub record Later (p p' : Process) : Type 0 where
  pub address : p'.address ≡ p.address
  pub id : p'.id ≡ p.id
  pub addresses : p'.processes_addresses ≡ p.processes_addresses
  pub channel_index : p'.channel_index ≡ p.channel_index
  pub natural : IsNatural p'.timestamp
  pub passed : p.timestamp ≤ℤ p'.timestamp

pub tick-Later :
    (p : Process)
    → IsNatural p.timestamp
    → pos_part p.timestamp + 1 < 2 ^ 63
    → Later p (tick p) × (pos_part (tick p).timestamp ≤ pos_part p.timestamp + 1)
unfolding update_timestamp
tick-Later p h r =
    let (nat, later, _, exact) = update_timestamp-later p.timestamp p h h r r in
    (
      record {
        address = refl;
        id = refl;
        addresses = refl;
        channel_index = refl;
        natural = nat;
        passed = omega arith;
      },
      ground arith,
    )

pub Later-trans : (p q r : Process) → Later p q → Later q r → Later p r
Later-trans p q r h k = record {
  address = ground (arith, h.address, k.address);
  id = ground (arith, h.id, k.id);
  addresses = ground (arith, h.addresses, k.addresses);
  channel_index = ground (arith, h.channel_index, k.channel_index);
  natural = k.natural;
  passed = omega (arith, h.passed, k.passed);
}

pub Later-Fixed :
    (n : ℕ) (addr : ℕ → String) (ids : ℕ → ℤ) (chan : ℕ → ℕ → ℕ) (i : ℕ) (p p' : Process)
    → Later p p'
    → Fixed n addr ids chan i p
    → Fixed n addr ids chan i p'
unfolding get_index_from_address
Later-Fixed n addr ids chan i p p' l f = record {
  address = ground (arith, l.address, f.address);
  id = ground (arith, l.id, f.id);
  members = rw l.addresses f.members;
  listed = rw l.addresses f.listed;
  known = rw (l.addresses, l.channel_index) f.known;
  reached = rw l.channel_index f.reached;
  wired = rw l.channel_index f.wired;
}

pub Later-Known :
    (p p' : Process) (gs : List (ℕ × String)) → Later p p' → All (Known p) gs → All (Known p') gs
Later-Known p p' gs l = All_mono (Known p) (Known p') gs (λ g h. rw l.channel_index h)

pub Later-queue :
    (p p' : Process) (ms : List Message)
    → Later p p'
    → All (λ (m : Message). has m.address p.channel_index ≡ true) ms
    → All (λ (m : Message). has m.address p'.channel_index ≡ true) ms
Later-queue p p' ms l h = rw l.channel_index h

pub Later-Sound : (p p' : Process) (m : Message) → Later p p' → Sound p m → Sound p' m
Later-Sound p p' m l h = record {
  address = ground (arith, l.address, h.address);
  id = ground (arith, l.id, h.id);
  natural = h.natural;
  past = omega (arith, l.passed, h.past);
  request_past = h.request_past;
}

pub Later-sent :
    (p p' : Process) (es : List (ℕ × Message))
    → Later p p'
    → All (λ (e : ℕ × Message). Sound p e.1) es
    → All (λ (e : ℕ × Message). Sound p' e.1) es
Later-sent p p' es l =
    All_mono (λ (e : ℕ × Message). Sound p e.1) (λ (e : ℕ × Message). Sound p' e.1) es
      (λ e h. Later-Sound p p' e.1 l h)
