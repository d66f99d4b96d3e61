-- ===== src/RicartAgrawala/Main.antt =====
-- ricart_agrawala/main.go with server/main.go: three processes register their addresses and start, and
-- run once all of them have started.
mod Tests
use Prim.Native.String.{◌++◌ as append}
use grupo.Prelude.{
  ℕ, zero, suc, ◌+◌, ◌<◌, String, true, ◌≡◌, refl, ap, ◌∙◌, List, [], ◌∷◌, arith, contains, length,
  str_eq,
}
use grupo.Prelude.Int.{ℤ, pos}
use grupo.Prelude.Text.{decimal}
use grupo.RicartAgrawala.Register.{
  Event, addresses_of, reply_keys, replies, run_server, reply_after,
}
use grupo.RicartAgrawala.Register.Listing.{distinct, length_by_names}
use grupo.RicartAgrawala.System.{System}
use grupo.RicartAgrawala.Shared.{Shared}
use grupo.RicartAgrawala.System.Tally.{bit, tally}
use grupo.RicartAgrawala.System.StartUp.{Listed, start}

abbrev number_processes : ℕ
number_processes = 3

abbrev initial_port : ℕ
initial_port = 8090

-- newProcess(INITIAL_PORT + i): its address, and its id, the port. A port has at most five digits.
unfoldable pub address_of : ℕ → String
address_of i = append "localhost:" (decimal 5 (initial_port + i))

abbrev pub id_of : ℕ → ℤ
id_of i = pos (initial_port + i)

abbrev names : List String
names = address_of 0 ∷ address_of 1 ∷ address_of 2 ∷ []

-- The register server's reply to process `i`, after the registrations and replies `before i`.
abbrev pub reply_to : (ℕ → List Event) → ℕ → List String
reply_to before i = reply_keys (replies (before i) run_server).1

-- The state in which main has received from `waiter` what every startProcess sends.
abbrev pub main : (ℕ → List Event) → System
main before = start number_processes address_of id_of (reply_to before)

-- The three addresses are registered, and no other.
abbrev pub AllRegistered : List Event → Type 0
AllRegistered before =
    (a : String)
    → contains a (addresses_of before)
      ≡ contains a (address_of 0 ∷ address_of 1 ∷ address_of 2 ∷ [])

pub below_three {ℓ} : (P : ℕ → Type ℓ) → P 0 → P 1 → P 2 → (i : ℕ) → i < 3 → P i
below_three P a b c zero h = a
below_three P a b c (suc zero) h = b
below_three P a b c (suc (suc zero)) h = c
below_three P a b c (suc (suc (suc i))) h = absurd (omega arith)

named : (j : ℕ) → j < 3 → contains (address_of j) names ≡ true
unfolding address_of contains
named = below_three (λ j. contains (address_of j) names ≡ true) refl refl refl

named_apart : distinct names ≡ true
unfolding address_of contains distinct
named_apart = refl

-- When the three addresses, and no other, are registered before each of the replies of the register
-- server, each reply lists the three addresses once.
pub reply_to-Listed :
    (before : ℕ → List Event)
    → ((i : ℕ) → i < 3 → AllRegistered (before i))
    → Listed 3 address_of id_of (reply_to before)
reply_to-Listed before all =
    let once : (i : ℕ)
        → i < 3
        → (a : String) → tally (λ b. str_eq b a) (reply_to before i) ≡ bit (contains a names) =
      λ i hi a. (reply_after (before i) []).1 a ∙ ap bit (all i hi a) in
    record {
      members = λ i hi. length_by_names names (reply_to before i) named_apart (once i hi);
      once = λ i j hi hj. once i hi (address_of j) ∙ ap bit (named j hj);
    }
