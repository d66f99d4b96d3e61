-- ===== src/RicartAgrawala/CriticalRegion.antt =====
-- ricart_agrawala/server_critical_region/main.go, and getRandomStringFromServer of process.go: what a
-- process does in the critical section. The log, the sleep and the colours are left out; a draw of
-- seededRand.Intn is a number below its bound, from a stream.
use grupo.Prelude.{
  ℕ, zero, suc, ◌+◌, ◌^◌, ◌<◌, ◌≡◌, ◌⊎◌, inr, refl, sym, ap, ◌∙◌, Option, none, some, List, [], ◌∷◌,
  ◌++◌, All, arith, length,
}
use mathlib.Core.Path.{subst}
use grupo.Prelude.Int.{ℤ, pos}
use grupo.Prelude.Bytes.{Bytes, codes, split, Free, split-append, split-piece}
use grupo.Prelude.Numerals.{itoa, atoi, atoi-itoa, digits_of, digits_of-IsDigit, digits-Free}
use grupo.RicartAgrawala.Process.{Process}

-- getRandomStringFromServer: the message, p.address + "|" + strconv.Itoa(p.timestamp)
unfoldable pub region_message : Process → Bytes
region_message p = codes p.address ++ b'|' ∷ itoa p.timestamp

unfoldable pub charset : Bytes
charset = codes "abcdefghijklmnopqrstuvwxyzABCDEFGHIJKLMNOPQRSTUVWXYZ0123456789"

-- charset[i]; an index from 62 on panics, and is never drawn.
unfoldable pub byte_at : Bytes → ℕ → ℕ
byte_at [] i = 0
byte_at (c ∷ cs) zero = c
byte_at (c ∷ cs) (suc i) = byte_at cs i

-- makeRandomString(length, charset), with the draws from the i-th on.
unfoldable pub make_random_string : (ℕ → ℕ) → ℕ → ℕ → Bytes
make_random_string draws i zero = []
make_random_string draws i (suc n) = byte_at charset (draws i) ∷ make_random_string draws (i + 1) n

unfoldable pub generate_random_string : (ℕ → ℕ) → ℕ → Bytes
generate_random_string draws n = make_random_string draws 0 n

-- What handleConnection logs, and its answer.
pub record Visit : Type 0 where
  pub address : Bytes
  pub timestamp : Bytes
  pub port : ℤ
  pub answer : Bytes

-- The port that strconv.Atoi gives; an error panics.
unfoldable pub visit : (ℕ → ℕ) → Bytes → Bytes → Option ℤ → Option Visit
visit draws address timestamp none = none
visit draws address timestamp (some port) = some (record {
  address = address;
  timestamp = timestamp;
  port = port;
  answer = generate_random_string draws 10;
})

-- strings.Split(address, ":")[1]
unfoldable pub handle_address : (ℕ → ℕ) → Bytes → Bytes → List Bytes → Option Visit
handle_address draws address timestamp [] = none
handle_address draws address timestamp (host ∷ []) = none
handle_address draws address timestamp (host ∷ port ∷ rest) =
    visit draws address timestamp (atoi port)

-- info[0] and info[1]
unfoldable pub handle_info : (ℕ → ℕ) → List Bytes → Option Visit
handle_info draws [] = none
handle_info draws (address ∷ []) = none
handle_info draws (address ∷ timestamp ∷ rest) =
    handle_address draws address timestamp (split b':' address)

-- handleConnection: `none` is a panic.
unfoldable pub handle_connection : (ℕ → ℕ) → Bytes → Option Visit
handle_connection draws buffer = handle_info draws (split b'|' buffer)

-- A byte of the character set.
abbrev pub IsDrawn : ℕ → Type 0
IsDrawn c = (i : ℕ) × (i < 62) × (c ≡ byte_at charset i)

drawn :
    (draws : ℕ → ℕ) (i n : ℕ)
    → ((k : ℕ) → draws k < 62)
    → (length (make_random_string draws i n) ≡ n) × All IsDrawn (make_random_string draws i n)
unfolding make_random_string
drawn draws i zero h = (refl, tt)
drawn draws i (suc n) h =
    let (size, all) = drawn draws (i + 1) n h in
    (ap (λ (m : ℕ). suc m) size, ((draws i, h i, refl), all))

itoa-Free : (c n : ℕ) → (c < b'0') ⊎ (b'9' < c) → Free c (itoa (pos n))
unfolding itoa
itoa-Free c n h = digits-Free c (digits_of 19 n) (λ d. ground (arith, d)) (digits_of-IsDigit 19 n)

joined_parts : (c : ℕ) (xs ys : Bytes) → Free c xs → Free c ys → Free c (xs ++ ys)
joined_parts c [] ys h k = k
joined_parts c (x ∷ xs) ys h k = (h.0, joined_parts c xs ys h.1 k)

handled :
    (draws : ℕ → ℕ) (address stamp digits : Bytes) (host : Bytes) (port : ℤ)
    → split b'|' (address ++ b'|' ∷ stamp) ≡ address ∷ stamp ∷ []
    → split b':' address ≡ host ∷ digits ∷ []
    → atoi digits ≡ some port
    → handle_connection draws (address ++ b'|' ∷ stamp)
      ≡ some (record {
        address = address;
        timestamp = stamp;
        port = port;
        answer = generate_random_string draws 10;
      })
unfolding handle_connection handle_info handle_address visit
handled draws address stamp digits host port whole parts read =
    ap (handle_info draws) whole
    ∙ ap (handle_address draws address stamp) parts
    ∙ ap (visit draws address stamp) read

-- When the address of a process is a host, in which neither a colon nor a bar stands, and a port, the
-- server reads from the message that the process sends it its address, its clock and its port, and
-- answers with ten characters of the character set: no index of the handler is out of range.
pub handle_connection-region_message :
    (draws : ℕ → ℕ) (p : Process) (host : Bytes) (port clock : ℕ)
    → codes p.address ≡ host ++ b':' ∷ itoa (pos port)
    → p.timestamp ≡ pos clock
    → Free b':' host
    → Free b'|' host
    → port < 2 ^ 63
    → ((k : ℕ) → draws k < 62)
    → (answer : Bytes) × (handle_connection draws (region_message p)
        ≡ some (record {
          address = codes p.address;
          timestamp = itoa p.timestamp;
          port = pos port;
          answer = answer;
        }))
      × (length answer ≡ 10)
      × All IsDrawn answer
unfolding region_message generate_random_string
handle_connection-region_message draws p host port clock e t colon bar small h =
    let digits = itoa (pos port) in
    let parts : split b':' (codes p.address) ≡ host ∷ digits ∷ [] =
      ap (split b':') e
      ∙ split-append b':' host digits colon
      ∙ ap (λ (ps : List Bytes). host ∷ ps)
          (split-piece b':' digits (itoa-Free b':' port (inr (omega arith)))) in
    let free : Free b'|' (codes p.address) = subst (Free b'|') (sym e) (
      joined_parts b'|' host (b':' ∷ digits) bar (refl, itoa-Free b'|' port (inr (omega arith)))) in
    let stamp : Free b'|' (itoa p.timestamp) =
      subst (λ (t : ℤ). Free b'|' (itoa t)) (sym t) (itoa-Free b'|' clock (inr (omega arith))) in
    let whole : split b'|' (codes p.address ++ b'|' ∷ itoa p.timestamp)
        ≡ codes p.address ∷ itoa p.timestamp ∷ [] =
      split-append b'|' (codes p.address) (itoa p.timestamp) free
      ∙ ap (λ (ps : List Bytes). codes p.address ∷ ps)
          (split-piece b'|' (itoa p.timestamp) stamp) in
    (
      generate_random_string draws 10,
      handled draws (codes p.address) (itoa p.timestamp) digits host (pos port) whole parts
          (atoi-itoa port small),
      (drawn draws 0 10 h).0,
      (drawn draws 0 10 h).1,
    )
