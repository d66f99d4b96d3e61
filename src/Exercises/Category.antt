-- ===== src/Exercises/Category.antt =====
-- problemas/ex5/main.go: a server names the category of a swimmer of an age. A connection is the ages that
-- binary.Read gives up to its first error, with whether the answer to each could be written.
use grupo.Prelude.{
  ℕ, zero, suc, ◌-◌, ◌≤◌, Bool, ◌≡◌, ◌⊎◌, inl, inr, refl, arith, Option, none, some, List, [], ◌∷◌,
  ◌++◌, ◌||◌, ◌&&◌, leb, length, ◌==◌, if◌then◌else◌,
}
use mathlib.Core.Path.{subst}
use grupo.Prelude.Numerals.{read_up_to}
use grupo.Prelude.Bytes.{Bytes, codes, take, take-all}

-- The answer of serverHandleConn to an age.
unfoldable pub categoria : ℕ → Bytes
categoria idade =
    if leb 5 idade && leb idade 7
    then codes "infantil A"
    else if leb 8 idade && leb idade 10
    then codes "infantil B"
    else if leb 11 idade && leb idade 13
    then codes "juvenil A"
    else if leb 14 idade && leb idade 17
    then codes "juvenil B"
    else codes "adulto"

-- serverHandleConn: it ends when an age cannot be read or an answer cannot be written.
unfoldable pub server_handle_conn : List (ℕ × Bool) → List Bytes
server_handle_conn [] = []
server_handle_conn ((idade, written) ∷ rest) =
    let others = server_handle_conn rest in if written then categoria idade ∷ others else []

-- What strings.TrimSpace takes off an ASCII text.
unfoldable pub is_space : ℕ → Bool
is_space c = (c == b' ') || (leb 9 c && leb c 13)

unfoldable pub trim_left : Bytes → Bytes
trim_left [] = []
trim_left (c ∷ cs) = let rest = trim_left cs in if is_space c then rest else c ∷ cs

-- Drops the white space at the end.
unfoldable pub trim_right : Bytes → Bytes
trim_right [] = []
trim_right (c ∷ cs) = elim (trim_right cs) [
  | [] ↦ if is_space c then [] else c ∷ []
  | ◌∷◌ d ds ↦ c ∷ d ∷ ds
]

unfoldable pub trim_space : Bytes → Bytes
trim_space s = trim_right (trim_left s)

-- strconv.ParseUint(s, 10, 8)
unfoldable pub parse_uint8 : Bytes → Option ℕ
parse_uint8 s = read_up_to 255 s

unfoldable pub zeros : ℕ → Bytes
zeros zero = []
zeros (suc n) = 0 ∷ zeros n

-- What the client prints for a line: the age and the category.
pub data Output : Type 0 where
  invalid_age : Output
  found : ℕ → Bytes → Output

-- client(), one line, over a connection that works. The Read returns `size` bytes of the answer, at most
-- the 20 of the buffer, and the text is made of the whole buffer.
unfoldable pub client_round : Bytes → ℕ → Output
client_round line size = elim (parse_uint8 (trim_space line)) [
  | none ↦ invalid_age
  | some idade ↦
      let received = take (if leb size 20 then size else 20) (categoria idade) in
      found idade (trim_space (received ++ zeros (20 - length received)))
]

-- The five categories and their ages.
pub data Age : ℕ → Bytes → Type 0 where
  infantil_a : {n : ℕ} → 5 ≤ n → n ≤ 7 → Age n (codes "infantil A")
  infantil_b : {n : ℕ} → 8 ≤ n → n ≤ 10 → Age n (codes "infantil B")
  juvenil_a : {n : ℕ} → 11 ≤ n → n ≤ 13 → Age n (codes "juvenil A")
  juvenil_b : {n : ℕ} → 14 ≤ n → n ≤ 17 → Age n (codes "juvenil B")
  adulto : {n : ℕ} → (18 ≤ n) ⊎ (n ≤ 4) → Age n (codes "adulto")

age_cases :
    (n : ℕ)
    → ((5 ≤ n) × (n ≤ 7))
      ⊎ (((8 ≤ n) × (n ≤ 10))
          ⊎ (((11 ≤ n) × (n ≤ 13)) ⊎ (((14 ≤ n) × (n ≤ 17)) ⊎ ((18 ≤ n) ⊎ (n ≤ 4)))))
age_cases n = ground arith

pub categoria-Age : (idade : ℕ) → Age idade (categoria idade)
unfolding categoria
categoria-Age n = elim (age_cases n) [
  | inl (a, b) ↦ subst (Age n) (ground (arith, a, b)) (infantil_a a b)
  | inr (inl (a, b)) ↦ subst (Age n) (ground (arith, a, b)) (infantil_b a b)
  | inr (inr (inl (a, b))) ↦ subst (Age n) (ground (arith, a, b)) (juvenil_a a b)
  | inr (inr (inr (inl (a, b)))) ↦ subst (Age n) (ground (arith, a, b)) (juvenil_b a b)
  | inr (inr (inr (inr a))) ↦ subst (Age n) (ground (arith, a)) (adulto a)
]

-- The zero bytes behind a category in the buffer are no white space.
padded :
    (n : ℕ) (category : Bytes)
    → Age n category
    → (length category ≤ 10)
      × (trim_space (category ++ zeros (20 - length category))
          ≡ category ++ zeros (20 - length category))
unfolding trim_space trim_left trim_right is_space zeros
padded n category (infantil_a a b) = (omega arith, refl)
padded n category (infantil_b a b) = (omega arith, refl)
padded n category (juvenil_a a b) = (omega arith, refl)
padded n category (juvenil_b a b) = (omega arith, refl)
padded n category (adulto a) = (omega arith, refl)

-- For a line that is a number below 256, and a Read that returns the answer whole, the client prints the
-- number and its category by the table of ages, in which "adulto" stands for the ages up to 4 too, with
-- the zero bytes of the rest of its buffer behind the category: strings.TrimSpace leaves them there.
pub client_round-Age :
    (line : Bytes) (idade size : ℕ)
    → parse_uint8 (trim_space line) ≡ some idade
    → length (categoria idade) ≤ size
    → (category : Bytes) × Age idade category
      × (client_round line size ≡ found idade (category ++ zeros (20 - length category)))
unfolding client_round
client_round-Age line idade size e h =
    let (short, kept) = padded idade (categoria idade) (categoria-Age idade) in
    let enough : length (categoria idade) ≤ (if leb size 20 then size else 20) = ground arith in
    (
      categoria idade,
      categoria-Age idade,
      rw
          (
            e,
            take-all (if leb size 20 then size else 20) (categoria idade) enough,
            kept,
            client_round,
          )
          refl,
    )
