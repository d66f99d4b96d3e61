-- ===== src/Exercises/Retirement.antt =====
-- problemas/ex7/main.go: who can retire. A connection is the requests that Decode reads, up to its first
-- error, with whether the answer to each could be written. strconv.ParseInt of the trimmed line is a
-- parameter.
use grupo.Prelude.{
  ℕ, ◌+◌, ◌%◌, ◌≤◌, ◌-◌, String, Bool, true, ◌≡◌, ◌⊎◌, ◌↔◌, refl, sym, ap, ◌∙◌, arith, Option, none,
  some, List, [], ◌∷◌, ◌||◌, ◌&&◌, leb, if◌then◌else◌,
}
use grupo.Prelude.Int.{ℤ, pos, negsuc, pos_part, neg_part, nonneg, ◌≤ℤ◌, ◌<ℤ◌}

-- Req, two uint8
pub record Req : Type 0 where
  pub idade : ℕ
  pub tempo_servico : ℕ

-- The answer of serverHandleConn to one request.
unfoldable pub pode_aposentar : Req → Bool
pode_aposentar req =
    leb 65 req.idade || (leb 30 req.tempo_servico || (leb 60 req.idade && leb 25 req.tempo_servico))

-- serverHandleConn: it ends when a request cannot be read or an answer cannot be written.
unfoldable pub server_handle_conn : List (Req × Bool) → List Bool
server_handle_conn [] = []
server_handle_conn ((req, written) ∷ rest) =
    let others = server_handle_conn rest in if written then pode_aposentar req ∷ others else []

-- uint8(x) of an int64
unfoldable pub to_uint8 : ℤ → ℕ
to_uint8 (pos n) = n % 256
to_uint8 (negsuc n) = 255 - n % 256

-- A negative int8 becomes at least 128.
uint8_of :
    (i : ℤ)
    → (pos_part i ≤ 127) × (neg_part i ≤ 128)
    → to_uint8 i + neg_part i ≡ (if nonneg i then pos_part i else 256)
unfolding to_uint8
uint8_of (pos n) h = omega arith
uint8_of (negsuc n) h = omega arith

-- What the client prints in a round of its loop.
pub data Output : Type 0 where
  invalid_age invalid_service : Output
  can_retire : Bool → Output

-- strconv.ParseInt(strings.TrimSpace(s), 10, 8): an int8, or an error.
pub record ParseInt8 : Type 0 where
  pub parse : String → Option ℤ
  pub in_range : (s : String) (i : ℤ) → parse s ≡ some i → (pos_part i ≤ 127) × (neg_part i ≤ 128)

module _ (p : ParseInt8) where
  -- client(): one round, over a connection that works.
  unfoldable pub client_round : String → String → Output
  client_round age service = elim (p.parse age) [
    | none ↦ invalid_age
    | some idade ↦ elim (p.parse service) [
      | none ↦ invalid_service
      | some tempo ↦
          can_retire
            (pode_aposentar (record { idade = to_uint8 idade; tempo_servico = to_uint8 tempo }))
    ]
  ]

  -- A client that reads two int8 numbers is told that the person can retire exactly when the age is 65
  -- or more, or the service 30 or more, or the age 60 and the service 25 or more, or one of the two
  -- numbers is negative.
  pub client_round_lem :
      (age service : String) (idade tempo : ℤ)
      → p.parse age ≡ some idade
      → p.parse service ≡ some tempo
      → (client_round age service ≡ can_retire true) ↔ (
          (pos 65 ≤ℤ idade)
          ⊎ ((pos 30 ≤ℤ tempo)
              ⊎ (((pos 60 ≤ℤ idade) × (pos 25 ≤ℤ tempo)) ⊎ ((idade <ℤ pos 0) ⊎ (tempo <ℤ pos 0)))))
  unfolding client_round pode_aposentar
  client_round_lem age service idade tempo ha hs =
      let told : client_round age service
          ≡ can_retire
              (pode_aposentar (record { idade = to_uint8 idade; tempo_servico = to_uint8 tempo })) =
        rw (ha, hs, client_round) refl in
      let of_age = uint8_of idade (p.in_range age idade ha) in
      let of_service = uint8_of tempo (p.in_range service tempo hs) in
      (
        λ e. ground (
          arith,
          of_age,
          of_service,
          p.in_range age idade ha,
          p.in_range service tempo hs,
          sym told ∙ e,
        ),
        λ c.
            told
            ∙ ap can_retire (
                ground (
                  arith,
                  of_age,
                  of_service,
                  p.in_range age idade ha,
                  p.in_range service tempo hs,
                  c,
                )),
      )
