-- ===== src/Exercises/Payroll.antt =====
-- problemas/ex6/main.go and problemas/ex4/main.go: a net salary, and an ideal weight. Floating-point
-- numbers are a type with the operations that the source uses.
use grupo.Prelude.{ℕ, String, Bool, Option, none, some, List, [], ◌∷◌, str_eq, if◌then◌else◌}
use grupo.Prelude.Int.{ℤ, pos, ltb_ℤ}

-- float64 in ex6: a constant in hundredths, the difference, the product, ParseFloat of a trimmed line.
pub record Float64 (F : Type 0) : Type 0 where
  pub hundredths : ℕ → F
  pub minus : F → F → F
  pub times : F → F → F
  pub parse : String → Option F

module _ {F : Type 0} (float : Float64 F) (atoi : String → Option ℤ) where
  -- calcularDesconto
  unfoldable pub calcular_desconto : String → Bool → F
  calcular_desconto nivel tem_dependentes =
      if str_eq nivel "A"
      then float.hundredths (if tem_dependentes then 8 else 3)
      else if str_eq nivel "B"
      then float.hundredths (if tem_dependentes then 10 else 5)
      else if str_eq nivel "C"
      then float.hundredths (if tem_dependentes then 15 else 8)
      else if str_eq nivel "D"
      then float.hundredths (if tem_dependentes then 17 else 10)
      else float.hundredths 0

  -- calcularSalarioLiquido: what it prints.
  unfoldable pub calcular_salario_liquido : String → String → F → ℤ → String × String × F
  calcular_salario_liquido nome nivel salario_bruto dependentes =
      let desconto = calcular_desconto nivel (ltb_ℤ (pos 0) dependentes) in
      (nome, nivel, float.minus salario_bruto (float.times salario_bruto desconto))

  pub data Output : Type 0 where
    invalid_salary invalid_dependents : Output
    printed : String × String × F → Output

  -- main, over the lines that it reads. strconv.Atoi of the trimmed line is a parameter.
  unfoldable pub main : String → String → String → String → Output
  main nome nivel salario dependentes = elim (float.parse salario) [
    | none ↦ invalid_salary
    | some bruto ↦ elim (atoi dependentes) [
      | none ↦ invalid_dependents
      | some d ↦ printed (calcular_salario_liquido nome nivel bruto d)
    ]
  ]

-- Req of ex4
pub record Req (F : Type 0) : Type 0 where
  pub sexo : String
  pub altura : F

-- float32 in ex4: a constant in tenths, the difference, the product, ParseFloat of a trimmed line.
pub record Float32 (F : Type 0) : Type 0 where
  pub tenths : ℕ → F
  pub minus : F → F → F
  pub times : F → F → F
  pub parse : String → Option F

module _ {F : Type 0} (float : Float32 F) where
  -- serverHandleConn of ex4, for one request
  unfoldable pub peso_ideal : Req F → F
  peso_ideal req =
      if str_eq req.sexo "M"
      then float.minus (float.times (float.tenths 727) req.altura) (float.tenths 580)
      else float.minus (float.times (float.tenths 621) req.altura) (float.tenths 447)

  -- serverHandleConn of ex4: the requests up to the first error, with whether an answer was written.
  unfoldable pub server_handle_conn : List (Req F × Bool) → List F
  server_handle_conn [] = []
  server_handle_conn ((req, written) ∷ rest) =
      let others = server_handle_conn rest in if written then peso_ideal req ∷ others else []

  -- client of ex4: one round, over a connection that works; `none` is an invalid height.
  unfoldable pub client_round : String → String → Option F
  client_round sexo altura = elim (float.parse altura) [
    | none ↦ none
    | some a ↦ some (peso_ideal (record { sexo = sexo; altura = a }))
  ]
