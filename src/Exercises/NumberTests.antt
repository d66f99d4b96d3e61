-- ===== src/Exercises/NumberTests.antt =====
-- The category of a line, and the credit of a balance in tenths, with the theorems on them.
use grupo.Prelude.{
  ℕ, ◌*◌, ◌/◌, true, false, ◌≡◌, refl, Option, none, some, [], ◌∷◌, ◌++◌, arith, leb, if◌then◌else◌,
  length, ◌-◌, String, str_eq,
}
use grupo.Prelude.Int.{ℤ, pos}
use grupo.Prelude.Bytes.{Bytes, codes}
use grupo.Prelude.Numerals.{read_up_to, read_digits}
use grupo.Exercises.Category.{
  parse_uint8, trim_space, trim_left, trim_right, is_space, categoria, zeros, client_round, found,
  invalid_age, Age, client_round-Age, server_handle_conn,
}
use grupo.Exercises.Credit
use grupo.Exercises.Credit.{Float64, between, credito, credito-bands}
use grupo.Exercises.Payroll

not_a_number : client_round (codes "300") 20 ≡ invalid_age
unfolding client_round parse_uint8 read_up_to read_digits trim_space trim_left trim_right is_space
not_a_number = refl

one_answer : server_handle_conn ((12, true) ∷ (3, false) ∷ (8, true) ∷ []) ≡ codes "juvenil A" ∷ []
unfolding server_handle_conn categoria
one_answer = refl

client_round-Age_example :
    (category : Bytes) × Age 9 category
    × (client_round (codes " 9 ") 20 ≡ found 9 (category ++ zeros (20 - length category)))
unfolding parse_uint8 read_up_to read_digits trim_space trim_left trim_right is_space categoria
client_round-Age_example = client_round-Age (codes " 9 ") 9 20 refl (omega arith)

-- A balance in tenths.
abbrev tenths : Float64 ℕ
tenths = record {
  number = λ n. 10 * n;
  tenths = λ n. n;
  le = leb;
  times = λ m n. m * n / 10;
  parse = λ line. none;
  le_trans = λ a b c h k. ground arith;
  le-number = λ m n. ground arith;
}

credits :
    Credit.server_handle_conn tenths ((3000, true) ∷ (4005, true) ∷ (7000, true) ∷ [])
    ≡ 600 ∷ 0 ∷ 2800 ∷ []
unfolding Credit.server_handle_conn credito
credits = refl

-- A balance of 400.5 has no credit.
credito-bands_example :
    (between tenths 201 400 4005 ≡ true → credito tenths 4005 ≡ 2 * 4005 / 10)
    × (between tenths 401 600 4005 ≡ true → credito tenths 4005 ≡ 3 * 4005 / 10)
    × (leb 6010 4005 ≡ true → credito tenths 4005 ≡ 4 * 4005 / 10)
    × (between tenths 201 400 4005 ≡ false
        → between tenths 401 600 4005 ≡ false
        → leb 6010 4005 ≡ false
        → credito tenths 4005 ≡ 0)
    × (leb 4005 4000 ≡ false → leb 4010 4005 ≡ false → credito tenths 4005 ≡ 0)
    × (leb 4005 6000 ≡ false → leb 6010 4005 ≡ false → credito tenths 4005 ≡ 0)
credito-bands_example = credito-bands tenths 4005

-- Whole percents, and a salary of 2000 with a discount of 10 per cent.
abbrev percents : Payroll.Float64 ℕ
percents = record {
  hundredths = λ n. n;
  minus = λ m n. m - n;
  times = λ m n. m * n / 100;
  parse = λ line. if str_eq line "2000" then some 2000 else none;
}

abbrev atoi : String → Option ℤ
atoi line = if str_eq line "2" then some (pos 2) else none

net_salary : Payroll.main percents atoi "ana" "B" "2000" "2" ≡ Payroll.printed ("ana", "B", 1800)
unfolding Payroll.main Payroll.calcular_salario_liquido Payroll.calcular_desconto
net_salary = refl

-- Tenths of a metre and of a kilogram.
abbrev metres : Payroll.Float32 ℕ
metres = record {
  tenths = λ n. n;
  minus = λ m n. m - n;
  times = λ m n. m * n / 10;
  parse = λ line. if str_eq line "1.8" then some 18 else none;
}

ideal_weights :
    Payroll.server_handle_conn metres
      ((record { sexo = "M"; altura = 18 }, true) ∷ (record { sexo = "F"; altura = 18 }, true) ∷ [])
    ≡ 728 ∷ 670 ∷ []
unfolding Payroll.server_handle_conn Payroll.peso_ideal
ideal_weights = refl

asked : Payroll.client_round metres "F" "1.8" ≡ some 670
unfolding Payroll.client_round Payroll.peso_ideal
asked = refl
