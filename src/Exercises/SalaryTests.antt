-- ===== src/Exercises/SalaryTests.antt =====
-- A line of two employees, over whole numbers in place of float64, and the theorems on it.
use grupo.Prelude.{
  ℕ, ◌+◌, ◌-◌, ◌*◌, ◌/◌, Bool, true, false, ◌&&◌, ◌≡◌, refl, some, List, [], ◌∷◌, ◌++◌, arith, ◌==◌,
  leb, if◌then◌else◌,
}
use grupo.Prelude.Text.{decimal}
use grupo.Prelude.Bytes.{Bytes, codes, same_bytes, take, drop, without, split}
use grupo.Exercises.Salary.{
  Float64, invalid, panicked, Employee, Row, request, employees, left_over, adjusted, answer_data,
  handle_message, server_handle_conn, client_employees, client_line,
}
use grupo.Exercises.Salary.Answers.{InOrder, client_line-InOrder, second_is_stale}

abbrev digits : ℕ → Bytes → ℕ × Bool
digits n [] = (n, true)
digits n (c ∷ cs) =
    let rest = digits (10 * n + (c - b'0')) cs in
    if c == b'.' then (n, true) else if leb b'0' c && leb c b'9' then rest else (n, false)

-- A number is cut off at its point.
abbrev whole : Float64 ℕ
whole = record {
  parse = digits 0;
  times = λ n percent. n * percent / 100;
  operador = 120;
  programador = 118;
  format = λ n. codes (decimal 5 n) ++ codes ".000000";
}

abbrev ana : Employee
ana = (codes "ana", codes "operador", codes "1000")

abbrev bia : Employee
bia = (codes "bia", codes "programador", codes "1000")

abbrev line : Bytes
line = codes "ana operador 1000 bia programador 1000\n"

-- A message of three bytes panics at its fourth, one of another kind is not answered.
short_message : handle_message whole (codes "RAJ") ≡ panicked
unfolding handle_message take same_bytes
short_message = refl

other_message : handle_message whole (codes "oi, tudo bem?") ≡ invalid
unfolding handle_message take same_bytes
other_message = refl

served :
    server_handle_conn whole ((request ana, true) ∷ (codes "ok?", true) ∷ (codes "RA", true) ∷ [])
    ≡ (codes "1200.000000" ∷ [], true)
unfolding server_handle_conn request handle_message take drop same_bytes split answer_data adjusted
served = refl

client_line-InOrder_example :
    (out : List (Row whole) × Bytes × Bool) × (client_line whole line (8 ∷ 3 ∷ []) [] ≡ some out)
    × InOrder whole (ana ∷ bia ∷ []) [] out
unfolding split without employees same_bytes left_over
client_line-InOrder_example =
    client_line-InOrder whole line (8 ∷ 3 ∷ []) [] refl refl (refl, (refl, tt)) refl

-- The second row reads "000".
second_is_stale_example : client_employees whole (ana ∷ bia ∷ []) (8 ∷ 3 ∷ []) [] ≡ (
  record {
    name = codes "ana";
    role = codes "operador";
    old_salary = 1000;
    received = codes "1200.000";
    new_salary = 1200;
  }
      ∷ record {
        name = codes "bia";
        role = codes "programador";
        old_salary = 1000;
        received = codes "000";
        new_salary = 0;
      }
      ∷ [],
  codes "1180.000000",
  true,
)
unfolding adjusted same_bytes take drop
second_is_stale_example =
    second_is_stale whole ana bia 8 3 (ground arith, ground arith, ground arith)
      (ground arith, ground arith, ground arith) refl refl (omega arith) (omega arith) (omega arith)
