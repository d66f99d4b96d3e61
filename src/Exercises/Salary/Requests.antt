-- ===== src/Exercises/Salary/Requests.antt =====
-- A request that the client makes of a line, and the server's answer to it.
use grupo.Prelude.{ℕ, suc, false, ◌≡◌, ap, ◌∙◌, List, [], ◌∷◌, ◌++◌, All, arith, leb, length}
use grupo.Prelude.Bytes.{Bytes, same_bytes, take, drop, split, Free, split-append, split-piece}
use grupo.Exercises.Salary.{
  space, Float64, answered, Employee, request, employees, adjusted, answer_data, handle_message,
}

-- No space stands in the name, the role or the salary.
abbrev pub IsOneWord : Employee → Type 0
IsOneWord (name, role, salary) = Free space name × Free space role × Free space salary

-- The employees of a line are of one word each.
pub employees-IsOneWord :
    (data' : List Bytes) → All (Free space) data' → All IsOneWord (employees data')
unfolding employees
employees-IsOneWord [] h = tt
employees-IsOneWord (name ∷ []) h = tt
employees-IsOneWord (name ∷ role ∷ []) h = tt
employees-IsOneWord (name ∷ role ∷ salary ∷ rest) h =
    ((h.0, h.1.0, h.1.1.0), employees-IsOneWord rest h.1.1.1)

split-request :
    (name role salary : Bytes)
    → IsOneWord (name, role, salary)
    → split space (name ++ space ∷ (role ++ space ∷ salary)) ≡ name ∷ role ∷ salary ∷ []
split-request name role salary (hn, hr, hs) =
    split-append space name (role ++ space ∷ salary) hn
    ∙ ap (λ (ps : List Bytes). name ∷ ps)
        (split-append space role salary hr
          ∙ ap (λ (ps : List Bytes). role ∷ ps) (split-piece space salary hs))

module _ {F : Type 0} (float : Float64 F) where
  -- The server reads from a request for an employee, whose name, role and salary hold no space, the
  -- role and the salary that the client wrote into it, and answers with the salary adjusted by the
  -- role.
  pub handle_message-request :
      (name role salary : Bytes)
      → IsOneWord (name, role, salary)
      → handle_message float (request (name, role, salary))
        ≡ answered (float.format (adjusted float role (float.parse salary).0))
  unfolding handle_message request take drop same_bytes answer_data
  handle_message-request name role salary h =
      let long : (n : ℕ) → leb (suc (suc (suc (suc n)))) 3 ≡ false = λ n. ground arith in
      let longer : (n : ℕ) → leb (suc (suc (suc (suc n)))) 2 ≡ false = λ n. ground arith in
      let text = name ++ space ∷ (role ++ space ∷ salary) in
      rw (longer (length text), long (length text))
        (ap (answer_data float) (split-request name role salary h))
