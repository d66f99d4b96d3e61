-- ===== src/Exercises/Salary.antt =====
-- problemas/ex1/main.go: salaries are adjusted by a server. The server's Read returns a whole request, and
-- a Read of the client as many bytes as it is given here, at most the 8 of its buffer.
pub mod Requests
pub mod Answers
use grupo.Prelude.{
  ℕ, zero, suc, ◌+◌, ◌%◌, String, Bool, true, false, ◌≡◌, Option, none, some, List, [], ◌∷◌, ◌++◌,
  length, ◌==◌, leb, if◌then◌else◌,
}
use grupo.Prelude.Bytes.{Bytes, codes, same_bytes, take, drop, without, split}

abbrev space : ℕ
space = b' '

-- Go's float64 as far as it is used: strconv.ParseFloat with whether it succeeds, the product, the two
-- constants of the source, and fmt.Sprintf with %f.
pub record Float64 (F : Type 0) : Type 0 where
  pub parse : Bytes → F × Bool
  pub times : F → F → F
  pub operador : F
  pub programador : F
  pub format : F → Bytes

-- What becomes of a request: a panic of an index, "Invalid message!", or an answer.
pub data Handled : Type 0 where
  panicked : Handled
  invalid : Handled
  answered : Bytes → Handled

-- A name, a role and a salary.
abbrev pub Employee : Type 0
Employee = Bytes × Bytes × Bytes

-- fmt.Sprintf("RAJ %s %s %s", name, role, salary)
unfoldable pub request : Employee → Bytes
request (name, role, salary) = codes "RAJ " ++ (name ++ space ∷ (role ++ space ∷ salary))

-- The data of a line, three pieces for each employee.
unfoldable pub employees : List Bytes → List Employee
employees [] = []
employees (name ∷ []) = []
employees (name ∷ role ∷ []) = []
employees (name ∷ role ∷ salary ∷ rest) = (name, role, salary) ∷ employees rest

-- How many pieces are left over, len(data)%3.
unfoldable pub left_over : List Bytes → ℕ
left_over data' = length data' % 3

module _ {F : Type 0} (float : Float64 F) where
  -- The salary by the role.
  unfoldable pub adjusted : Bytes → F → F
  adjusted role salary =
      if same_bytes role (codes "operador")
      then float.times salary float.operador
      else if same_bytes role (codes "programador")
      then float.times salary float.programador
      else salary

  -- data[2] and data[1] of the pieces of a request.
  unfoldable pub answer_data : List Bytes → Handled
  answer_data [] = panicked
  answer_data (name ∷ []) = panicked
  answer_data (name ∷ role ∷ []) = panicked
  answer_data (name ∷ role ∷ salary ∷ rest) =
      answered (float.format (adjusted role (float.parse salary).0))

  -- serverHandleConn, one message: message[:3] and message[4:] panic when it is shorter.
  unfoldable pub handle_message : Bytes → Handled
  handle_message message =
      if leb (length message) 2
      then panicked
      else if same_bytes (take 3 message) (codes "RAJ")
      then if leb (length message) 3 then panicked else answer_data (split space (drop 4 message))
      else invalid

  -- serverHandleConn: the messages that are read until an error, with whether an answer could be
  -- written; what it writes, and whether it panics.
  unfoldable pub server_handle_conn : List (Bytes × Bool) → List Bytes × Bool
  server_handle_conn [] = ([], false)
  server_handle_conn ((message, written) ∷ rest) =
      let (later, panics) = server_handle_conn rest in
      elim (handle_message message) [
        | panicked ↦ ([], true)
        | invalid ↦ (later, panics)
        | answered a ↦ if written then (a ∷ later, panics) else ([], false)
      ]

  -- What the client prints for an employee; `received` is the part of the buffer that was read.
  pub record Row : Type 0 where
    pub name : Bytes
    pub role : Bytes
    pub old_salary : F
    pub received : Bytes
    pub new_salary : F

  -- The client's loop over the employees of a line. `pending` are the bytes that the server has sent
  -- and the client has not read, and `reads` how many bytes each Read returns. The last part says
  -- whether the loop came to its end; else a salary is invalid, or no answer comes.
  unfoldable pub client_employees : List Employee → List ℕ → Bytes → List Row × Bytes × Bool
  client_employees [] reads pending = ([], pending, true)
  client_employees (e ∷ es) [] pending = ([], pending, false)
  client_employees ((name, role, salary) ∷ es) (n ∷ reads) pending =
      let (old_salary, valid) = float.parse salary in
      let size = if leb n 8 then n else 8 in
      let rest = λ (answer : Bytes). client_employees es reads (drop size (pending ++ answer)) in
      if valid
      then elim (handle_message (request (name, role, salary))) [
        | panicked ↦ ([], pending, false)
        | invalid ↦ ([], pending, false)
        | answered answer ↦
            let received = take size (pending ++ answer) in
            (
              record {
                name = name;
                role = role;
                old_salary = old_salary;
                received = received;
                new_salary = (float.parse received).0;
              }
                  ∷ (rest answer).0,
              (rest answer).1,
              (rest answer).2,
            )
      ]
      else ([], pending, false)

  -- A line of input: `none` is "exit".
  unfoldable pub client_line : Bytes → List ℕ → Bytes → Option (List Row × Bytes × Bool)
  client_line line reads pending =
      let input = without b'\r' (without b'\n' line) in
      let data' = split space input in
      if same_bytes input (codes "exit")
      then none
      else if left_over data' == 0
      then some (client_employees (employees data') reads pending)
      else some ([], pending, false)
