-- ===== src/Exercises/Salary/Answers.antt =====
-- What the client takes for the answers.
use grupo.Prelude.{
  ℕ, ◌+◌, ◌*◌, ◌≤◌, Bool, true, false, ◌≡◌, refl, sym, ap, ◌∙◌, some, List, [], ◌∷◌, ◌++◌, All, map,
  arith, leb, length, length-append, if◌then◌else◌,
}
use mathlib.Core.Path.{subst}
use mathlib.Core.List.{append_assoc, append-nil}
use grupo.Prelude.Bytes.{
  Bytes, codes, same_bytes, without, split, split-Free, take-append, drop-append, take, drop,
  take-drop, length-drop,
}
use grupo.Exercises.Salary.{
  Float64, Employee, adjusted, Row, client_employees, client_line, space, left_over, employees,
}
use grupo.Exercises.Salary.Requests.{IsOneWord, employees-IsOneWord, handle_message-request}

abbrev pub all_bytes : List Bytes → Bytes
all_bytes [] = []
all_bytes (xs ∷ rest) = xs ++ all_bytes rest

-- An answer in two parts: what comes before, and what is left of it.
rejoined :
    (n : ℕ) (pending answer rest : Bytes)
    → take n (pending ++ answer) ++ (drop n (pending ++ answer) ++ rest)
      ≡ pending ++ (answer ++ rest)
rejoined n pending answer rest =
    sym (append_assoc (take n (pending ++ answer)) (drop n (pending ++ answer)) rest)
    ∙ ap (λ (xs : Bytes). xs ++ rest) (take-drop n (pending ++ answer))
    ∙ append_assoc pending answer rest

module _ {F : Type 0} (float : Float64 F) where
  abbrev pub answer_to : Employee → Bytes
  answer_to (name, role, salary) = float.format (adjusted float role (float.parse salary).0)

  -- The client reads the salary.
  abbrev pub IsValid : Employee → Type 0
  IsValid (name, role, salary) = (float.parse salary).1 ≡ true

  abbrev size_of : ℕ → ℕ
  size_of n = if leb n 8 then n else 8

  abbrev input_of : Bytes → Bytes
  input_of line = without b'\r' (without b'\n' line)

  -- The row of an employee, when `received` is read.
  abbrev row_of : Employee → Bytes → Row float
  row_of (name, role, salary) received = record {
    name = name;
    role = role;
    old_salary = (float.parse salary).0;
    received = received;
    new_salary = (float.parse received).0;
  }

  one_employee :
      (e : Employee) (es : List Employee) (n : ℕ) (reads : List ℕ) (pending : Bytes)
      → IsOneWord e
      → IsValid e
      → let stream = pending ++ answer_to e in
        let rest = client_employees float es reads (drop (size_of n) stream) in
        client_employees float (e ∷ es) (n ∷ reads) pending
        ≡ (row_of e (take (size_of n) stream) ∷ rest.0, rest.1, rest.2)
  unfolding client_employees
  one_employee (name, role, salary) es n reads pending w v =
      rw (v, handle_message-request float name role salary w) refl

  -- What the client has printed for employees, with the bytes that are left and whether it came to
  -- the end: a row for each, with his name, his role, his salary as the client reads it and, as the
  -- new salary, the number in the bytes that were read for this row; and what it has read, with the
  -- bytes that are left, is what was left before and then all the answers in their order. A row has
  -- at most 8 bytes.
  pub record InOrder (es : List Employee) (pending : Bytes) (out : List (Row float) × Bytes × Bool)
      : Type 0 where
    pub ended : out.2 ≡ true
    pub printed :
        map {B = Bytes × Bytes × F} (λ r. (r.name, r.role, r.old_salary)) out.0
        ≡ map {B = Bytes × Bytes × F} (λ e. (e.0, e.1, (float.parse e.2).0)) es
    pub parsed :
        map (λ (r : Row float). r.new_salary) out.0
        ≡ map (λ (r : Row float). (float.parse r.received).0) out.0
    pub read :
        all_bytes (map (λ (r : Row float). r.received) out.0) ++ out.1
        ≡ pending ++ all_bytes (map answer_to es)
    pub behind :
        length pending + length (all_bytes (map answer_to es)) ≤ length out.1 + 8 * length es

  no_employee :
      (reads : List ℕ) (pending : Bytes)
      → InOrder [] pending (client_employees float [] reads pending)
  unfolding client_employees
  no_employee reads pending = record {
    ended = refl;
    printed = refl;
    parsed = refl;
    read = sym (append-nil pending);
    behind = ground arith;
  }

  -- When each employee of a line has a salary that can be read, and none a space in it, and there are
  -- as many reads as employees, the client comes to the end of the line with a row for each, in order.
  -- What it has read for all of them, with the bytes that are left, is what was left before and then
  -- all the answers in their order; and a row takes 8 bytes at most, so that longer answers leave
  -- bytes behind, which the rows that follow take for their own answers.
  pub client_employees_lem :
      (es : List Employee) (reads : List ℕ) (pending : Bytes)
      → All IsOneWord es
      → All IsValid es
      → length reads ≡ length es
      → InOrder es pending (client_employees float es reads pending)
  client_employees_lem [] reads pending w v n = no_employee reads pending
  client_employees_lem (e ∷ es) [] pending w v n = absurd (omega arith)
  client_employees_lem (e ∷ es) (k ∷ reads) pending w v n =
      let stream = pending ++ answer_to e in
      let size = size_of k in
      let rest = client_employees_lem es reads (drop size stream) w.1 v.1 (omega arith) in
      let small : size ≤ 8 = ground arith in
      subst (InOrder (e ∷ es) pending) (sym (one_employee e es k reads pending w.0 v.0)) (record {
        ended = rest.ended;
        printed =
            ap (λ (xs : List (Bytes × Bytes × F)). (e.0, e.1, (float.parse e.2).0) ∷ xs)
              rest.printed;
        parsed = ap (λ (xs : List F). (float.parse (take size stream)).0 ∷ xs) rest.parsed;
        read =
            append_assoc (take size stream) _ _
            ∙ ap (λ (xs : Bytes). take size stream ++ xs) rest.read
            ∙ rejoined size pending (answer_to e) (all_bytes (map answer_to es));
        behind = omega (
          arith,
          rest.behind,
          small,
          length-drop size stream,
          length-append pending (answer_to e),
          length-append (answer_to e) (all_bytes (map answer_to es)),
        );
      })

  -- A line of the client that is not "exit" and has three words for each employee is printed as
  -- `client_employees` prints it: when every salary can be read and every Read succeeds, the client
  -- comes to its end with a row for each employee, in order. The row shows the employee's name, role
  -- and salary, and as the new salary what the bytes read for this row are parsed to. What it has
  -- read for all of them, with the bytes that are left, is what was left before and then all the
  -- answers in their order.
  pub client_line-InOrder :
      (line : Bytes) (reads : List ℕ) (pending : Bytes)
      → same_bytes (input_of line) (codes "exit") ≡ false
      → left_over (split space (input_of line)) ≡ 0
      → All IsValid (employees (split space (input_of line)))
      → length reads ≡ length (employees (split space (input_of line)))
      → (out : List (Row float) × Bytes × Bool) × (client_line float line reads pending ≡ some out)
        × InOrder (employees (split space (input_of line))) pending out
  unfolding client_line
  client_line-InOrder line reads pending not_exit whole valid enough =
      let es = employees (split space (input_of line)) in
      (
        client_employees float es reads pending,
        rw (not_exit, whole) refl,
        client_employees_lem es reads pending
            (employees-IsOneWord (split space (input_of line)) (split-Free space (input_of line)))
            valid enough,
      )

  last_employee :
      (e : Employee) (m : ℕ) (pending : Bytes)
      → IsOneWord e
      → IsValid e
      → m ≤ 8
      → m ≤ length pending
      → client_employees float (e ∷ []) (m ∷ []) pending
        ≡ (row_of e (take m pending) ∷ [], drop m pending ++ answer_to e, true)
  unfolding client_employees
  last_employee e m pending w v h enough =
      let size : size_of m ≡ m = ground arith in
      one_employee e [] m [] pending w v
      ∙ rw
          (
            size,
            take-append m pending (answer_to e) enough,
            drop-append m pending (answer_to e) enough,
          )
          refl

  -- When the two Reads of a line of two employees return together no more bytes than the answer for
  -- the first employee has, then what the client prints as the second one's new salary is a part of the
  -- first one's answer, whatever the server answers for the second.
  pub second_is_stale :
      (first second : Employee) (n m : ℕ)
      → IsOneWord first
      → IsOneWord second
      → IsValid first
      → IsValid second
      → n ≤ 8
      → m ≤ 8
      → n + m ≤ length (answer_to first)
      → client_employees float (first ∷ second ∷ []) (n ∷ m ∷ []) [] ≡ (
        row_of first (take n (answer_to first))
            ∷ row_of second (take m (drop n (answer_to first)))
            ∷ [],
        drop m (drop n (answer_to first)) ++ answer_to second,
        true,
      )
  second_is_stale first second n m w1 w2 v1 v2 hn hm enough =
      let size : size_of n ≡ n = ground arith in
      let left : m ≤ length (drop n (answer_to first)) =
        omega (arith, enough, length-drop n (answer_to first)) in
      one_employee first (second ∷ []) n (m ∷ []) [] w1 v1
      ∙ rw (size, last_employee second m (drop n (answer_to first)) w2 v2 hm left) refl
