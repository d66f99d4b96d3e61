-- ===== src/Exercises/Tests.antt =====
-- A client that is given a negative age, and the theorem on it.
use grupo.Prelude.{
  ◌≡◌, ◌⊎◌, ◌↔◌, refl, arith, Option, none, some, String, true, false, [], ◌∷◌, str_eq,
  if◌then◌else◌, ◌≤◌,
}
use grupo.Prelude.Int.{ℤ, pos, negsuc, pos_part, neg_part, ◌≤ℤ◌, ◌<ℤ◌}
use grupo.Exercises.Retirement.{
  ParseInt8, client_round, can_retire, client_round_lem, server_handle_conn, pode_aposentar,
}

abbrev parse : String → Option ℤ
parse s = if str_eq s "-1" then some (negsuc 0) else if str_eq s "20" then some (pos 20) else none

parse_range : (s : String) (i : ℤ) → parse s ≡ some i → (pos_part i ≤ 127) × (neg_part i ≤ 128)
parse_range s i e = ground arith

abbrev two_numbers : ParseInt8
two_numbers = record { parse = parse; in_range = parse_range }

-- The second answer cannot be written.
one_answer :
    server_handle_conn (
      (record { idade = 64; tempo_servico = 30 }, true)
      ∷ (record { idade = 1; tempo_servico = 1 }, false)
      ∷ [])
    ≡ true ∷ []
unfolding server_handle_conn pode_aposentar
one_answer = refl

client_round_lem_example : (client_round two_numbers "-1" "20" ≡ can_retire true) ↔ (
    (pos 65 ≤ℤ negsuc 0)
    ⊎ ((pos 30 ≤ℤ pos 20)
        ⊎ (((pos 60 ≤ℤ negsuc 0) × (pos 25 ≤ℤ pos 20))
            ⊎ ((negsuc 0 <ℤ pos 0) ⊎ (pos 20 <ℤ pos 0)))))
client_round_lem_example = client_round_lem two_numbers "-1" "20" (negsuc 0) (pos 20) refl refl
