-- ===== src/RicartAgrawala/System/StartUp.antt =====
-- What startProcess leaves behind.
use grupo.Prelude.{
  ℕ, ◌<◌, String, true, ◌≡◌, refl, sym, ◌∙◌, List, [], ◌∷◌, arith, str_eq, eq_iff, contains, length,
}
use grupo.Prelude.Int.{ℤ}
use grupo.RicartAgrawala.Utils.{released}
use grupo.RicartAgrawala.Process.{
  Process, update_timestamp, change_state, get_index_from_address, open_all_connections,
  start_process, new_process,
}
use grupo.RicartAgrawala.Process.Addresses.{open_all_connections-has, open_all_connections-apart}
use grupo.RicartAgrawala.System.{opened, System}
use grupo.RicartAgrawala.System.Tally.{tally}
use grupo.RicartAgrawala.System.Invariant.{Fixed}

tally-contains :
    (a : String) (bs : List String) → tally (λ b. str_eq b a) bs ≡ 1 → contains a bs ≡ true
unfolding contains tally
tally-contains a [] h = absurd (ground arith)
tally-contains a (b ∷ bs) h = ground (arith, tally-contains a bs, eq_iff a b, eq_iff b a)

-- `lists i` is the register server's reply to process `i`.
module _ (n : ℕ) (addr : ℕ → String) (ids : ℕ → ℤ) (lists : ℕ → List String) where
  -- The replies list every address of the group once and no other, each in an order of its own.
  pub record Listed : Type 0 where
    pub members : (i : ℕ) → i < n → length (lists i) ≡ n
    pub once : (i j : ℕ) → i < n → j < n → tally (λ b. str_eq b (addr j)) (lists i) ≡ 1

  abbrev pub started : ℕ → Process
  started i = start_process (lists i) (new_process (ids i) (addr i))

  -- The channel that process `i` opens to the address of process `j`.
  abbrev pub channel : ℕ → ℕ → ℕ
  channel i j = get_index_from_address (addr j) (started i)

  -- Every process has come to the end of startProcess.
  abbrev pub start : System
  start i = record { process = started i; phase = opened }

  -- When the register server's reply lists every address of the group once and no other, in any order,
  -- startProcess leaves the process with its own address and id and all the group's members, with a
  -- channel to every address that it knows, and different channels for different addresses.
  pub start_process-Fixed : Listed → (i : ℕ) → i < n → Fixed n addr ids channel i (started i)
  unfolding start_process new_process open_all_connections change_state update_timestamp
  start_process-Fixed l i hi =
      let p : Process = record (change_state released (new_process (ids i) (addr i))) {
        processes_addresses = lists i;
      } in
      let listed : (j : ℕ) → j < n → contains (addr j) (lists i) ≡ true =
        λ j hj. tally-contains (addr j) (lists i) (l.once i j hi hj) in
      record {
        address = refl;
        id = refl;
        members = l.members i hi;
        listed = λ j hj. l.once i j hi hj;
        known = λ a h. open_all_connections-has p a refl ∙ h;
        reached = λ j hj. open_all_connections-has p (addr j) refl ∙ listed j hj;
        wired = λ a j hj h.
            open_all_connections-apart p a (addr j) (sym (open_all_connections-has p a refl) ∙ h)
              (listed j hj);
      }
