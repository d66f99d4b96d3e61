-- ===== src/RicartAgrawala/System/Stepping.antt =====
-- The invariant after a step of one process.
use mathlib.Core.Path.{subst}
use grupo.Prelude.{ℕ, ◌<◌, String, Bool, true, false, ◌≡◌, refl, arith, ◌==◌, if◌then◌else◌}
use grupo.Prelude.Int.{ℤ}
use grupo.RicartAgrawala.System.{Node, System, set}
use grupo.RicartAgrawala.System.Invariant.{Seen, Fixed, Local, Row, Pair, Inv}
use grupo.RicartAgrawala.System.Quiet.{Kept}

-- A split on a test that stands in the statement.
pub by_test {ℓ} : (M : Bool → Type ℓ) (c : Bool) → (c ≡ true → M true) → (c ≡ false → M false) → M c
by_test M true f g = f refl
by_test M false f g = g refl

-- The messages counted, when those of one process change.
abbrev pub recount : (ℕ → ℕ → Seen) → ℕ → (ℕ → Seen) → ℕ → ℕ → Seen
recount got a g k = if a == k then g else got k

module _ (n : ℕ) (addr : ℕ → String) (ids : ℕ → ℤ) (chan : ℕ → ℕ → ℕ) (a : ℕ) (s : System)
    (got : ℕ → ℕ → Seen) (x : Node) (g : ℕ → Seen) where
  -- The step of `a` keeps what it has to keep, and nobody else moves.
  pub set-Inv :
      a < n
      → Inv n addr ids chan s got
      → Kept n addr ids chan a (s a) x (got a) g
      → Inv n addr ids chan (set s a x) (recount got a g)
  set-Inv lt inv kept = record {
    fixed = λ k hk.
        by_test (λ c. Fixed n addr ids chan k (if c then x else s k).process) (a == k)
          (λ e. subst (λ u. Fixed n addr ids chan u x.process) (ground arith) kept.fixed)
          (λ e. inv.fixed k hk);
    local = λ k hk.
        by_test (λ c. Local n addr ids chan (if c then x else s k)) (a == k) (λ e. kept.local)
          (λ e. inv.local k hk);
    row = λ k hk.
        by_test (λ c. Row n addr ids chan k (if c then x else s k) (if c then g else got k))
          (a == k) (λ e. subst (λ u. Row n addr ids chan u x g) (ground arith) kept.row)
          (λ e. inv.row k hk);
    pair = λ k l hk hl ne.
        by_test
          (λ c.
            Pair n addr ids chan k l (if c then x else s k) (set s a x l)
              ((if c then g else got k) l))
          (a == k)
          (λ e.
            by_test (λ d. Pair n addr ids chan k l x (if d then x else s l) (g l)) (a == l)
              (λ f. absurd (ground arith))
              (λ f.
                subst (λ u. Pair n addr ids chan u l x (s l) (g l)) (ground arith)
                  (kept.asker l (s l) hl (ground arith) (inv.pair a l lt hl (ground arith)))))
          (λ e.
            by_test (λ d. Pair n addr ids chan k l (s k) (if d then x else s l) (got k l)) (a == l)
              (λ f.
                subst (λ u. Pair n addr ids chan k u (s k) x (got k u)) (ground arith)
                  (kept.answerer k (s k) (got k a) hk (ground arith)
                    (inv.pair k a hk lt (ground arith))))
              (λ f. inv.pair k l hk hl ne));
  }
