-- ===== src/RicartAgrawala/Shared/Runs.antt =====
-- What the theorems on the system say of runs with the lock.
use mathlib.Core.Path.{subst}
use grupo.Prelude.{ℕ, inl, inr, sym}
use grupo.RicartAgrawala.Process.{Process}
use grupo.RicartAgrawala.System
use grupo.RicartAgrawala.System.{System, Reach, HaveRoom}
use grupo.RicartAgrawala.Shared.{Shared, settled, LockedReach, here, next, quiet}
use grupo.RicartAgrawala.Shared.Settled.{Step-settled}
use grupo.RicartAgrawala.Shared.Atomic.{settled-quiet}

settled-Reach : (n : ℕ) (s t : Shared) → LockedReach n s t → Reach n (settled s) (settled t)
settled-Reach n s t here = System.here
settled-Reach n s t (next {t = u} run room step locked) =
    let before = settled-Reach n s u run in
    elim (Step-settled n u t step locked) [
      | inl moved ↦ System.next before room moved
      | inr same ↦ subst (Reach n (settled s)) (sym same) before
    ]

pub quiet-Reach :
    (n : ℕ) (s : System) (t : Shared) → LockedReach n (quiet s) t → Reach n s (settled t)
quiet-Reach n s t run =
    subst (λ (x : System). Reach n x (settled t)) (settled-quiet s)
      (settled-Reach n (quiet s) t run)
