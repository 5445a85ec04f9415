-- ===== src/Interp/Returns/Rounds.antt =====
-- The loop `run`: its bound on the number of rounds.
use cs_562_jvm.Interp.Returns.{run, ok, Handler, run_round, pure}
use cs_562_jvm.Base.{ℕ, Option, ◌≡◌, List, ◌≤◌, suc, some, arith, none, zero}
use cs_562_jvm.Machine.{Machine, M, Run, and_then, fault}

-- what `run` does behind a round, with `rest` for the rounds that follow
continue : M ℕ → Option ℕ → M ℕ
continue rest done = elim done [ none ↦ rest | some r ↦ pure r ]

-- one round more leaves a result as it is, if it leaves the results of the rest as they are
continue-more :
    (rest rest' : M ℕ)
    → ((m m' : Machine) (r : ℕ) → rest m ≡ ok r m' → rest' m ≡ ok r m')
    → (x : Run (Option ℕ)) (m' : Machine) (r : ℕ) → and_then x (continue rest) ≡ ok r m'
    → and_then x (continue rest') ≡ ok r m'
unfolding continue
continue-more rest rest' more fault m' r e = e
continue-more rest rest' more (ok none m) m' r e = more m m' r e
continue-more rest rest' more (ok (some v) m) m' r e = e

-- When `run` ends within some number of rounds, it ends with the same result and the same machine for
-- every larger bound: the bound decides only whether it ends.
pub run_more :
    (save_point : M (Unit {0})) (table : List Handler) (n n' : ℕ) (m m' : Machine) (r : ℕ)
    → n ≤ n'
    → run n save_point table m ≡ ok r m'
    → run n' save_point table m ≡ ok r m'
unfolding run continue
run_more save_point table zero n' m m' r le e = absurd (cc)
run_more save_point table (suc n) zero m m' r le e = absurd (omega arith)
run_more save_point table (suc n) (suc n') m m' r le e =
    continue-more (run n save_point table) (run n' save_point table)
      (λ k k' v. run_more save_point table n n' k k' v (omega arith)) (run_round save_point table m)
      m' r e
