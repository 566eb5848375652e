-- ===== src/Stats/Tests.antt =====
-- The statistics on small inputs.
use rpcframe.Prelude.{ℕ, ◌≡◌, refl, ◌≤◌, List, [], ◌∷◌, arith}
use rpcframe.Stats.{no_stats, calc_call_time}
use rpcframe.Stats.Laws.{calls, calls_lem, AreMeans}

abbrev samples : List ℕ
samples = 10 ∷ 20 ∷ 60 ∷ []

calls-samples : (calls samples no_stats).avg_call_time ≡ 30
unfolding calls calc_call_time
calls-samples = refl

calls_lem_example :
    AreMeans 0 0 samples (calls samples no_stats).avg_call_time
    × ((calls samples no_stats).avg_call_time ≤ 60)
    × ((calls samples no_stats).max_call_time ≡ 60)
    × ((calls samples no_stats).total_call_num ≡ 3)
calls_lem_example =
    calls_lem samples no_stats 60 (omega arith) (omega arith) (omega arith) (omega arith)
      (omega arith)
