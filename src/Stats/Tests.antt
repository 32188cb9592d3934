-- ===== src/Stats/Tests.antt =====
-- Two measurements.
use cs739_distributed_system.Base.{[], ◌∷◌, arith}
use cs739_distributed_system.Stats.{samples, fresh}
use cs739_distributed_system.Stats.Laws.{Summary, samples-Summary}

samples-Summary_example : Summary (samples fresh (30 ∷ 20 ∷ [])) (30 ∷ 20 ∷ [])
samples-Summary_example = samples-Summary 30 (20 ∷ []) (omega arith)
