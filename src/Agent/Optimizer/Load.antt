-- ===== src/Agent/Optimizer/Load.antt =====
-- The target rate of edge_agent/src/agent/optimizer.py under load.
use next_sec.Prelude.{◌≤◌, arith}
use next_sec.Prelude.Int.{ℤ, pos, negsuc, ◌≤ℤ◌}
use next_sec.Agent.Optimizer.{ResourceOptimizer, calculate_target_fps, update_load}

-- Whatever load is reported, the target rate is between 1 and 5 frames a second, and a higher load
-- never gives a higher rate.
pub update_load-target_fps :
    {M : Type 0} (load load' : ℤ) (o : ResourceOptimizer M)
    → load ≤ℤ load'
    → (1 ≤ (update_load load o).target_fps)
      × ((update_load load o).target_fps ≤ 5)
      × ((update_load load' o).target_fps ≤ (update_load load o).target_fps)
      × ((update_load load o).current_load ≤ 1000)
unfolding update_load calculate_target_fps
update_load-target_fps (pos n) (pos n') o h =
    (ground arith, ground arith, ground arith, omega arith)
update_load-target_fps (pos n) (negsuc n') o h = absurd (omega arith)
update_load-target_fps (negsuc n) (pos n') o h =
    (ground arith, ground arith, ground arith, omega arith)
update_load-target_fps (negsuc n) (negsuc n') o h =
    (ground arith, ground arith, ground arith, omega arith)
