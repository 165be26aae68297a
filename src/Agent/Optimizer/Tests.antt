-- ===== src/Agent/Optimizer/Tests.antt =====
-- Runs of ResourceOptimizer of edge_agent/src/agent/optimizer.py.
use next_sec.Prelude.{ℕ, ◌≡◌, refl, false, some, List, [], ◌∷◌}
use next_sec.Prelude.Int.{pos}
use next_sec.Prelude.Dict.{keys}
use next_sec.Agent.Optimizer.{
  Accelerator, Device, HardwareInfo, ModelCacheEntry, calculate_max_cache_size, evict_lru,
  get_or_load_model, new_optimizer, update_load,
}
use next_sec.Agent.Optimizer.Runs.{OptimizerCall, run_calls}

-- A small machine: two slots.
abbrev laptop : HardwareInfo
laptop = record {
  cpu_cores = 8;
  ram_gb = 80;
  has_gpu = false;
  gpu_vram_gb = 0;
  accelerator = Accelerator.cpu;
}

-- Model 1 is used again before model 3 comes, so model 2 goes; then a loader raises.
abbrev calls : List (OptimizerCall ℕ)
calls =
    OptimizerCall.loads 1 (some 11) 10
    ∷ OptimizerCall.loads 2 (some 22) 20
    ∷ OptimizerCall.loads 1 (some 99) 30
    ∷ OptimizerCall.reports (pos 700)
    ∷ OptimizerCall.loads 3 (some 33) 40
    ∷ []

keys-run_calls : keys (run_calls calls (new_optimizer laptop)).model_cache ≡ 1 ∷ 3 ∷ []
unfolding get_or_load_model new_optimizer calculate_max_cache_size evict_lru update_load
keys-run_calls = refl

abbrev entry : ℕ → ℕ → ModelCacheEntry ℕ
entry path used = record {
  model_path = path;
  model = path;
  imgsz = 640;
  device = Device.cpu_device;
  last_used = used;
}
