-- ===== src/Agent/Optimizer.antt =====
-- The cache of models and the choices by hardware of edge_agent/src/agent/optimizer.py: class
-- ResourceOptimizer. A model's path is a number that is only compared. Sizes of memory are tenths of a
-- gigabyte, as HardwareInfo of edge_agent/src/agent/hardware.py rounds them; a load is a number of
-- thousandths. The loader of a model is third-party code: its answer is an argument, none if it raises.
pub mod Cache
pub mod Runs
pub mod Load
mod Tests
use next_sec.Prelude.{
  ℕ, ◌*◌, ◌/◌, min, max, Bool, true, false, Option, none, some, List, [], ◌∷◌, ltb, leb,
  if◌then◌else◌, length,
}
use next_sec.Prelude.Int.{ℤ, pos, negsuc}
use next_sec.Prelude.Dict.{Dict, lookup, insert, erase}

pub data Accelerator : Type 0 where
  cuda rocm mps cpu no_accelerator : Accelerator

pub record HardwareInfo : Type 0 where
  pub cpu_cores : ℕ
  pub ram_gb : ℕ
  pub has_gpu : Bool
  pub gpu_vram_gb : ℕ
  pub accelerator : Accelerator

pub data Device : Type 0 where
  cuda_device mps_device cpu_device : Device

pub record ModelCacheEntry (M : Type 0) : Type 0 where
  pub model_path : ℕ
  pub model : M
  pub imgsz : ℕ
  pub device : Device
  pub last_used : ℕ

pub record ResourceOptimizer (M : Type 0) : Type 0 where
  pub hardware : HardwareInfo
  pub model_cache : Dict (ModelCacheEntry M)
  pub max_cache_size : ℕ
  pub current_load : ℕ
  pub target_fps : ℕ
  pub device : Device
  pub batch_size : ℕ

-- Gigabytes in tenths.
abbrev pub gb : ℕ → ℕ
gb n = n * 10

abbrev pub device_for : Accelerator → Device
device_for cuda = cuda_device
device_for mps = mps_device
device_for rocm = cuda_device
device_for cpu = cpu_device
device_for no_accelerator = cpu_device

abbrev pub select_device : HardwareInfo → Device
select_device h = device_for h.accelerator

unfoldable pub calculate_max_cache_size : HardwareInfo → ℕ
calculate_max_cache_size h =
    if h.has_gpu
    then (if leb (gb 8) h.gpu_vram_gb then 4 else if leb (gb 4) h.gpu_vram_gb then 2 else 1)
    else (if leb (gb 32) h.ram_gb then 6 else if leb (gb 16) h.ram_gb then 4 else 2)

unfoldable pub calculate_batch_size : Device → HardwareInfo → ℕ
calculate_batch_size cuda_device h =
    if leb (gb 8) h.gpu_vram_gb then 8 else if leb (gb 4) h.gpu_vram_gb then 4 else 2
calculate_batch_size mps_device h = 4
calculate_batch_size cpu_device h = min 4 (max 1 (h.cpu_cores / 4))

unfoldable pub new_optimizer : {M : Type 0} → HardwareInfo → ResourceOptimizer M
new_optimizer h = record {
  hardware = h;
  model_cache = [];
  max_cache_size = calculate_max_cache_size h;
  current_load = 0;
  target_fps = 1;
  device = select_device h;
  batch_size = calculate_batch_size (select_device h) h;
}

module _ {M : Type 0} where
  -- `min` of the keys by last use: the first of the smallest. The arguments are the best so far.
  abbrev pub oldest_path : ℕ → ℕ → Dict (ModelCacheEntry M) → ℕ
  oldest_path path used [] = path
  oldest_path path used ((k, e) ∷ d) =
      if ltb e.last_used used then oldest_path k e.last_used d else oldest_path path used d

  abbrev pub evict_cache : Dict (ModelCacheEntry M) → Dict (ModelCacheEntry M)
  evict_cache [] = []
  evict_cache ((k, e) ∷ d) = erase (oldest_path k e.last_used d) ((k, e) ∷ d)

  unfoldable pub evict_lru : ResourceOptimizer M → ResourceOptimizer M
  evict_lru o = record o { model_cache = evict_cache o.model_cache }

  abbrev pub put_entry : ℕ → ModelCacheEntry M → ResourceOptimizer M → ResourceOptimizer M
  put_entry path e o = record o { model_cache = insert path e o.model_cache }

  -- The cache after a model was loaded, or after its loader raised.
  abbrev pub store_loaded : ℕ → Option M → ℕ → ResourceOptimizer M → ResourceOptimizer M × Option M
  store_loaded path none now o = (o, none)
  store_loaded path (some model) now o = (
    put_entry path
        (record {
          model_path = path;
          model = model;
          imgsz = 640;
          device = o.device;
          last_used = now;
        })
        o,
    some model,
  )

  abbrev pub use_entry :
      ℕ
      → Option (ModelCacheEntry M)
      → Option M
      → ℕ
      → ResourceOptimizer M
      → ResourceOptimizer M × Option M
  use_entry path (some e) loaded now o =
      (put_entry path (record e { last_used = now }) o, some e.model)
  use_entry path none loaded now o =
      store_loaded path loaded now
        (if leb o.max_cache_size (length o.model_cache) then evict_lru o else o)

  -- `time.time()` is read once on each path.
  unfoldable pub get_or_load_model :
      ℕ → Option M → ℕ → ResourceOptimizer M → ResourceOptimizer M × Option M
  get_or_load_model path loaded now o = use_entry path (lookup path o.model_cache) loaded now o

  unfoldable pub clear_cache : ResourceOptimizer M → ResourceOptimizer M
  clear_cache o = record o { model_cache = [] }

-- `max(0.0, min(1.0, load))`
abbrev pub clamp_load : ℤ → ℕ
clamp_load (pos n) = min 1000 n
clamp_load (negsuc _) = 0

unfoldable pub calculate_target_fps : ℕ → ℕ
calculate_target_fps load =
    if ltb load 300 then 5 else if ltb load 600 then 3 else if ltb load 800 then 2 else 1

unfoldable pub update_load : {M : Type 0} → ℤ → ResourceOptimizer M → ResourceOptimizer M
update_load load o = record o {
  current_load = clamp_load load;
  target_fps = calculate_target_fps (clamp_load load);
}
