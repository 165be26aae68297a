-- ===== src/Agent/Optimizer/Runs.antt =====
-- Rows of calls of ResourceOptimizer in edge_agent/src/agent/optimizer.py.
use next_sec.Prelude.{
  ℕ, ◌+◌, ◌≤◌, ◌≡◌, refl, ap, ◌∙◌, Bool, true, false, Option, none, some, List, [], ◌∷◌, arith, inl,
  inr, Option-cases, leb, leb→le, ==_refl, if◌then◌else◌, length,
}
use next_sec.Prelude.Int.{ℤ}
use next_sec.Prelude.Dict.{
  Dict, lookup, insert, IsDict, insert-IsDict, length-insert_new, length-insert_old, lookup-insert,
}
use next_sec.Agent.Optimizer.{
  HardwareInfo, ModelCacheEntry, ResourceOptimizer, calculate_max_cache_size, new_optimizer,
  evict_cache, evict_lru, put_entry, store_loaded, use_entry, get_or_load_model, clear_cache,
  update_load,
}
use next_sec.Agent.Optimizer.Cache.{length-evict_cache}

pub data OptimizerCall (M : Type 0) : Type 0 where
  loads : ℕ → Option M → ℕ → OptimizerCall M
  reports : ℤ → OptimizerCall M
  clears : OptimizerCall M

module _ {M : Type 0} where
  abbrev pub run_call : OptimizerCall M → ResourceOptimizer M → ResourceOptimizer M
  run_call (loads path loaded now) o = (get_or_load_model path loaded now o).0
  run_call (reports load) o = update_load load o
  run_call clears o = clear_cache o

  abbrev pub run_calls : List (OptimizerCall M) → ResourceOptimizer M → ResourceOptimizer M
  run_calls [] o = o
  run_calls (c ∷ cs) o = run_calls cs (run_call c o)

  -- The cache fits in its slots, of which there are one to six, and has one entry to a path.
  pub record FitsSlots (o : ResourceOptimizer M) : Type 0 where
    pub within : length o.model_cache ≤ o.max_cache_size
    pub one_slot : 1 ≤ o.max_cache_size
    pub six_slots : o.max_cache_size ≤ 6
    pub distinct : IsDict o.model_cache

  -- A cache that is put in place of another and fits.
  refit :
      (o : ResourceOptimizer M) (d : Dict (ModelCacheEntry M))
      → FitsSlots o
      → length d ≤ o.max_cache_size
      → IsDict d
      → FitsSlots (record o { model_cache = d })
  refit o d h n k = record {
    within = n;
    one_slot = h.one_slot;
    six_slots = h.six_slots;
    distinct = k;
  }

  length-insert-le :
      (path : ℕ) (e : ModelCacheEntry M) (d : Dict (ModelCacheEntry M))
      → length (insert path e d) ≤ length d + 1
  length-insert-le path e d = elim (Option-cases (lookup path d)) [
    | inl new ↦ omega (arith, length-insert_new path e d new)
    | inr (x, old) ↦ omega (arith, length-insert_old path e x d old)
  ]

  -- The miss, after the test for room: there is room for one more entry.
  miss-FitsSlots :
      (path : ℕ) (loaded : Option M) (now : ℕ) (o : ResourceOptimizer M)
      → FitsSlots o
      → length o.model_cache + 1 ≤ o.max_cache_size
      → FitsSlots (store_loaded path loaded now o).0
  miss-FitsSlots path none now o h room = h
  miss-FitsSlots path (some model) now o h room =
      refit o _ h
        (omega (
          arith,
          length-insert-le path
              (record {
                model_path = path;
                model = model;
                imgsz = 640;
                device = o.device;
                last_used = now;
              })
              o.model_cache,
        ))
        (insert-IsDict path _ o.model_cache h.distinct)

  load-FitsSlots :
      (path : ℕ) (loaded : Option M) (now : ℕ) (o : ResourceOptimizer M)
      (held : Option (ModelCacheEntry M))
      → lookup path o.model_cache ≡ held
      → FitsSlots o
      → FitsSlots (use_entry path held loaded now o).0
  unfolding evict_lru
  load-FitsSlots path loaded now o (some e) p h =
      refit o _ h
        (omega (
          arith,
          h.within,
          length-insert_old path (record e { last_used = now }) e o.model_cache p,
        ))
        (insert-IsDict path _ o.model_cache h.distinct)
  load-FitsSlots path loaded now o none p h =
      with_room (leb o.max_cache_size (length o.model_cache)) refl
    where
      with_room :
          (full : Bool)
          → leb o.max_cache_size (length o.model_cache) ≡ full
          → FitsSlots (store_loaded path loaded now (if full then evict_lru o else o)).0
      with_room true q =
          let full = leb→le o.max_cache_size (length o.model_cache) q in
          let (distinct, one_less) =
            length-evict_cache o.model_cache h.distinct (omega (arith, full, h.one_slot)) in
          miss-FitsSlots path loaded now (record o { model_cache = evict_cache o.model_cache })
            (refit o _ h (omega (arith, one_less, h.within)) distinct)
            (omega (arith, one_less, h.within))
      with_room false q = miss-FitsSlots path loaded now o h (ground arith)

  run_call-FitsSlots :
      (c : OptimizerCall M) (o : ResourceOptimizer M) → FitsSlots o → FitsSlots (run_call c o)
  unfolding get_or_load_model clear_cache update_load
  run_call-FitsSlots (loads path loaded now) o h =
      load-FitsSlots path loaded now o (lookup path o.model_cache) refl h
  run_call-FitsSlots (reports load) o h = record {
    within = h.within;
    one_slot = h.one_slot;
    six_slots = h.six_slots;
    distinct = h.distinct;
  }
  run_call-FitsSlots clears o h = refit o [] h (omega arith) tt

  FitsSlots-run_calls :
      (cs : List (OptimizerCall M)) (o : ResourceOptimizer M)
      → FitsSlots o
      → FitsSlots (run_calls cs o)
  FitsSlots-run_calls [] o h = h
  FitsSlots-run_calls (c ∷ cs) o h =
      FitsSlots-run_calls cs (run_call c o) (run_call-FitsSlots c o h)

  -- On any machine and after any calls, those whose loader raises included, the cache of models fits
  -- in its slots, of which there are one to six, and holds each model once.
  pub run_calls-FitsSlots :
      (h : HardwareInfo) (cs : List (OptimizerCall M)) → FitsSlots (run_calls cs (new_optimizer h))
  unfolding new_optimizer calculate_max_cache_size
  run_calls-FitsSlots h cs = FitsSlots-run_calls cs (new_optimizer h) (record {
    within = omega arith;
    one_slot = ground arith;
    six_slots = ground arith;
    distinct = tt;
  })

  entry_again :
      (path : ℕ) (loaded : Option M) (now : ℕ) (e : ModelCacheEntry M) (o : ResourceOptimizer M)
      → (get_or_load_model path loaded now (put_entry path e o)).1 ≡ some e.model
  unfolding get_or_load_model
  entry_again path loaded now e o =
      let here : lookup path (insert path e o.model_cache) ≡ some e =
        rw (lookup-insert path path e o.model_cache, ==_refl path) refl in
      ap (λ h. (use_entry path h loaded now (put_entry path e o)).1) here

  stored_again :
      (path : ℕ) (loaded loaded' : Option M) (now now' : ℕ) (o : ResourceOptimizer M) (model : M)
      → (store_loaded path loaded now o).1 ≡ some model
      → (get_or_load_model path loaded' now' (store_loaded path loaded now o).0).1 ≡ some model
  stored_again path none loaded' now now' o model p = cc
  stored_again path (some m) loaded' now now' o model p = entry_again path loaded' now' _ o ∙ p

  used_again :
      (path : ℕ) (held : Option (ModelCacheEntry M)) (loaded loaded' : Option M) (now now' : ℕ)
      (o : ResourceOptimizer M) (model : M)
      → (use_entry path held loaded now o).1 ≡ some model
      → (get_or_load_model path loaded' now' (use_entry path held loaded now o).0).1 ≡ some model
  used_again path (some e) loaded loaded' now now' o model p = entry_again path loaded' now' _ o ∙ p
  used_again path none loaded loaded' now now' o model p =
      stored_again path loaded loaded' now now' _ model p

  -- A model that was obtained once is obtained again from the cache: the next call for its path gives
  -- the same model whatever its loader would answer.
  pub get_or_load_model-again :
      (path : ℕ) (loaded loaded' : Option M) (now now' : ℕ) (o : ResourceOptimizer M) (model : M)
      → (get_or_load_model path loaded now o).1 ≡ some model
      → (get_or_load_model path loaded' now' (get_or_load_model path loaded now o).0).1 ≡ some model
  unfolding get_or_load_model
  get_or_load_model-again path loaded loaded' now now' o model p =
      used_again path (lookup path o.model_cache) loaded loaded' now now' o model p
