-- ===== src/Scheduler/Examples.antt =====
-- A scheduler of 1000 MB of VRAM and 20000 MB of RAM with a language model in VRAM and an embedding
-- model on disk.
use misaka_asset_gene.Prelude.{ℕ, String, ◌≡◌, refl, true, some, none, List, [], ◌∷◌, arith, err}
use misaka_asset_gene.Prelude.Int.{pos, negsuc, ◌-ℤ◌}
use misaka_asset_gene.Scheduler.{
  RuntimeState, active, warm, cold, ManagedModel, SchedulerBudget, Scheduler, negative_budget, find,
  acquire, demote, tick, try_begin_training, is_training_locked, new_scheduler, new_budget,
  vram_used, ram_used, active_names, free_vram_for, promote, update, write, touch, candidates,
  tick_models, tick_model, tick_found, is_idle_active, is_idle_warm, get,
}
use misaka_asset_gene.Scheduler.Acquire.{IsValid, Acquired, acquire-Acquired}
use misaka_asset_gene.Scheduler.Bounds.{Fits}
use misaka_asset_gene.Scheduler.Valid.{IsIdle}
use misaka_asset_gene.Scheduler.Calls.{
  Call, register_call, acquire_call, tick_call, IsSound, run, run_within_budget,
}
use misaka_asset_gene.Scheduler.Training.{training_exclusive}

abbrev budget : SchedulerBudget
budget = record { vram_budget_mb = 1000; ram_budget_mb = 20000 }

abbrev model : String → RuntimeState → ℕ → ManagedModel
model n st used = record {
  name = n;
  vram_mb = 600;
  ram_mb = 700;
  idle_offload_sec = pos 300;
  cold_offload_sec = pos 1800;
  state = st;
  last_used_at = pos used;
}

abbrev loaded : Scheduler
loaded = record {
  budget = budget;
  clock = pos;
  reads = 10;
  models = model "llm" active 5 ∷ model "embed" cold 0 ∷ [];
  transitions = [];
  training_lock_holder = none;
}

loaded-IsValid : IsValid loaded
loaded-IsValid = record {
  distinct = ((refl, tt), (tt, tt));
  sized = (omega arith, (omega arith, tt));
}

-- The second model takes the first one's place, and that one stays warm.
swapped : (acquire "embed" loaded).1.models ≡ model "llm" warm 5 ∷ model "embed" active 12 ∷ []
unfolding acquire demote free_vram_for promote find update write touch candidates vram_used ram_used
swapped = refl

acquire-Acquired_example : Acquired "embed" loaded (acquire "embed" loaded)
acquire-Acquired_example =
    acquire-Acquired "embed" loaded (model "embed" cold 0) loaded-IsValid refl (unfold find in refl)

abbrev calls : List Call
calls =
    register_call (model "llm" cold 0)
    ∷ register_call (model "embed" cold 0)
    ∷ acquire_call "llm"
    ∷ acquire_call "embed"
    ∷ tick_call (some (pos 900))
    ∷ []

run_within_budget_example : Fits (run calls (new_scheduler budget pos))
run_within_budget_example = run_within_budget budget pos calls (refl, (refl, (tt, (tt, (tt, tt)))))

abbrev idle : Scheduler
idle = record loaded { models = model "llm" warm 5 ∷ model "embed" cold 0 ∷ [] }

idle-IsSound : IsSound idle
unfolding vram_used ram_used
idle-IsSound = record {
  valid = record { distinct = ((refl, tt), (tt, tt)); sized = (omega arith, (omega arith, tt)) };
  fits = record { vram_fits = omega arith; ram_fits = omega arith };
}

training_exclusive_example :
    (is_training_locked (run (acquire_call "llm" ∷ []) (try_begin_training "job" idle).1) ≡ true)
    × IsIdle (run (acquire_call "llm" ∷ []) (try_begin_training "job" idle).1)
training_exclusive_example =
    training_exclusive "job" idle (acquire_call "llm" ∷ []) idle-IsSound
      (unfold try_begin_training active_names in refl) (tt, tt) (tt, tt)

-- Five minutes later the language model has left VRAM, two minutes later it has not.
tick_demotes :
    (tick (some (pos 305)) loaded).1.models ≡ model "llm" warm 5 ∷ model "embed" cold 0 ∷ []
unfolding tick tick_models tick_model tick_found is_idle_active is_idle_warm get demote find update
    write ram_used ◌-ℤ◌
tick_demotes = refl

rejects_negative : new_budget (negsuc 0) (pos 1) ≡ err negative_budget
unfolding new_budget
rejects_negative = refl
