-- ===== src/Fidelity/Service/Auto.antt =====
-- `_run_auto_continue`: the rounds end by themselves, and never by the guard on their number.
use misaka_asset_gene.Prelude.{
  ℕ, zero, suc, ◌+◌, ◌<◌, ◌≡◌, refl, inl, inr, ◌⊎◌, true, false, some, List, arith, Bool-cases,
}
use misaka_asset_gene.Prelude.Int.{◌≤ℤ◌}
use misaka_asset_gene.Prelude.Raising.{Holds, Holds-map, Ensures-then}
use misaka_asset_gene.Fidelity.{passed_all}
use misaka_asset_gene.Fidelity.Planning.{FidelityCheck}
use misaka_asset_gene.Fidelity.Store.{Loop, get_loop}
use misaka_asset_gene.Fidelity.Service.{
  Io, World, is_awaiting, run_refine_round, auto_rounds, run_auto_continue,
}
use misaka_asset_gene.Fidelity.Service.Rounds.{
  View, view, RoundStep, passes, improves, reverts, ends, Rounded, run_refine_round-Rounded,
}

-- A run of the life cycle.
pub data Life (max : ℕ) : View → View → Type 0 where
  here : {v : View} → Life max v v
  next : {v u x : View} → RoundStep max v u → Life max u x → Life max v x

-- Only a round with rounds left after it makes the loop wait for another one.
step_ready :
    {max : ℕ} {v u : View}
    → RoundStep max v u
    → is_awaiting u.status ≡ true
    → (u.round ≡ suc v.round) × (u.round < max)
unfolding is_awaiting
step_ready (passes a n) h = ground (arith, h)
step_ready (improves st a n b f) h = (refl, ground (arith, h, f))
step_ready (reverts st n b f) h = (refl, ground (arith, h, f))
step_ready (ends st e) h = ground (arith, h, e)

step_best :
    {max : ℕ} {v u : View}
    → RoundStep max v u
    → (u.status ≡ passed_all) ⊎ (v.best_pass_count ≤ℤ u.best_pass_count)
step_best (passes a n) = inl refl
step_best (improves st a n b f) = inr b
step_best (reverts st n b f) = inr (omega arith)
step_best (ends st e) = inr (omega arith)

-- The table holds the loop as the object shows it.
abbrev pub Shown : Loop → World → Type 0
Shown l w = (row : Loop) × (get_loop l.project_id l.id w.store ≡ some row) × (view row ≡ view l)

-- The loop has stopped, by steps of its life cycle, and the table holds it as it is returned.
pub record Finished (l l' : Loop) (w : World) : Type 0 where
  pub stopped : is_awaiting l'.status ≡ false
  pub life : Life l.max_rounds (view l) (view l')
  pub row : Loop
  pub stored_row : get_loop l.project_id l.id w.store ≡ some row
  pub stored_view : view row ≡ view l'

module _ (io : Io) where
  after_round :
      (l l' l'' : Loop) (w' w'' : World)
      → Rounded l l' w'
      → Finished l' l'' w''
      → Finished l l'' w''
  after_round l l' l'' w' w'' r f = record {
    stopped = f.stopped;
    life = next r.step (rw r.same_max at f.life);
    row = f.row;
    stored_row = rw (r.same_id, r.same_project) at f.stored_row;
    stored_view = f.stored_view;
  }

  stop : (l : Loop) (w : World) → is_awaiting l.status ≡ false → Shown l w → Finished l l w
  stop l w e (row, p, v) = record {
    stopped = e;
    life = here;
    row = row;
    stored_row = p;
    stored_view = v;
  }

  auto_rounds-Finished :
      (n : ℕ) (l : Loop) (checks : List FidelityCheck) (w : World)
      → (is_awaiting l.status ≡ true
          → (l.current_round < l.max_rounds) × (l.max_rounds < n + l.current_round))
      → Shown l w
      → Holds (Finished l) (auto_rounds io n l checks w)
  unfolding auto_rounds
  auto_rounds-Finished zero l checks w h q = elim (Bool-cases (is_awaiting l.status)) [
    | inl e ↦ absurd (omega (arith, h e))
    | inr e ↦ stop l w e q
  ]
  auto_rounds-Finished (suc n) l checks w h (row, p, v) = elim (Bool-cases (is_awaiting l.status)) [
    | inl e ↦ rw e (
        (Ensures-then (Rounded l) {P = Finished l} (run_refine_round io l checks)
            (λ l'. auto_rounds io n l' checks) (run_refine_round-Rounded io l checks)
            λ l' w' r.
              Holds-map (Finished l') (Finished l) (auto_rounds io n l' checks w')
                (λ l'' w'' f. after_round l l' l'' w' w'' r f)
                (auto_rounds-Finished n l' checks w' (left_over l l' w' r (h e))
                  (shown l l' w' r))).ensured
          w (row, p))
    | inr e ↦ rw e (stop l w e (row, p, v))
  ]
    where
      left_over :
          (l l' : Loop) (w' : World)
          → Rounded l l' w'
          → (l.current_round < l.max_rounds) × (l.max_rounds < suc n + l.current_round)
          → is_awaiting l'.status ≡ true
          → (l'.current_round < l'.max_rounds) × (l'.max_rounds < n + l'.current_round)
      left_over l l' w' r b e = let s = step_ready r.step e in omega (arith, s, r.same_max)

      shown : (l l' : Loop) (w' : World) → Rounded l l' w' → Shown l' w'
      shown l l' w' r = (r.row, (rw (r.same_id, r.same_project) r.stored_row), r.stored_view)

  -- An automatic run that returns has stopped: by steps of the life cycle, and before the guard on the
  -- number of rounds, given that a loop that waits has rounds left.
  pub run_auto_continue-Finished :
      (l : Loop) (checks : List FidelityCheck) (w : World)
      → (is_awaiting l.status ≡ true → l.current_round < l.max_rounds)
      → Shown l w
      → Holds (Finished l) (run_auto_continue io l checks w)
  unfolding run_auto_continue
  run_auto_continue-Finished l checks w h q =
      auto_rounds-Finished (suc l.max_rounds) l checks w (λ e. (h e, omega arith)) q
