-- ===== src/Scheduler/Report.antt =====
-- What `tick` returns: its own part of the log.
use misaka_asset_gene.Prelude.{String, ◌≡◌, refl, ◌∙◌, ap, some, List, [], ◌∷◌, ◌++◌, length, ok}
use misaka_asset_gene.Prelude.Int.{ℤ}
use misaka_asset_gene.Scheduler.{ManagedModel, TransitionEvent, Scheduler, find, tick, drop}
use misaka_asset_gene.Scheduler.Candidates.{Distinct}
use misaka_asset_gene.Scheduler.Valid.{tick-Moves}
use misaka_asset_gene.Scheduler.Tick.{tick_result}
use misaka_asset_gene.Scheduler.Log.{Logged, Moves-Logged}

drop-append : (xs ys : List TransitionEvent) → drop (length xs) (xs ++ ys) ≡ ys
drop-append [] ys = refl
drop-append (x ∷ xs) ys = drop-append xs ys

-- `tick` at a given time returns exactly the events that it appends to the log; these start from the
-- state that a registered model had, form a chain of real changes, and replay to its new state.
pub tick_reports :
    (now : ℤ) (s : Scheduler) (k : String) (m : ManagedModel)
    → Distinct s.models
    → find k s.models ≡ some m
    → (es : List TransitionEvent) × ((tick (some now) s).0 ≡ ok es)
      × Logged s (tick (some now) s).1 k m.state es
tick_reports now s k m d h =
    let (es, l) = Moves-Logged k m (tick-Moves (some now) s) h in
    (
      es,
      tick_result now s d
          ∙ ap ok (ap (drop (length s.transitions)) l.appended ∙ drop-append s.transitions es),
      l,
    )
