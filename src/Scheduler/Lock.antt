-- ===== src/Scheduler/Lock.antt =====
-- What the training lock does to single calls: a lock that is held, and one that is given back.
use misaka_asset_gene.Prelude.{String, ◌≡◌, refl, none, some, err, ok}
use misaka_asset_gene.Scheduler.{Scheduler, training_in_progress, acquire, end_training}

abbrev pub lock : String → Scheduler → Scheduler
lock k s = record s { training_lock_holder = some k }

pub acquire_locked :
    (name k : String) (s : Scheduler)
    → acquire name (lock k s) ≡ (err (training_in_progress k name), lock k s)
unfolding acquire
acquire_locked name k s = refl

pub end_training_frees :
    (s : Scheduler) → end_training s ≡ (ok tt, record s { training_lock_holder = none })
unfolding end_training
end_training_frees s = refl
