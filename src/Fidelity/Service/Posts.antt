-- ===== src/Fidelity/Service/Posts.antt =====
-- What the calls of the service keep: the row of a loop stays in the table.
use misaka_asset_gene.Prelude.{
  ℕ, String, ◌≡◌, inl, inr, Bool-cases, Option, some, any, str_eq, List, Result, ok, err,
}
use misaka_asset_gene.Prelude.Raising.{Keeps}
use misaka_asset_gene.Fidelity.{CheckResult}
use misaka_asset_gene.Fidelity.Store.{Loop, get_loop, append_round}
use misaka_asset_gene.Fidelity.Store.Claims.{get_loop-save_loop}
use misaka_asset_gene.Fidelity.Service.{
  World, ServiceError, Svc, asked, stored, saved, handled, on_error, failed_loop,
}

-- The loop has a row.
abbrev pub Present : Loop → World → Type 0
Present l w = (row : Loop) × (get_loop l.project_id l.id w.store ≡ some row)

pub Keeps-asked : {A : Type 0} (l : Loop) (f : ℕ → Result String A) → Keeps (Present l) (asked f)
unfolding asked
Keeps-asked l f = record { kept = λ w p. p }

pub saved-Present : (l : Loop) (w : World) → Present l w → Present l (saved l w).1
unfolding saved stored
saved-Present l w (row, p) = (_, get_loop-save_loop l row w.store p)

handled-Present :
    {A : Type 0} (l : Loop) (r : Result ServiceError A × World)
    → Present l r.1
    → Present l (handled l r).1
unfolding handled
handled-Present l (ok a, w) p = p
handled-Present l (err e, w) p = saved-Present (failed_loop l e) w p

pub Keeps-on_error :
    {A : Type 0} (l : Loop) (m : Svc A) → Keeps (Present l) m → Keeps (Present l) (on_error l m)
unfolding on_error
Keeps-on_error l m k = record { kept = λ w p. handled-Present l (m w) (k.kept w p) }

pub Keeps-append_round :
    (l : Loop) (new_id loop_id asset : String) (k passes fails : ℕ) (results : List CheckResult)
    (mask job : Option String)
    → Keeps (Present l) (stored (append_round new_id loop_id k asset results passes fails mask job))
unfolding stored append_round get_loop
Keeps-append_round l new_id loop_id asset k passes fails results mask job = record {
  kept = λ w p. elim (Bool-cases (any (λ q. str_eq q.id new_id) w.store.rounds)) [
    | inl e ↦ rw e p
    | inr e ↦ rw e p
  ];
}
