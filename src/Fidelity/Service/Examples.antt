-- ===== src/Fidelity/Service/Examples.antt =====
-- Runs of the sample loop.
use misaka_asset_gene.Stream.{Until}
use misaka_asset_gene.Prelude.Int.{pos}
use misaka_asset_gene.Fidelity.Service.Progress.{polled, same_signature}
use misaka_asset_gene.Prelude.{
  if◌then◌else◌, ◌==◌, ◌∷◌, ℕ, zero, suc, ◌≡◌, refl, ap, true, [], arith,
}
use misaka_asset_gene.Prelude.Raising.{Ensures, Returns}
use misaka_asset_gene.Fidelity.{passed_all}
use misaka_asset_gene.Fidelity.Store.{
  Loop, FidelityStore, latest_round, best_round, get_loop, find_loop,
}
use misaka_asset_gene.Fidelity.Service.{is_terminal, run_refine_round, run_auto_continue}
use misaka_asset_gene.Fidelity.Service.Posts.{Present}
use misaka_asset_gene.Fidelity.Service.Rounds.{Rounded, run_refine_round-Rounded}
use misaka_asset_gene.Fidelity.Service.Auto.{Finished}
use misaka_asset_gene.Fidelity.Service.Live.{Responsive, run_auto_continue_stops}
use misaka_asset_gene.Fidelity.Service.Sample.{id_of, outside, loop, baseline, world}

id_of-injective : (n m : ℕ) → id_of n ≡ id_of m → n ≡ m
id_of-injective zero zero e = refl
id_of-injective zero (suc m) e = cc
id_of-injective (suc n) zero e = cc
id_of-injective (suc n) (suc m) e = ap suc (id_of-injective n m (cc))

outside-Responsive : Responsive outside
outside-Responsive = record {
  images = λ n a. (_, refl);
  critics = λ n a c. (_, refl);
  masks = λ n p a q. (_, refl);
  negatives = λ n a. (_, refl);
  refines = λ n p a q. (_, refl);
  fresh_ids = id_of-injective;
}

terminal_passed : is_terminal passed_all ≡ true
unfolding is_terminal
terminal_passed = refl

run_refine_round-Rounded_example :
    Ensures (Present loop) (Rounded loop) (run_refine_round outside loop [])
run_refine_round-Rounded_example = run_refine_round-Rounded outside loop []

run_auto_continue_stops_example : Returns (Finished loop) (run_auto_continue outside loop [] world)
run_auto_continue_stops_example =
    run_auto_continue_stops outside outside-Responsive loop [] world (λ e. omega arith)
      (loop, (unfold get_loop find_loop in refl), refl)
      (((0, refl, omega arith), tt), (baseline, (unfold latest_round best_round in refl)))

abbrev done : Loop
done = record loop { status = passed_all }

-- The table at the n-th poll: the loop waits, and has then passed.
abbrev tables : ℕ → FidelityStore
tables n = if n == 0 then world.store else record world.store { loops = done ∷ [] }

ends :
    Until
      (λ l. is_terminal l.status)
      same_signature
      (polled tables (λ n. pos n) (pos 9) "p" "l")
      (λ n. pos n)
      (pos 9)
      1
      0
      done
unfolding get_loop find_loop is_terminal
ends = (loop, refl, refl, (refl, refl))
