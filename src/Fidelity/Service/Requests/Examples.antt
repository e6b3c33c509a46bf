-- ===== src/Fidelity/Service/Requests/Examples.antt =====
-- Calls of `advance` on the sample loop: one that goes through, one while the lock is held, and one
-- whose character sheet is gone.
use misaka_asset_gene.Prelude.{◌≡◌, refl, true, some, [], ◌∷◌, err}
use misaka_asset_gene.Prelude.Raising.{Holds, ◌>>=◌}
use misaka_asset_gene.Fidelity.{building_mask}
use misaka_asset_gene.Fidelity.Store.{Loop, get_loop, find_loop}
use misaka_asset_gene.Fidelity.Service.{
  World, loop_not_found, require_loop, sheet_checks, asked, not_awaiting, unknown_character_sheet,
  is_awaiting,
}
use misaka_asset_gene.Fidelity.Service.Rounds.{Rounded}
use misaka_asset_gene.Fidelity.Service.Sample.{outside, loop, world}
use misaka_asset_gene.Fidelity.Service.Requests.{advance, get, start_loop}
use misaka_asset_gene.Fidelity.Service.Requests.Claimed.{advance-Rounded, advance_stuck}

found : get_loop "p" "l" world.store ≡ some loop
unfolding get_loop find_loop
found = refl

advance-Rounded_example : Holds (λ d. Rounded loop d.loop) (advance outside "p" "l" world)
advance-Rounded_example = advance-Rounded outside "p" "l" loop world found

abbrev locked : World
locked = record world { locks = "l" ∷ [] }

abbrev orphan : Loop
orphan = record loop { character_sheet_id = "gone" }

abbrev orphan_world : World
orphan_world = record world { store = record world.store { loops = orphan ∷ [] } }

advance_stuck_example :
    let r = advance outside "p" "l" orphan_world in
    (r.0 ≡ err (unknown_character_sheet "gone"))
    × ((row : Loop) × (get_loop "p" "l" r.1.store ≡ some row) × (row.status ≡ building_mask))
    × ((w' : World)
        → w'.store ≡ r.1.store
        → (advance outside "p" "l" w').0 ≡ err (not_awaiting "l" building_mask))
advance_stuck_example =
    advance_stuck outside "p" orphan orphan_world (unfold get_loop find_loop in refl) (tt, tt)
      (unfold is_awaiting in refl) refl (λ n. refl) (λ n. refl)

missing_loop : (get outside "p" "other" world).0 ≡ err (loop_not_found "other")
unfolding get require_loop get_loop find_loop ◌>>=◌
missing_loop = refl

-- Nothing is written before the character sheet is found.
missing_sheet :
    start_loop outside "p" "a0"
      (record {
        character_sheet_id = "gone";
        outfit_variant = "casual";
        max_rounds = 4;
        auto_continue = true;
        mode = "default";
      })
      world
    ≡ (err (unknown_character_sheet "gone"), record world { calls = 5 })
unfolding start_loop sheet_checks asked ◌>>=◌
missing_sheet = refl
