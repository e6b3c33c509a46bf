-- ===== src/Fidelity/Planning/Plans.antt =====
-- What a plan of a round holds to.
use misaka_asset_gene.Prelude.{
  ℕ, ◌≤◌, String, ◌≡◌, refl, sym, inl, inr, ◌↔◌, true, false, none, some, some-injective, List, [],
  ◌∷◌, arith, Bool-cases, length, length-take-le, map, select, total, All, subst,
}
use misaka_asset_gene.Prelude.Int.{ℤ}
use misaka_asset_gene.Dialog.{is_empty}
use misaka_asset_gene.Network.{Text}
use misaka_asset_gene.Fidelity.{CheckResult, is_fail, raw_chosen, select_top_k_failed}
use misaka_asset_gene.Fidelity.Selection.{length-select_top_k_failed}
use misaka_asset_gene.Fidelity.Masks.{is_in_any, region_covers, build_mask_regions_keep}
use misaka_asset_gene.Fidelity.Planning.{
  FidelityCheck, RoundPlan, PlanLimits, build_instruction_tags, build_negative_tags, plan_round,
}
use misaka_asset_gene.Fidelity.Planning.Tags.{
  DistinctKeys, DistinctKeys-take, dedupe_casefold-DistinctKeys,
}

no_fails :
    (rs : List CheckResult)
    → (is_empty (select (λ r. is_fail r.verdict) rs) ≡ true)
      ↔ All (λ r. is_fail r.verdict ≡ false) rs
no_fails [] = (λ h. tt, λ h. refl)
no_fails (r ∷ rs) = elim (Bool-cases (is_fail r.verdict)) [
  | inl e ↦ (λ h. (let h' = rw e at h in cc), λ h. (let h' = rw e at h.0 in cc))
  | inr e ↦ (λ h. (e, (no_fails rs).0 (rw e at h)), λ h. rw e ((no_fails rs).1 h.1))
]

length-ids : (rs : List CheckResult) → length (map (λ r. r.id) rs) ≡ length rs
length-ids [] = refl
length-ids (r ∷ rs) = omega (arith, length-ids rs)

module _ (casefold : Text → Text) where
  -- What a plan for the results holds to: at most k failures, tags within the cap and without repetition, and a mask
  -- that leaves the boxes of the chosen failures whole.
  pub record Sound (results : List CheckResult) (lim : PlanLimits) (p : RoundPlan) : Type 0 where
    pub chosen : p.chosen_check_ids ≡ map (λ r. r.id) (select_top_k_failed results lim.k)
    pub few : length p.chosen_check_ids ≤ lim.k
    pub fix_tags_bound : length p.instruction_tags ≤ lim.tag_cap
    pub fix_tags_distinct : DistinctKeys casefold p.instruction_tags
    pub negative_tags_bound : length p.negative_tags ≤ lim.tag_cap
    pub negative_tags_distinct : DistinctKeys casefold p.negative_tags
    pub whole :
        (x y : ℤ)
        → is_in_any x y (raw_chosen (select_top_k_failed results lim.k)) ≡ true
        → total (region_covers x y) p.mask_subtract ≡ 0

  -- There is no plan exactly where no check of the critique failed.
  pub plan_round-none :
      (i : ℕ) (target : String) (checks : List FidelityCheck) (results : List CheckResult)
      (width height : ℕ) (lim : PlanLimits)
      → (plan_round casefold i target checks results width height lim ≡ none)
        ↔ All (λ r. is_fail r.verdict ≡ false) results
  unfolding plan_round
  plan_round-none i target checks results width height lim =
      elim (Bool-cases (is_empty (select (λ r. is_fail r.verdict) results))) [
        | inl e ↦ rw e (λ h. (no_fails results).0 e, λ h. refl)
        | inr e ↦ rw e (λ h. cc, λ h. (let e' = (no_fails results).1 h in cc))
      ]

  -- A plan that is made names the selected failures, k at most; its tags and negative tags are within the
  -- cap and without repetition; and its mask leaves the boxes of the selected failures whole.
  pub plan_round-Sound :
      (i : ℕ) (target : String) (checks : List FidelityCheck) (results : List CheckResult)
      (width height : ℕ) (lim : PlanLimits) (p : RoundPlan)
      → plan_round casefold i target checks results width height lim ≡ some p
      → Sound results lim p
  unfolding plan_round build_instruction_tags build_negative_tags
  plan_round-Sound i target checks results width height lim p h =
      elim (Bool-cases (is_empty (select (λ r. is_fail r.verdict) results))) [
        | inl e ↦ (let h' = rw e at h in cc)
        | inr e ↦
            subst (λ q. Sound results lim q) (some-injective (rw e at h))
              (record {
                chosen = refl;
                few =
                    subst (λ n. n ≤ lim.k) (sym (length-ids (select_top_k_failed results lim.k)))
                      (length-select_top_k_failed results lim.k);
                fix_tags_bound = length-take-le lim.tag_cap _;
                fix_tags_distinct =
                    DistinctKeys-take casefold lim.tag_cap _
                      (dedupe_casefold-DistinctKeys casefold _);
                negative_tags_bound = length-take-le lim.tag_cap _;
                negative_tags_distinct =
                    DistinctKeys-take casefold lim.tag_cap _
                      (dedupe_casefold-DistinctKeys casefold _);
                whole = λ x y.
                    build_mask_regions_keep (select_top_k_failed results lim.k) results
                      lim.mask_dilate lim.mask_feather lim.subtract_iou_threshold x y;
              })
      ]
