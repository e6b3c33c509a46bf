-- ===== src/Fidelity/Summary.antt =====
-- The counts of a critique.
use misaka_asset_gene.Prelude.{◌+◌, ◌≡◌, refl, List, [], ◌∷◌, arith, length}
use misaka_asset_gene.Fidelity.{
  CheckResult, is_pass, is_fail, is_unverified, count_if, summarize_pass_fail, summarize_verdicts,
}

counts :
    (rs : List CheckResult)
    → count_if (λ r. is_pass r.verdict) rs
        + count_if (λ r. is_fail r.verdict) rs
        + count_if (λ r. is_unverified r.verdict) rs
      ≡ length rs
counts [] = omega arith
counts (r ∷ rs) = ground (arith, counts rs)

-- The three verdict counts add up to the number of results; the pass counts of the two summaries are
-- the same, and the fail count of `summarize_pass_fail` is that of the failed and the unverified.
pub summaries_agree :
    (rs : List CheckResult)
    → let v = summarize_verdicts rs in
      let p = summarize_pass_fail rs in
      (v.0 + v.1 + v.2 ≡ length rs) × (p.0 ≡ v.0) × (p.1 ≡ v.1 + v.2)
unfolding summarize_verdicts summarize_pass_fail
summaries_agree rs = (counts rs, refl, omega (arith, counts rs))
