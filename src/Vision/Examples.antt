-- ===== src/Vision/Examples.antt =====
-- A local critic that passes a fine detail, and a second one that does not.
use misaka_asset_gene.Prelude.{◌≡◌, refl, inl, some, [], ◌∷◌, ok, true}
use misaka_asset_gene.Prelude.Int.{pos, ◌-ℤ◌}
use misaka_asset_gene.Prelude.Raising.{Holds, Returns, ◌>>=◌}
use misaka_asset_gene.Network.{online}
use misaka_asset_gene.Fidelity.{Verdict, pass, fail}
use misaka_asset_gene.Fidelity.Geometry.{bbox_area}
use misaka_asset_gene.Fidelity.Planning.{head, FidelityCheck}
use misaka_asset_gene.Vision.{Settings, Critic, Providers, provider_handler, is_cloud, critique}
use misaka_asset_gene.Vision.Sound.{Critiqued, critique-Sound}
use misaka_asset_gene.Vision.Returns.{Answers, critique-Returns}

abbrev collar : FidelityCheck
collar = record {
  id = "collar";
  region_hint = head;
  fine_detail = true;
  fix_tags = [];
  negative_tags = [];
}

abbrev says : Verdict → Critic
says v n cs = some (
    record {
      id = "collar";
      confidence = 90;
      region_bbox = some (record { x0 = pos 1; y0 = pos 1; x1 = pos 4; y1 = pos 4 });
      verdict = v;
    }
    ∷ [])

abbrev providers : Providers
providers = record { ollama = says pass; openai = says pass; gemini = says fail }

abbrev settings : Settings
settings = record {
  llm_provider_order = "ollama" ∷ [];
  misaka_fidelity_second_opinion = "gemini";
  misaka_fidelity_pass_min_confidence = 70;
}

critique-Sound_example :
    Holds
      (λ out m. Critiqued providers settings (collar ∷ []) 10 20 online 0 out)
      (critique providers settings (collar ∷ []) 10 20 online 0)
critique-Sound_example = critique-Sound providers settings (collar ∷ []) 10 20 online 0

ollama-Answers : Answers providers (collar ∷ []) online "ollama"
unfolding provider_handler is_cloud
ollama-Answers = record {
  critic = says pass;
  known = refl;
  open_to = refl;
  answers = λ n h. absurd (cc);
}

critique-Returns_example :
    Returns
      (λ out m. Critiqued providers settings (collar ∷ []) 10 20 online 0 out)
      (critique providers settings (collar ∷ []) 10 20 online 0)
critique-Returns_example =
    critique-Returns providers settings (collar ∷ []) 10 20 online 0 (inl ollama-Answers)

-- The second opinion turns the pass into a fail.
collar_fails : critique providers settings (collar ∷ []) 10 20 online 0 ≡ (
  ok (
      record {
        id = "collar";
        confidence = 90;
        region_bbox = some (record { x0 = pos 1; y0 = pos 1; x1 = pos 4; y1 = pos 4 });
        verdict = fail;
      }
      ∷ []),
  3,
)
unfolding critique ◌>>=◌ bbox_area ◌-ℤ◌
collar_fails = refl
