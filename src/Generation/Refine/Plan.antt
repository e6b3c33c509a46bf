-- ===== src/Generation/Refine/Plan.antt =====
-- core/generation/refine.py, `plan_refine`: what a plan asks of the generator.
use misaka_asset_gene.Prelude.{
  ◌≡◌, refl, inl, inr, Bool, true, false, Bool-cases, none, [], ◌∷◌, ◌++◌, All, String, str_eq,
  arith, ◌⊎◌, ◌↔◌, ap, subst,
}
use mathlib.Core.Bool.{false≢true}
use mathlib.Core.List.{Memᴰ}
use mathlib.Core.List.Memᴰ
use misaka_asset_gene.Dialog.{
  RefineStrategy, metadata_only, param_retune, img2img, inpaint, full_regen,
}
use misaka_asset_gene.Network.{Text}
use misaka_asset_gene.Generation.Refine.{
  recipe_for, Params, RefineRequest, RefinePlan, is_tunable, filter_params, has_key, set_default,
  select_strategy, default_params, plan_refine,
}

recipe_for-none : (s : RefineStrategy) → (recipe_for s ≡ none) ↔ (s ≡ metadata_only)
unfolding recipe_for
recipe_for-none metadata_only = ((λ h. refl), (λ h. refl))
recipe_for-none param_retune = ((λ h. absurd (cc)), (λ h. absurd (cc)))
recipe_for-none img2img = ((λ h. absurd (cc)), (λ h. absurd (cc)))
recipe_for-none inpaint = ((λ h. absurd (cc)), (λ h. absurd (cc)))
recipe_for-none full_regen = ((λ h. absurd (cc)), (λ h. absurd (cc)))

-- The strategies that start from the parent's picture.
abbrev pub is_from_parent : RefineStrategy → Bool
is_from_parent img2img = true
is_from_parent inpaint = true
is_from_parent _ = false

denoise_tunable : is_tunable "denoise" ≡ true
unfolding is_tunable
denoise_tunable = refl

module _ {V : Type 0} where
  abbrev pub Tunable : Params V → Type 0
  Tunable ps = All (λ p. is_tunable p.0 ≡ true) ps

  filter_params-Tunable : (ps : Params V) → Tunable (filter_params ps)
  unfolding filter_params
  filter_params-Tunable [] = tt
  filter_params-Tunable (p ∷ ps) = elim (Bool-cases (is_tunable p.0)) [
    | inl e ↦ rw (filter_params, e) (e, filter_params-Tunable ps)
    | inr e ↦ rw (filter_params, e) (filter_params-Tunable ps)
  ]

  Tunable-append : (ps qs : Params V) → Tunable ps → Tunable qs → Tunable (ps ++ qs)
  Tunable-append [] qs h k = k
  Tunable-append (p ∷ ps) qs (h, hs) k = (h, Tunable-append ps qs hs k)

  has_key-append :
      (k : String) (v : V) (ps : Params V)
      → str_eq k k ≡ true
      → has_key k (ps ++ (k, v) ∷ []) ≡ true
  unfolding has_key
  has_key-append k v [] e = ground (arith, e)
  has_key-append k v (p ∷ ps) e = ground (arith, has_key-append k v ps e)

  -- What `setdefault` keeps and adds.
  set_default-Tunable :
      (k : String) (v : V) (ps : Params V)
      → is_tunable k ≡ true
      → Tunable ps
      → Tunable (set_default k v ps)
  unfolding set_default
  set_default-Tunable k v ps t h = elim (Bool-cases (has_key k ps)) [
    | inl e ↦ rw (set_default, e) h
    | inr e ↦ rw (set_default, e) (Tunable-append ps ((k, v) ∷ []) h (t, tt))
  ]

  set_default-has_key :
      (k : String) (v : V) (ps : Params V)
      → str_eq k k ≡ true
      → has_key k (set_default k v ps) ≡ true
  unfolding set_default
  set_default-has_key k v ps r = elim (Bool-cases (has_key k ps)) [
    | inl e ↦ rw (set_default, e) e
    | inr e ↦ rw (set_default, e) (has_key-append k v ps r)
  ]

  set_default-kept :
      (k : String) (v : V) (ps : Params V) (p : String × V)
      → Memᴰ p ps
      → Memᴰ p (set_default k v ps)
  unfolding set_default
  set_default-kept k v ps p m = elim (Bool-cases (has_key k ps)) [
    | inl e ↦ rw (set_default, e) m
    | inr e ↦ rw (set_default, e) (Memᴰ.append_left ((k, v) ∷ []) m)
  ]

  -- What holds of the plan of a request.
  pub record Plans (request : RefineRequest V) (plan : RefinePlan V) : Type 0 where
    pub tunable : Tunable plan.params
    pub kept : (p : String × V) → Memᴰ p request.params → is_tunable p.0 ≡ true → Memᴰ p plan.params
    pub given :
        (p : String × V)
        → Memᴰ p plan.params
        → Memᴰ p request.params ⊎ ((p.0 ≡ "denoise") × (is_from_parent plan.strategy ≡ true))
    pub strength : is_from_parent plan.strategy ≡ true → has_key "denoise" plan.params ≡ true
    pub no_run : (plan.recipe ≡ none) ↔ (plan.strategy ≡ metadata_only)
    pub one_pass : plan.strategy ≡ metadata_only → plan.decomposition ≡ []

  filter_params-kept :
      (ps : Params V) (p : String × V)
      → is_tunable p.0 ≡ true
      → Memᴰ p ps
      → Memᴰ p (filter_params ps)
  unfolding filter_params
  filter_params-kept [] p t m = m
  filter_params-kept (q ∷ ps) p t m = elim (Memᴰ.cases_cons m) [
    | inl e ↦
        let here : is_tunable q.0 ≡ true = subst (λ x. is_tunable x.0 ≡ true) e t in
        rw here (Memᴰ.head e)
    | inr n ↦ elim (Bool-cases (is_tunable q.0)) [
      | inl e ↦ rw e (Memᴰ.tail (filter_params-kept ps p t n))
      | inr e ↦ rw e (filter_params-kept ps p t n)
    ]
  ]

  filter_params-given : (ps : Params V) (p : String × V) → Memᴰ p (filter_params ps) → Memᴰ p ps
  unfolding filter_params
  filter_params-given [] p m = m
  filter_params-given (q ∷ ps) p m = elim (Bool-cases (is_tunable q.0)) [
    | inl e ↦ elim (Memᴰ.cases_cons (rw (filter_params, e) at m)) [
      | inl f ↦ Memᴰ.head f
      | inr n ↦ Memᴰ.tail (filter_params-given ps p n)
    ]
    | inr e ↦ Memᴰ.tail (filter_params-given ps p (rw (filter_params, e) at m))
  ]

  set_default-given :
      (k : String) (v : V) (ps : Params V) (p : String × V)
      → Memᴰ p (set_default k v ps)
      → Memᴰ p ps ⊎ (p.0 ≡ k)
  unfolding set_default
  set_default-given k v ps p m = elim (Bool-cases (has_key k ps)) [
    | inl e ↦ inl (rw (set_default, e) at m)
    | inr e ↦ elim (Memᴰ.append_cases ps (rw (set_default, e) at m)) [
      | inl n ↦ inl n
      | inr n ↦ inr (ap (λ x. x.0) (Memᴰ.eq_of_singleton n))
    ]
  ]

  module _ (lower : Text → Text) (img2img_denoise inpaint_denoise : V) where
    default_params-Tunable :
        (s : RefineStrategy) (ps : Params V)
        → Tunable ps
        → Tunable (default_params lower img2img_denoise inpaint_denoise s ps)
    unfolding default_params
    default_params-Tunable img2img ps h =
        set_default-Tunable "denoise" img2img_denoise ps denoise_tunable h
    default_params-Tunable inpaint ps h =
        set_default-Tunable "denoise" inpaint_denoise ps denoise_tunable h
    default_params-Tunable metadata_only ps h = h
    default_params-Tunable param_retune ps h = h
    default_params-Tunable full_regen ps h = h

    default_params-kept :
        (s : RefineStrategy) (ps : Params V) (p : String × V)
        → Memᴰ p ps
        → Memᴰ p (default_params lower img2img_denoise inpaint_denoise s ps)
    unfolding default_params
    default_params-kept img2img ps p m = set_default-kept "denoise" img2img_denoise ps p m
    default_params-kept inpaint ps p m = set_default-kept "denoise" inpaint_denoise ps p m
    default_params-kept metadata_only ps p m = m
    default_params-kept param_retune ps p m = m
    default_params-kept full_regen ps p m = m

    default_params-strength :
        (s : RefineStrategy) (ps : Params V)
        → is_from_parent s ≡ true
        → has_key "denoise" (default_params lower img2img_denoise inpaint_denoise s ps) ≡ true
    unfolding default_params
    default_params-strength img2img ps h = set_default-has_key "denoise" img2img_denoise ps refl
    default_params-strength inpaint ps h = set_default-has_key "denoise" inpaint_denoise ps refl
    default_params-strength metadata_only ps h = absurd (false≢true h)
    default_params-strength param_retune ps h = absurd (false≢true h)
    default_params-strength full_regen ps h = absurd (false≢true h)

    default_params-given :
        (s : RefineStrategy) (ps : Params V) (p : String × V)
        → Memᴰ p (default_params lower img2img_denoise inpaint_denoise s ps)
        → Memᴰ p ps ⊎ ((p.0 ≡ "denoise") × (is_from_parent s ≡ true))
    unfolding default_params
    default_params-given img2img ps p m =
        elim (set_default-given "denoise" img2img_denoise ps p m) [
          | inl n ↦ inl n
          | inr e ↦ inr (e, refl)
        ]
    default_params-given inpaint ps p m =
        elim (set_default-given "denoise" inpaint_denoise ps p m) [
          | inl n ↦ inl n
          | inr e ↦ inr (e, refl)
        ]
    default_params-given metadata_only ps p m = inl m
    default_params-given param_retune ps p m = inl m
    default_params-given full_regen ps p m = inl m

    -- The plan of a refinement asks only for parameters that may be tuned, keeps each of those that the
    -- request gives, and adds nothing but a strength, which it has wherever it starts from the
    -- parent's picture; it runs no recipe exactly where it edits the metadata, and then it is not
    -- decomposed.
    pub plan_refine-Plans :
        (request : RefineRequest V)
        → Plans request (plan_refine lower img2img_denoise inpaint_denoise request)
    unfolding plan_refine
    plan_refine-Plans request =
        let strategy = select_strategy lower request in
        let asked = filter_params request.params in
        record {
          tunable = default_params-Tunable strategy asked (filter_params-Tunable request.params);
          kept = λ p m t.
              default_params-kept strategy asked p (filter_params-kept request.params p t m);
          given = λ p m. elim (default_params-given strategy asked p m) [
            | inl n ↦ inl (filter_params-given request.params p n)
            | inr q ↦ inr q
          ];
          strength = λ h. default_params-strength strategy asked h;
          no_run = recipe_for-none strategy;
          one_pass = λ q.
              (let none_here : recipe_for strategy ≡ none = (recipe_for-none strategy).1 q in
                rw (plan_refine, none_here) refl);
        }
