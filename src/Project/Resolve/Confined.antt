-- ===== src/Project/Resolve/Confined.antt =====
-- core/project/cross_project.py: what a resolved reference stands for, and which are materialized.
use misaka_asset_gene.Prelude.{
  ◌≡◌, ◌≢◌, refl, sym, ap, ◌∙◌, inl, inr, Bool, true, false, Bool-cases, Option, Option-cases, none,
  some, some-injective,
}
use mathlib.Core.Option.{none-ne-some}
use misaka_asset_gene.Network.{Text}
use misaka_asset_gene.Project.References.{Reference, parse_reference}
use misaka_asset_gene.Project.Resolve.Recorded.{
  Recorded, Agrees, Differs, origin_hash_of-Recorded, is_other_hash-Agrees, is_other_hash-Differs,
}
use misaka_asset_gene.Project.Resolve.{
  live, outdated, external, broken, Files, Resolution, external_key, origin_hash_of, is_other_hash,
  usable, live_path, external_path, resolve_parsed, resolve_reference, materialize_status,
  not_materialized,
}

live≢external : live ≢ external
live≢external h = cc

outdated≢external : outdated ≢ external
outdated≢external h = cc

broken≢external : broken ≢ external
broken≢external h = cc

usable-Within :
    {P : Type 0} (within is_file : P → Bool) (o : Option P) (p : P)
    → usable within is_file o ≡ some p
    → (within p ≡ true) × (is_file p ≡ true)
unfolding usable
usable-Within within is_file none p h = absurd (none-ne-some _ h)
usable-Within within is_file (some q) p h = elim (Bool-cases (within q)) [
  | inl e ↦ elim (Bool-cases (is_file q)) [
    | inl k ↦
        let same = some-injective (rw (usable, e, k) at h) in
        (ap within (sym same) ∙ e, ap is_file (sym same) ∙ k)
    | inr k ↦ absurd (none-ne-some _ (rw (usable, e, k) at h))
  ]
  | inr e ↦ absurd (none-ne-some _ (rw (usable, e) at h))
]

module _ {P : Type 0} (f : Files P) where
  -- The hash on record for the copy of `d` under `_external`.
  abbrev pub OnRecord : Reference → Option Text → Type 0
  OnRecord d o = Recorded (external_key d) f.origins o

  -- What the resolution of the reference `d` may be.
  pub data Resolved (d : Reference) : Resolution P → Type 0 where
    is_live :
        (p : P) (o : Option Text)
        → f.in_project d.project p ≡ true
        → f.is_file p ≡ true
        → OnRecord d o
        → Agrees o (f.sha256_of p)
        → Resolved d
            (record { status = live; path = some p; hash = some (f.sha256_of p); origin_hash = o })
    is_outdated :
        (p : P) (o : Option Text)
        → f.in_project d.project p ≡ true
        → f.is_file p ≡ true
        → OnRecord d o
        → Differs o (f.sha256_of p)
        → Resolved d (record {
          status = outdated;
          path = some p;
          hash = some (f.sha256_of p);
          origin_hash = o;
        })
    is_external :
        (p : P) (o : Option Text)
        → live_path f d ≡ none
        → f.in_external p ≡ true
        → f.is_file p ≡ true
        → OnRecord d o
        → Agrees o (f.sha256_of p)
        → Resolved d (record {
          status = external;
          path = some p;
          hash = some (f.sha256_of p);
          origin_hash = o;
        })
    is_absent :
        (o : Option Text)
        → live_path f d ≡ none
        → external_path f d ≡ none
        → OnRecord d o
        → Resolved d (record { status = broken; path = none; hash = none; origin_hash = o })
    is_changed :
        (p : P) (o : Option Text)
        → live_path f d ≡ none
        → external_path f d ≡ some p
        → OnRecord d o
        → Differs o (f.sha256_of p)
        → Resolved d
            (record { status = broken; path = none; hash = some (f.sha256_of p); origin_hash = o })

  live-Within :
      (d : Reference) (p : P)
      → live_path f d ≡ some p
      → (f.in_project d.project p ≡ true) × (f.is_file p ≡ true)
  unfolding live_path
  live-Within d p h = elim (Bool-cases (f.has_project d.project)) [
    | inl e ↦
        usable-Within (f.in_project d.project) f.is_file (f.find_asset d) p (rw (live_path, e) at h)
    | inr e ↦ absurd (none-ne-some _ (rw (live_path, e) at h))
  ]

  resolve_parsed-Resolved : (d : Reference) → Resolved d (resolve_parsed f d)
  unfolding resolve_parsed external_path
  resolve_parsed-Resolved d =
      let o = origin_hash_of (external_key d) f.origins in
      let on = origin_hash_of-Recorded (external_key d) f.origins in
      elim (Option-cases (live_path f d)) [
        | inr (p, e) ↦
            let (inside, file) = live-Within d p e in
            elim (Bool-cases (is_other_hash o (f.sha256_of p))) [
              | inl k ↦
                  rw (resolve_parsed, e, k)
                    (is_outdated p o inside file on (is_other_hash-Differs o (f.sha256_of p) k))
              | inr k ↦
                  rw (resolve_parsed, e, k)
                    (is_live p o inside file on (is_other_hash-Agrees o (f.sha256_of p) k))
            ]
        | inl e ↦ elim (Option-cases (external_path f d)) [
          | inr (p, q) ↦
              let (inside, file) = usable-Within f.in_external f.is_file (f.find_external d) p q in
              elim (Bool-cases (is_other_hash o (f.sha256_of p))) [
                | inl k ↦
                    rw (resolve_parsed, e, q, k)
                      (is_changed p o e q on (is_other_hash-Differs o (f.sha256_of p) k))
                | inr k ↦
                    rw (resolve_parsed, e, q, k)
                      (is_external p o e inside file on (is_other_hash-Agrees o (f.sha256_of p) k))
              ]
          | inl q ↦ rw (resolve_parsed, e, q) (is_absent o e q on)
        ]
      ]

  -- A reference that parses resolves to a file of the source project, which is live where the record
  -- has no hash or the file's and outdated where it has another one; without such a file to a file of
  -- `_external`, where the record has no hash or the file's; else to nothing, where there is no file or
  -- its hash is not the record's. The hash of the record is that of the first entry whose path starts
  -- with `_external/<project>/<asset_path>`, and none where no entry does or its hash is empty.
  pub resolve_reference-Resolved :
      (reference : Text) (d : Reference)
      → parse_reference reference ≡ some d
      → Resolved d (resolve_reference f reference)
  unfolding resolve_reference
  resolve_reference-Resolved reference d e = rw (resolve_reference, e) (resolve_parsed-Resolved d)

  external-Within :
      (d : Reference) (r : Resolution P)
      → Resolved d r
      → r.status ≡ external
      → (p : P) × (r.path ≡ some p) × (f.in_external p ≡ true)
  external-Within d r (is_live p o i k c h) q = absurd (live≢external q)
  external-Within d r (is_outdated p o i k c h) q = absurd (outdated≢external q)
  external-Within d r (is_external p o e i k c h) q = (p, refl, i)
  external-Within d r (is_absent o e g c) q = absurd (broken≢external q)
  external-Within d r (is_changed p o e g c h) q = absurd (broken≢external q)

  unparsed :
      (reference : Text)
      → parse_reference reference ≡ none
      → broken ≡ (resolve_reference f reference).status
  unfolding resolve_reference
  unparsed reference e = rw (resolve_reference, e) refl

  -- `materialize_reference` reports every reference that resolves to its copy in `_external` as broken,
  -- where no file of `_external` lies in the directory of the source project: the copy is compared
  -- with the wrong directory, and `already_external` is never reported.
  pub materialize_status_external :
      (reference : Text)
      → ((d : Reference) (p : P)
          → parse_reference reference ≡ some d
          → f.in_external p ≡ true
          → f.in_project d.project p ≡ false)
      → (resolve_reference f reference).status ≡ external
      → materialize_status f reference ≡ not_materialized
  unfolding materialize_status
  materialize_status_external reference apart q = elim (Option-cases (parse_reference reference)) [
    | inl e ↦ absurd (broken≢external (unparsed reference e ∙ q))
    | inr (d, e) ↦
        let (p, path, inside) =
          external-Within d (resolve_reference f reference)
            (resolve_reference-Resolved reference d e) q in
        rw (materialize_status, path, e, apart d p e inside) refl
  ]
