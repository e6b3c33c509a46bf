-- ===== src/Project/References/Parsed.antt =====
-- core/project/cross_project.py, `parse_reference` and REFERENCE_PATTERN: which texts are references.
use misaka_asset_gene.Prelude.{
  both, ◌≡◌, refl, sym, ap, ◌∙◌, subst, inl, inr, ◌⊎◌, ◌↔◌, true, false, ◌&&◌, not, Bool-cases,
  some, some-injective, [], ◌∷◌, ◌++◌, ◌==◌, arith,
}
use mathlib.Core.Bool.{true≢false}
use mathlib.Core.Option.{none-ne-some}
use mathlib.Core.List.{append_assoc}
use misaka_asset_gene.Dialog.{is_empty}
use misaka_asset_gene.Network.{Text}
use misaka_asset_gene.Project.References.Spans.{
  Consists, Stops, span-append, span-Consists, guard-some, not_empty,
}
use misaka_asset_gene.Project.References.{
  Reference, is_name_char, is_path_char, span, is_end, parse_version, parse_path, parse_project,
  parse_reference,
}

-- The text of a reference.
pub format_version : Text → Text
format_version [] = []
format_version (c ∷ cs) = b'#' ∷ (c ∷ cs)

pub format_reference : Reference → Text
unfolding format_version
format_reference d = b'@' ∷ (d.project ++ (b'/' ∷ (d.asset_path ++ format_version d.version)))

pub record IsReference (d : Reference) : Type 0 where
  pub project : Consists is_name_char d.project
  pub some_project : is_empty d.project ≡ false
  pub asset_path : Consists is_path_char d.asset_path
  pub some_path : is_empty d.asset_path ≡ false
  pub version : Consists is_name_char d.version

-- Nothing, or the line feed that `$` lets pass.
pub IsTrailing : Text → Type 0
IsTrailing e = (e ≡ []) ⊎ (e ≡ b'\n' ∷ [])

is_end-IsTrailing : (e : Text) → is_end e ≡ true → IsTrailing e
unfolding is_end IsTrailing
is_end-IsTrailing [] h = inl refl
is_end-IsTrailing (c ∷ []) h = inr (ap (λ x. x ∷ []) (ground (arith, h)))
is_end-IsTrailing (c ∷ d ∷ e) h = ground (arith, h)

IsTrailing-is_end : (e : Text) → IsTrailing e → is_end e ≡ true
unfolding is_end IsTrailing
IsTrailing-is_end e (inl q) = rw q refl
IsTrailing-is_end e (inr q) = rw q refl

-- A part of a reference read, with the line feed.
pub Reads : Text → Text → Type 0
Reads t part = (e : Text) × IsTrailing e × (t ≡ part ++ e)

-- A text that is not empty keeps its first character.
format_version-cons : (v : Text) → is_empty v ≡ false → format_version v ≡ b'#' ∷ v
unfolding format_version
format_version-cons [] h = absurd (true≢false h)
format_version-cons (c ∷ v) h = refl

version_sound :
    (project path t : Text) (d : Reference)
    → parse_version project path t ≡ some d
    → (version : Text) × (record { project = project; asset_path = path; version = version } ≡ d)
      × Consists is_name_char version
      × Reads t (format_version version)
unfolding parse_version format_version Consists Reads IsTrailing
version_sound project path [] d h = ([], some-injective h, tt, ([], inl refl, refl))
version_sound project path (c ∷ cs) d h =
    let (q, all_name, stops) = span-Consists is_name_char cs in
    let version = (span is_name_char cs).0 in
    let rest = (span is_name_char cs).1 in
    elim (Bool-cases (c == b'#')) [
      | inl hash ↦
          let (g, e) =
            guard-some (not (is_empty version) && is_end rest) _ d
              (rw (parse_version, hash) at h) in
          let (filled, ended) = both (not (is_empty version)) (is_end rest) g in
          let first : c ≡ b'#' = ground (arith, hash) in
          (
            version,
            some-injective e,
            all_name,
            (
              rest,
              is_end-IsTrailing rest ended,
              ap (λ x. x ∷ cs) first
                  ∙ ap (λ x. b'#' ∷ x) q
                  ∙ ap (λ x. x ++ rest)
                      (sym (format_version-cons version (not_empty version filled))),
            ),
          )
      | inr plain ↦
          let (g, e) = guard-some (is_end (c ∷ cs)) _ d (rw (parse_version, plain) at h) in
          ([], some-injective e, tt, (c ∷ cs, is_end-IsTrailing (c ∷ cs) g, refl))
    ]

path_sound :
    (project t : Text) (d : Reference)
    → parse_path project t ≡ some d
    → (path version : Text) × (record { project = project; asset_path = path; version = version }
        ≡ d)
      × Consists is_path_char path
      × (is_empty path ≡ false)
      × Consists is_name_char version
      × Reads t (b'/' ∷ (path ++ format_version version))
unfolding parse_path Reads
path_sound project [] d h = absurd (none-ne-some _ h)
path_sound project (c ∷ cs) d h =
    let (q, all_path, stops) = span-Consists is_path_char cs in
    let path = (span is_path_char cs).0 in
    let (g, e) = guard-some (c == b'/' && not (is_empty path)) _ d h in
    let (slash, filled) = both (c == b'/') (not (is_empty path)) g in
    let first : c ≡ b'/' = ground (arith, slash) in
    let (version, same, all_name, (end, trailing, r)) = version_sound project path _ d e in
    (
      path,
      version,
      same,
      all_path,
      not_empty path filled,
      all_name,
      (
        end,
        trailing,
        ap (λ x. x ∷ cs) first
            ∙ ap (λ x. b'/' ∷ x)
                (q ∙ ap (λ x. path ++ x) r ∙ sym (append_assoc path (format_version version) end)),
      ),
    )

stop_end : (e : Text) → IsTrailing e → Stops is_name_char e × Stops is_path_char e
unfolding Stops IsTrailing is_name_char is_path_char
stop_end e (inl q) = rw q (tt, tt)
stop_end e (inr q) = rw q (refl, refl)

version_complete :
    (project path v e : Text)
    → Consists is_name_char v
    → IsTrailing e
    → parse_version project path (format_version v ++ e)
      ≡ some (record { project = project; asset_path = path; version = v })
unfolding format_version parse_version IsTrailing is_end
version_complete project path [] e named (inl q) = rw q refl
version_complete project path [] e named (inr q) = rw q refl
version_complete project path (c ∷ v) e named trailing =
    rw
      (
        span-append is_name_char (c ∷ v) e named (stop_end e trailing).0,
        IsTrailing-is_end e trailing,
      )
      refl

stop_version : (v e : Text) → IsTrailing e → Stops is_path_char (format_version v ++ e)
unfolding Stops is_name_char is_path_char format_version
stop_version [] e trailing = (stop_end e trailing).1
stop_version (c ∷ v) e trailing = refl

stop_slash : (t : Text) → Stops is_name_char (b'/' ∷ t)
unfolding Stops is_name_char
stop_slash t = refl

project_sound :
    (t : Text × Text) (d : Reference)
    → parse_project t ≡ some d
    → (is_empty t.0 ≡ false) × (parse_path t.0 t.1 ≡ some d)
unfolding parse_project
project_sound ([], rest) d h = absurd (none-ne-some _ h)
project_sound (c ∷ project, rest) d h = (refl, h)

parse_sound :
    (t : Text) (d : Reference)
    → parse_reference t ≡ some d
    → IsReference d × Reads t (format_reference d)
unfolding parse_reference parse_project Reads format_reference
parse_sound [] d h = absurd (none-ne-some _ h)
parse_sound (c ∷ cs) d h =
    let (q, all_name, stops) = span-Consists is_name_char cs in
    let project = (span is_name_char cs).0 in
    let (at, h') = guard-some (c == b'@') _ d h in
    let (named, h2) = project_sound (span is_name_char cs) d h' in
    let (path, version, same, all_path, filled, all_version, (end, trailing, r)) =
      path_sound project (span is_name_char cs).1 d h2 in
    let first : c ≡ b'@' = ground (arith, at) in
    let whole : c ∷ cs ≡ b'@' ∷ ((project ++ (b'/' ∷ (path ++ format_version version))) ++ end) =
      ap (λ x. x ∷ cs) first
      ∙ ap (λ x. b'@' ∷ x)
          (q
            ∙ ap (λ x. project ++ x) r
            ∙ sym (append_assoc project (b'/' ∷ (path ++ format_version version)) end)) in
    subst (λ x. IsReference x × Reads (c ∷ cs) (format_reference x)) same
      (
        record {
          project = all_name;
          some_project = named;
          asset_path = all_path;
          some_path = filled;
          version = all_version;
        },
        (end, trailing, whole),
      )

parse_complete :
    (d : Reference) (e : Text)
    → IsReference d
    → IsTrailing e
    → parse_reference (format_reference d ++ e) ≡ some d
unfolding parse_reference parse_project parse_path format_reference
parse_complete d e h trailing =
    let v = format_version d.version in
    let split : (d.project ++ (b'/' ∷ (d.asset_path ++ v))) ++ e
        ≡ d.project ++ (b'/' ∷ (d.asset_path ++ (v ++ e))) =
      append_assoc d.project (b'/' ∷ (d.asset_path ++ v)) e
      ∙ ap (λ x. d.project ++ (b'/' ∷ x)) (append_assoc d.asset_path v e) in
    rw
      (
        split,
        span-append is_name_char d.project (b'/' ∷ (d.asset_path ++ (v ++ e))) h.project
            (stop_slash _),
        h.some_project,
        span-append is_path_char d.asset_path (v ++ e) h.asset_path
            (stop_version d.version e trailing),
        h.some_path,
      )
      (version_complete d.project d.asset_path d.version e h.version trailing)

-- A text is a reference with the parts `d` exactly when these are made of the characters allowed for
-- them, all but the version are not empty, and the text is `@project/asset_path`, `#version` unless
-- that is empty, and at most a line feed.
pub parse_reference_iff :
    (t : Text) (d : Reference)
    → (parse_reference t ≡ some d) ↔ (IsReference d × Reads t (format_reference d))
unfolding Reads
parse_reference_iff t d = (parse_sound t d, λ h. rw h.1.2 (parse_complete d h.1.0 h.0 h.1.1))
