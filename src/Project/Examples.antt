-- ===== src/Project/Examples.antt =====
-- Two projects that refer to each other.
use misaka_asset_gene.Prelude.{
  true, false, ◌≡◌, ◌≤◌, refl, ◌↔◌, some, none, List, [], ◌∷◌, ◌++◌, if◌then◌else◌, length,
}
use mathlib.Core.List.{Memᴰ}
use misaka_asset_gene.Network.{Text, text_eq}
use misaka_asset_gene.Project.References.{Reference, parse_reference}
use misaka_asset_gene.Project.References.Parsed.{
  IsReference, Reads, format_reference, parse_reference_iff,
}
use misaka_asset_gene.Generation.Refine.{is_prefix}
use misaka_asset_gene.Project.Resolve.{
  external, broken, OriginEntry, Files, resolve_reference, not_materialized, materialize_status,
}
use misaka_asset_gene.Project.Resolve.Confined.{
  Resolved, resolve_reference-Resolved, materialize_status_external,
}
use misaka_asset_gene.Project.Cycles.{detect_cycles}
use misaka_asset_gene.Project.Cycles.Walks.{Closes, Walk}
use misaka_asset_gene.Project.Cycles.Reported.{detect_cycles_iff}
use misaka_asset_gene.Project.Cycles.Loops.{detect_cycles-nil_iff}

abbrev name_a : Text
name_a = b'a' ∷ []

abbrev name_b : Text
name_b = b'b' ∷ []

abbrev name_c : Text
name_c = b'c' ∷ []

-- `@x/k`, for a project of one letter.
abbrev reference_to : Text → Text
reference_to name = b'@' ∷ (name ++ (b'/' ∷ b'k' ∷ []))

abbrev parts_b : Reference
parts_b = record { project = name_b; asset_path = b'k' ∷ []; version = [] }

-- A refers to B and B to A; C has no directory.
abbrev refs : Text → List Text
refs name =
    if text_eq name name_a
    then reference_to name_b ∷ []
    else reference_to name_a ∷ reference_to name_c ∷ []

abbrev projects : List Text
projects = name_a ∷ name_b ∷ []

with_version :
    parse_reference (b'@' ∷ b'b' ∷ b'/' ∷ b'k' ∷ b'#' ∷ b'v' ∷ [])
    ≡ some (record { project = name_b; asset_path = b'k' ∷ []; version = b'v' ∷ [] })
unfolding parse_reference
with_version = refl

-- The path is not empty.
no_path : parse_reference (b'@' ∷ b'b' ∷ b'/' ∷ []) ≡ none
unfolding parse_reference
no_path = refl

two_projects : detect_cycles projects refs name_a ≡ (name_a ∷ name_b ∷ name_a ∷ []) ∷ []
unfolding detect_cycles text_eq parse_reference
two_projects = refl

-- A loop that is entered from outside is reported with the way to it, which is no part of the loop.
abbrev refs_behind : Text → List Text
refs_behind name =
    if text_eq name name_b then reference_to name_c ∷ [] else reference_to name_b ∷ []

way_included :
    detect_cycles (name_a ∷ name_b ∷ name_c ∷ []) refs_behind name_a
    ≡ (name_a ∷ name_b ∷ name_c ∷ name_b ∷ []) ∷ []
unfolding detect_cycles text_eq parse_reference
way_included = refl

parse_reference_iff_example :
    (parse_reference (reference_to name_b) ≡ some parts_b)
    ↔ (IsReference parts_b × Reads (reference_to name_b) (format_reference parts_b))
parse_reference_iff_example = parse_reference_iff (reference_to name_b) parts_b

detect_cycles_iff_example :
    Memᴰ (name_a ∷ name_b ∷ name_a ∷ []) (detect_cycles projects refs name_a) ↔ (
      (rest : List Text) × (name_a ∷ name_b ∷ name_a ∷ [] ≡ name_a ∷ rest)
      × Closes projects refs [] name_a rest)
detect_cycles_iff_example = detect_cycles_iff projects refs name_a (name_a ∷ name_b ∷ name_a ∷ [])

detect_cycles-nil_iff_example :
    (detect_cycles projects refs name_a ≡ [])
    ↔ ((vs : List Text) → Walk projects refs name_a vs → length vs ≤ length projects)
detect_cycles-nil_iff_example = detect_cycles-nil_iff projects refs name_a

-- Paths are texts. The project B is gone; its file `k` was copied, and so was its file `kk` before that,
-- with another hash.
abbrev key_b : Text
key_b =
    b'_' ∷ b'e' ∷ b'x' ∷ b't' ∷ b'e' ∷ b'r' ∷ b'n' ∷ b'a' ∷ b'l' ∷ b'/' ∷ b'b' ∷ b'/' ∷ b'k' ∷ []

abbrev copied : List OriginEntry → Files Text
copied es = record {
  has_project = λ name. false;
  find_asset = λ d. none;
  find_external = λ d. some key_b;
  in_project = λ name p. false;
  in_external = λ p. true;
  is_file = λ p. true;
  sha256_of = λ p. b'1' ∷ [];
  origins = es;
}

abbrev one_copy : Files Text
one_copy = copied (record { local_path = key_b; sha256 = b'1' ∷ [] } ∷ [])

copy_used : (resolve_reference one_copy (reference_to name_b)).status ≡ external
unfolding resolve_reference parse_reference is_prefix text_eq
copy_used = refl

-- The entry of `kk` starts with the path of `k`, so that its hash is taken for that of `k`.
neighbour_entry :
    (resolve_reference
      (copied (
        record { local_path = key_b ++ (b'k' ∷ []); sha256 = b'2' ∷ [] }
        ∷ record { local_path = key_b; sha256 = b'1' ∷ [] }
        ∷ []))
      (reference_to name_b)).status
    ≡ broken
unfolding resolve_reference parse_reference is_prefix text_eq
neighbour_entry = refl

parsed_b : parse_reference (reference_to name_b) ≡ some parts_b
unfolding parse_reference
parsed_b = refl

resolve_reference-Resolved_example :
    Resolved one_copy parts_b (resolve_reference one_copy (reference_to name_b))
resolve_reference-Resolved_example =
    resolve_reference-Resolved one_copy (reference_to name_b) parts_b parsed_b

materialize_status_external_example :
    materialize_status one_copy (reference_to name_b) ≡ not_materialized
materialize_status_external_example =
    materialize_status_external one_copy (reference_to name_b) (λ d p e i. refl) copy_used
