-- ===== src/Project/Cycles.antt =====
-- core/project/cross_project.py, `detect_cycles`. The projects that have a directory and the references
-- of each (`collect_project_refs`) are arguments.
pub mod Walks
pub mod Reported
pub mod Loops
use misaka_asset_gene.Prelude.{
  ℕ, zero, suc, Bool, true, false, Option, none, some, List, [], ◌∷◌, ◌++◌, any, if◌then◌else◌,
  length,
}
use misaka_asset_gene.Network.{Text, text_eq}
use misaka_asset_gene.Project.References.{Reference, parse_reference}

unfoldable pub is_among : Text → List Text → Bool
is_among k xs = any (λ x. text_eq x k) xs

-- The loop over the references of a project; `go` follows a project that is not on the way.
unfoldable pub cycles_from :
    (Text → List (List Text)) → Text → List Text → List Text → List Text → List (List Text)
unfolding is_among
cycles_from go project visited path [] = []
cycles_from go project visited path (r ∷ rs) =
    let rest = cycles_from go project visited path rs in
    elim (parse_reference r) [
      | none ↦ rest
      | some d ↦
          if text_eq d.project project
          then rest
          else if is_among d.project visited
          then (path ++ (d.project ∷ [])) ∷ rest
          else go d.project ++ rest
    ]

module _ (projects : List Text) (refs : Text → List Text) where
  -- Fuel: the number of projects on a way.
  unfoldable pub detect_from : ℕ → Text → List Text → List Text → List (List Text)
  unfolding cycles_from is_among
  detect_from zero project visited path = []
  detect_from (suc fuel) project visited path =
      if is_among project projects
      then cycles_from (λ d. detect_from fuel d (project ∷ visited) (path ++ (d ∷ []))) project
          visited path (refs project)
      else []

  unfoldable pub detect_cycles : Text → List (List Text)
  unfolding detect_from
  detect_cycles project = detect_from (suc (length projects)) project [] (project ∷ [])
