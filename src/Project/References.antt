-- ===== src/Project/References.antt =====
-- core/project/cross_project.py, `parse_reference`, on texts as lists of code points.
pub mod Spans
pub mod Parsed
use misaka_asset_gene.Prelude.{
  ℕ, ◌≡◌, refl, sym, ap, ◌∙◌, inl, inr, ◌⊎◌, Bool, true, false, ◌&&◌, ◌||◌, not, Bool-cases, Option,
  none, some, some-injective, List, [], ◌∷◌, ◌++◌, List-cases, if◌then◌else◌, leb, ◌==◌, All, arith,
}
use misaka_asset_gene.Dialog.{is_empty}
use misaka_asset_gene.Network.{Text}

pub record Reference : Type 0 where
  pub project : Text
  pub asset_path : Text
  pub version : Text

-- `[a-zA-Z0-9_-]` and `[a-zA-Z0-9_./-]`.
unfoldable pub is_name_char : ℕ → Bool
is_name_char c =
    (leb b'a' c && leb c b'z')
    || (leb b'A' c && leb c b'Z')
    || (leb b'0' c && leb c b'9')
    || c == b'_'
    || c == b'-'

unfoldable pub is_path_char : ℕ → Bool
unfolding is_name_char
is_path_char c = is_name_char c || c == b'.' || c == b'/'

-- The longest prefix of such characters, and what follows.
unfoldable pub span : (ℕ → Bool) → Text → Text × Text
span p [] = ([], [])
span p (c ∷ cs) = let rest = span p cs in if p c then (c ∷ rest.0, rest.1) else ([], c ∷ cs)

-- `$` is the end, or a line feed at the end.
unfoldable pub is_end : Text → Bool
is_end [] = true
is_end (c ∷ cs) = c == b'\n' && is_empty cs

-- The optional version. Each class of characters excludes the one that follows it, so that the greedy
-- match is the only one.
parse_version : Text → Text → Text → Option Reference
unfolding is_end is_name_char span
parse_version project path [] = some (record { project = project; asset_path = path; version = [] })
parse_version project path (c ∷ cs) =
    let (version, rest) = span is_name_char cs in
    if c == b'#'
    then (if not (is_empty version) && is_end rest
        then some (record { project = project; asset_path = path; version = version })
        else none)
    else if is_end (c ∷ cs)
    then some (record { project = project; asset_path = path; version = [] })
    else none

parse_path : Text → Text → Option Reference
unfolding is_path_char span parse_version
parse_path project [] = none
parse_path project (c ∷ cs) =
    let (path, rest) = span is_path_char cs in
    if c == b'/' && not (is_empty path) then parse_version project path rest else none

parse_project : Text × Text → Option Reference
unfolding parse_path
parse_project (project, rest) = if is_empty project then none else parse_path project rest

unfoldable pub parse_reference : Text → Option Reference
unfolding span parse_project is_name_char
parse_reference [] = none
parse_reference (c ∷ cs) = if c == b'@' then parse_project (span is_name_char cs) else none
