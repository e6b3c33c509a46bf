-- ===== src/Project/Resolve.antt =====
-- core/project/cross_project.py, `resolve_reference` and the decision of `materialize_reference`. The file
-- system is an argument: what `_find_asset_file` and `_find_external_copy` find, and where a path lies.
-- The messages are left out; so are the copy and the entry that `materialize_reference` then makes.
pub mod Recorded
pub mod Confined
use misaka_asset_gene.Prelude.{
  Bool, true, false, not, Option, none, some, List, [], ◌∷◌, ◌++◌, if◌then◌else◌,
}
use misaka_asset_gene.Dialog.{is_empty}
use misaka_asset_gene.Network.{Text, text_eq}
use misaka_asset_gene.Generation.Refine.{is_prefix}
use misaka_asset_gene.Project.References.{Reference, parse_reference}

pub data RefStatus : Type 0 where
  live outdated external broken : RefStatus

-- What is read of an entry of origins.json; an empty hash is none.
pub record OriginEntry : Type 0 where
  pub local_path : Text
  pub sha256 : Text

pub record Files (P : Type 0) : Type 0 where
  pub has_project : Text → Bool
  pub find_asset : Reference → Option P
  pub find_external : Reference → Option P
  pub in_project : Text → P → Bool
  pub in_external : P → Bool
  pub is_file : P → Bool
  pub sha256_of : P → Text
  pub origins : List OriginEntry

pub record Resolution (P : Type 0) : Type 0 where
  pub status : RefStatus
  pub path : Option P
  pub hash : Option Text
  pub origin_hash : Option Text

-- `_external/<project>/<asset_path>`.
pub external_key : Reference → Text
external_key d =
    b'_'
    ∷ b'e'
    ∷ b'x'
    ∷ b't'
    ∷ b'e'
    ∷ b'r'
    ∷ b'n'
    ∷ b'a'
    ∷ b'l'
    ∷ b'/'
    ∷ (d.project ++ (b'/' ∷ d.asset_path))

-- The hash of the first entry whose path starts with the key.
unfoldable pub origin_hash_of : Text → List OriginEntry → Option Text
origin_hash_of key [] = none
origin_hash_of key (e ∷ es) =
    let later = origin_hash_of key es in
    if is_prefix key e.local_path
    then (if is_empty e.sha256 then none else some e.sha256)
    else later

-- `origin_hash and hash != origin_hash`.
unfoldable pub is_other_hash : Option Text → Text → Bool
is_other_hash none h = false
is_other_hash (some o) h = not (text_eq h o)

-- A path that is there, passes the guard and is a file.
unfoldable pub usable : {P : Type 0} → (P → Bool) → (P → Bool) → Option P → Option P
usable within is_file none = none
usable within is_file (some p) = if within p then (if is_file p then some p else none) else none

module _ {P : Type 0} (f : Files P) where
  unfoldable pub live_path : Reference → Option P
  unfolding usable
  live_path d =
      if f.has_project d.project
      then usable (f.in_project d.project) f.is_file (f.find_asset d)
      else none

  unfoldable pub external_path : Reference → Option P
  unfolding usable
  external_path d = usable f.in_external f.is_file (f.find_external d)

  abbrev unresolved : Option Text → Option Text → Resolution P
  unresolved hash origin_hash = record {
    status = broken;
    path = none;
    hash = hash;
    origin_hash = origin_hash;
  }

  abbrev resolved : RefStatus → P → Option Text → Resolution P
  resolved status p origin_hash = record {
    status = status;
    path = some p;
    hash = some (f.sha256_of p);
    origin_hash = origin_hash;
  }

  unfoldable pub resolve_parsed : Reference → Resolution P
  unfolding live_path external_path origin_hash_of is_other_hash external_key
  resolve_parsed d =
      let origin_hash = origin_hash_of (external_key d) f.origins in
      elim (live_path d) [
        | some p ↦
            if is_other_hash origin_hash (f.sha256_of p)
            then resolved outdated p origin_hash
            else resolved live p origin_hash
        | none ↦ elim (external_path d) [
          | some p ↦
              if is_other_hash origin_hash (f.sha256_of p)
              then unresolved (some (f.sha256_of p)) origin_hash
              else resolved external p origin_hash
          | none ↦ unresolved none origin_hash
        ]
      ]

  unfoldable pub resolve_reference : Text → Resolution P
  unfolding resolve_parsed
  resolve_reference reference = elim (parse_reference reference) [
    | none ↦ unresolved none none
    | some d ↦ resolve_parsed d
  ]

pub data MaterializeStatus : Type 0 where
  materialized already_external not_materialized : MaterializeStatus

abbrev pub label_of : RefStatus → MaterializeStatus
label_of external = already_external
label_of _ = materialized

-- The status of a call that returns. A reference that resolves parses too.
unfoldable pub materialize_status : {P : Type 0} → Files P → Text → MaterializeStatus
materialize_status f reference =
    let r = resolve_reference f reference in
    elim r.path [
      | none ↦ not_materialized
      | some p ↦ elim (parse_reference reference) [
        | none ↦ not_materialized
        | some d ↦ if f.in_project d.project p then label_of r.status else not_materialized
      ]
    ]
