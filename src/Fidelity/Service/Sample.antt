-- ===== src/Fidelity/Service/Sample.antt =====
-- A loop of four rounds whose second asset passes, and an outside that always answers.
use Prim.Native.Char.{Char}
use misaka_asset_gene.Prelude.{
  ℕ, zero, suc, String, true, none, some, [], ◌∷◌, str_eq, if◌then◌else◌, ok,
}
use misaka_asset_gene.Prelude.Int.{pos}
use misaka_asset_gene.Fidelity.{Verdict, pass, fail, CheckResult, awaiting_user}
use misaka_asset_gene.Fidelity.Store.{Loop, LoopRound}
use misaka_asset_gene.Fidelity.Service.{Io, World}

abbrev pub mark : Char
mark = "i"

-- The id of a call: as many marks as calls before it.
abbrev pub id_of : ℕ → String
id_of zero = String.[]
id_of (suc n) = String.◌∷◌ mark (id_of n)

abbrev pub result : Verdict → CheckResult
result v = record { id = "hair"; confidence = 90; region_bbox = none; verdict = v }

abbrev pub outside : Io
outside = record {
  casefold = λ t. t;
  new_id = id_of;
  get_project = λ n p. ok tt;
  character_sheet = λ n p i.
      if str_eq i "c"
      then ok (some (record { id = "c"; sheet_source_path = some "c.md" }))
      else ok none;
  parse_checks = λ n path variant mode. ok [];
  read_asset_image = λ n a. ok (64, 64);
  critique = λ n a c. ok (result (if str_eq a "a1" then pass else fail) ∷ []);
  build_mask = λ n p a q. ok "m";
  inherited_negative = λ n a. ok none;
  refine = λ n p a q. ok ("a1", "j");
}

abbrev pub loop : Loop
loop = record {
  id = "l";
  project_id = "p";
  root_asset_id = "a0";
  character_sheet_id = "c";
  outfit_variant = "casual";
  status = awaiting_user;
  current_round = 0;
  max_rounds = 4;
  best_asset_id = "a0";
  best_pass_count = pos 0;
  auto_continue = true;
  mode = "default";
  last_error = none;
  created_at = 0;
  updated_at = 1;
}

abbrev pub baseline : LoopRound
baseline = record {
  id = id_of 0;
  loop_id = "l";
  round_index = 0;
  asset_id = "a0";
  critic_results = result fail ∷ [];
  pass_count = 0;
  fail_count = 1;
  mask_asset_id = none;
  refine_job_id = none;
  created_at = 1;
}

abbrev pub world : World
world = record {
  store = record { loops = loop ∷ []; rounds = baseline ∷ []; clock = λ n. n; reads = 2 };
  locks = [];
  calls = 3;
}
