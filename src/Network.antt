-- ===== src/Network.antt =====
-- core/network/service.py and state.py: the mode that the user selects, the state that it gives with
-- what the probes report, and the log of transitions. A text is its code points. A probe is a
-- function of the URLs for the length of one call; the log carries no times.
pub mod Texts
pub mod Gate
pub mod Origin
mod Examples
use misaka_asset_gene.Prelude.{
  ℕ, ◌+◌, Bool, true, false, not, ◌&&◌, ◌||◌, Option, none, some, List, [], ◌∷◌, ◌==◌, leb, map,
  if◌then◌else◌, select, take, String,
}
use misaka_asset_gene.Dialog.{is_space, is_empty}

pub data NetworkMode : Type 0 where
  auto always_offline always_online : NetworkMode

pub data NetworkState : Type 0 where
  online degraded offline : NetworkState

abbrev pub Text : Type 0
Text = List ℕ

abbrev pub ProbeFn : Type 0
ProbeFn = List Text → Bool

abbrev pub state_eq : NetworkState → NetworkState → Bool
state_eq online online = true
state_eq degraded degraded = true
state_eq offline offline = true
state_eq _ _ = false

-- `str.strip`.
lstrip : Text → Text
lstrip [] = []
lstrip (c ∷ cs) = if is_space c then lstrip cs else c ∷ cs

rstrip : Text → Text
rstrip [] = []
rstrip (c ∷ cs) = let rest = rstrip cs in if is_space c && is_empty rest then [] else c ∷ rest

unfoldable pub strip : Text → Text
unfolding lstrip rstrip
strip t = rstrip (lstrip t)

-- `str.lower` on the Latin capitals. No other character's lower case is a letter of a mode's name.
unfoldable pub lower : Text → Text
lower t = map (λ c. if leb 65 c && leb c 90 then c + 32 else c) t

unfoldable pub text_eq : Text → Text → Bool
text_eq [] [] = true
text_eq (c ∷ cs) (d ∷ ds) = (c == d) && text_eq cs ds
text_eq _ _ = false

abbrev pub auto_text : Text
auto_text = b'a' ∷ b'u' ∷ b't' ∷ b'o' ∷ []

abbrev pub always_offline_text : Text
always_offline_text =
    b'a' ∷ b'l' ∷ b'w' ∷ b'a' ∷ b'y' ∷ b's' ∷ b'_' ∷ b'o' ∷ b'f' ∷ b'f' ∷ b'l' ∷ b'i' ∷ b'n' ∷ b'e'
    ∷ []

abbrev pub always_online_text : Text
always_online_text =
    b'a' ∷ b'l' ∷ b'w' ∷ b'a' ∷ b'y' ∷ b's' ∷ b'_' ∷ b'o' ∷ b'n' ∷ b'l' ∷ b'i' ∷ b'n' ∷ b'e' ∷ []

-- `NetworkMode(…)`, where a text that names no mode is `auto`.
pub resolve_mode : Text → NetworkMode
unfolding strip lower text_eq
resolve_mode value =
    let v = lower (strip value) in
    if text_eq v always_offline_text
    then always_offline
    else if text_eq v always_online_text
    then always_online
    else auto

-- `url.startswith("http")`.
pub is_http : Text → Bool
is_http (a ∷ b ∷ c ∷ d ∷ rest) = (a == b'h') && (b == b't') && (c == b't') && (d == b'p')
is_http _ = false

-- The probe of the local backends: nothing is probed where none is configured.
pub local_up : ProbeFn → List Text → Bool
local_up probe [] = false
local_up probe (u ∷ us) = probe (u ∷ us)

abbrev pub degraded_or_offline : Bool → NetworkState
degraded_or_offline up = if up then degraded else offline

-- The targets of the cloud probe; `fallback` is the source's list of two public sites.
pub cloud_targets : List Text → List Text → List Text
unfolding is_http
cloud_targets fallback urls = elim (select is_http urls) [ [] ↦ fallback | u ∷ us ↦ u ∷ us ]

pub resolve_state :
    List Text → ProbeFn → ProbeFn → NetworkMode → List Text → List Text → NetworkState
unfolding local_up cloud_targets
resolve_state fallback cloud local always_online providers locals = online
resolve_state fallback cloud local always_offline providers locals =
    degraded_or_offline (local_up local locals)
resolve_state fallback cloud local auto providers locals =
    if cloud (cloud_targets fallback providers)
    then online
    else degraded_or_offline (local_up local locals)

pub record NetworkTransition : Type 0 where
  pub mode : NetworkMode
  pub from_state : Option NetworkState
  pub to_state : NetworkState

pub record NetworkSnapshot : Type 0 where
  pub mode : NetworkMode
  pub state : NetworkState
  pub reachable : Bool
  pub local_available : Bool
  pub recent_transitions : List NetworkTransition

pub record NetworkService : Type 0 where
  pub last_state : Option NetworkState
  pub transitions : List NetworkTransition

abbrev pub max_transition_history : ℕ
max_transition_history = 20

abbrev pub new_service : NetworkService
new_service = record { last_state = none; transitions = [] }

abbrev pub is_last : Option NetworkState → NetworkState → Bool
is_last none st = false
is_last (some last) st = state_eq last st

-- `deque(maxlen=…).appendleft`: the oldest entry falls out on the right.
pub record_transition : NetworkMode → NetworkState → NetworkService → NetworkService
record_transition mode st s = if is_last s.last_state st then s else (record {
  last_state = some st;
  transitions =
      take max_transition_history
        (record { mode = mode; from_state = s.last_state; to_state = st } ∷ s.transitions);
})

pub snapshot :
    List Text
    → ProbeFn
    → ProbeFn
    → Text
    → List Text
    → List Text
    → NetworkService
    → NetworkSnapshot × NetworkService
unfolding resolve_mode resolve_state record_transition
snapshot fallback cloud local value providers locals s =
    let mode = resolve_mode value in
    let st = resolve_state fallback cloud local mode providers locals in
    let s' = record_transition mode st s in
    (
      record {
        mode = mode;
        state = st;
        reachable = state_eq st online;
        local_available = state_eq st online || state_eq st degraded;
        recent_transitions = s'.transitions;
      },
      s',
    )

pub provider_allowed : Bool → NetworkState → Bool
provider_allowed true st = state_eq st online
provider_allowed false st = true
