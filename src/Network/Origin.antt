-- ===== src/Network/Origin.antt =====
-- core/network/origin_guard.py: which state-changing requests the service takes. `urlsplit` is the
-- standard library's parser of URLs, as a parameter; a method is ASCII, as HTTP has it.
pub mod Rejects
mod Examples
use misaka_asset_gene.Prelude.{
  ℕ, zero, suc, ◌+◌, ◌-◌, ◌/◌, ◌%◌, Bool, true, false, not, ◌&&◌, ◌||◌, Option, none, some, List,
  [], ◌∷◌, ◌++◌, ◌==◌, leb, ltb, map, if◌then◌else◌, any,
}
use misaka_asset_gene.Network.{Text, text_eq, lower}

-- What the guard reads of a split URL: `port` is `none` where the attribute raises.
pub record SplitResult : Type 0 where
  pub hostname : Option Text
  pub port : Option (Option ℕ)

-- The settings' ports, and the origins of the environment.
pub record Settings : Type 0 where
  pub misaka_frontend_port : ℕ
  pub misaka_api_port : ℕ
  pub allowed_origins_extra : List Text

-- `str(port)`; a number has fewer digits than `suc n`.
digits : ℕ → ℕ → Text → Text
digits zero n rest = rest
digits (suc fuel) n rest =
    let more = digits fuel (n / 10) ((48 + n % 10) ∷ rest) in
    if ltb n 10 then (48 + n) ∷ rest else more

pub decimal : ℕ → Text
unfolding digits
decimal n = digits (suc n) n []

abbrev pub loopback : List Text
loopback =
    (b'1' ∷ b'2' ∷ b'7' ∷ b'.' ∷ b'0' ∷ b'.' ∷ b'0' ∷ b'.' ∷ b'1' ∷ [])
    ∷ (b'l' ∷ b'o' ∷ b'c' ∷ b'a' ∷ b'l' ∷ b'h' ∷ b'o' ∷ b's' ∷ b't' ∷ [])
    ∷ (b':' ∷ b':' ∷ b'1' ∷ [])
    ∷ []

abbrev pub url_hosts : List Text
url_hosts =
    (b'1' ∷ b'2' ∷ b'7' ∷ b'.' ∷ b'0' ∷ b'.' ∷ b'0' ∷ b'.' ∷ b'1' ∷ [])
    ∷ (b'l' ∷ b'o' ∷ b'c' ∷ b'a' ∷ b'l' ∷ b'h' ∷ b'o' ∷ b's' ∷ b't' ∷ [])
    ∷ (b'[' ∷ b':' ∷ b':' ∷ b'1' ∷ b']' ∷ [])
    ∷ []

abbrev pub http : Text
http = b'h' ∷ b't' ∷ b't' ∷ b'p' ∷ b':' ∷ b'/' ∷ b'/' ∷ []

abbrev pub tauri_host : Text
tauri_host =
    b't' ∷ b'a' ∷ b'u' ∷ b'r' ∷ b'i' ∷ b'.' ∷ b'l' ∷ b'o' ∷ b'c' ∷ b'a' ∷ b'l' ∷ b'h' ∷ b'o' ∷ b's'
    ∷ b't' ∷ []

abbrev pub tauri_default_origins : List Text
tauri_default_origins =
    (b't' ∷ b'a' ∷ b'u' ∷ b'r' ∷ b'i' ∷ b':' ∷ b'/' ∷ b'/' ∷ b'l' ∷ b'o' ∷ b'c' ∷ b'a' ∷ b'l' ∷ b'h'
      ∷ b'o' ∷ b's' ∷ b't' ∷ [])
    ∷ (http ++ tauri_host)
    ∷ (b'h' ∷ b't' ∷ b't' ∷ b'p' ∷ b's' ∷ b':' ∷ b'/' ∷ b'/' ∷ tauri_host)
    ∷ []

-- `sorted({…})` of the two ports.
pub ports : Settings → List ℕ
ports s =
    if s.misaka_frontend_port == s.misaka_api_port
    then s.misaka_api_port ∷ []
    else if ltb s.misaka_frontend_port s.misaka_api_port
    then s.misaka_frontend_port ∷ s.misaka_api_port ∷ []
    else s.misaka_api_port ∷ s.misaka_frontend_port ∷ []

pub port_origins : Text → List ℕ → List Text
unfolding decimal
port_origins host [] = []
port_origins host (p ∷ ps) = (http ++ (host ++ (b':' ∷ decimal p))) ∷ port_origins host ps

pub host_origins : List Text → List ℕ → List Text
unfolding port_origins
host_origins [] ps = []
host_origins (h ∷ hs) ps = port_origins h ps ++ host_origins hs ps

-- The origins before repetitions are removed.
pub origins : Settings → List Text
unfolding ports host_origins
origins s = host_origins url_hosts (ports s) ++ (tauri_default_origins ++ s.allowed_origins_extra)

pub dedupe : List Text → List Text → List Text
dedupe seen [] = []
dedupe seen (o ∷ os) =
    let skip = dedupe seen os in
    let keep = dedupe (o ∷ seen) os in if any (text_eq o) seen then skip else o ∷ keep

pub resolve_allowed_origins : Settings → List Text
unfolding origins dedupe
resolve_allowed_origins s = dedupe [] (origins s)

-- `request.method.upper() in STATE_CHANGING_METHODS`.
pub upper : Text → Text
upper t = map (λ c. if leb 97 c && leb c 122 then c - 32 else c) t

pub is_state_changing : Text → Bool
unfolding upper
is_state_changing m = any (text_eq (upper m)) (
    (b'P' ∷ b'O' ∷ b'S' ∷ b'T' ∷ [])
    ∷ (b'P' ∷ b'U' ∷ b'T' ∷ [])
    ∷ (b'P' ∷ b'A' ∷ b'T' ∷ b'C' ∷ b'H' ∷ [])
    ∷ (b'D' ∷ b'E' ∷ b'L' ∷ b'E' ∷ b'T' ∷ b'E' ∷ [])
    ∷ [])

abbrev pub null_origin : Text
null_origin = b'n' ∷ b'u' ∷ b'l' ∷ b'l' ∷ []

abbrev pub or_empty : Option Text → Text
or_empty none = []
or_empty (some t) = t

abbrev pub port_or_default : Option ℕ → ℕ
port_or_default none = 80
port_or_default (some p) = p

module _ (urlsplit : Text → Option SplitResult) where
  pub host_header_matches : Text → ℕ → Bool
  host_header_matches host required = elim (urlsplit (b'/' ∷ b'/' ∷ host)) [
    | none ↦ false
    | some r ↦ elim r.port [
      | none ↦ false
      | some p ↦
          any (text_eq (lower (or_empty r.hostname))) loopback && (port_or_default p == required)
    ]
  ]

  pub host_passes : Settings → Option Text → Bool
  unfolding host_header_matches
  host_passes s none = true
  host_passes s (some h) = host_header_matches h s.misaka_api_port

  pub origin_passes : Settings → Option Text → Bool
  unfolding resolve_allowed_origins
  origin_passes s none = true
  origin_passes s (some o) =
      not (text_eq o null_origin) && any (text_eq o) (resolve_allowed_origins s)

  -- Whether `dispatch` hands the request on.
  pub dispatch : Settings → Text → Option Text → Option Text → Bool
  unfolding is_state_changing host_passes origin_passes
  dispatch s method host origin =
      if is_state_changing method then host_passes s host && origin_passes s origin else true
