-- ===== src/Network/Origin/Examples.antt =====
-- The service on its default ports, and a parser that knows one Host header.
use misaka_asset_gene.Prelude.{
  ◌≡◌, refl, true, false, Option, some, none, [], ◌∷◌, ◌++◌, if◌then◌else◌,
}
use misaka_asset_gene.Network.{Text, text_eq, lower}
use misaka_asset_gene.Network.Origin.{
  SplitResult, Settings, decimal, ports, port_origins, host_origins, origins, dedupe,
  resolve_allowed_origins, upper, is_state_changing, null_origin, http, host_header_matches,
  host_passes, origin_passes, dispatch,
}

abbrev settings : Settings
settings = record {
  misaka_frontend_port = 8400;
  misaka_api_port = 8401;
  allowed_origins_extra = [];
}

abbrev localhost : Text
localhost = b'l' ∷ b'o' ∷ b'c' ∷ b'a' ∷ b'l' ∷ b'h' ∷ b'o' ∷ b's' ∷ b't' ∷ []

abbrev own_host : Text
own_host = localhost ++ (b':' ∷ b'8' ∷ b'4' ∷ b'0' ∷ b'1' ∷ [])

abbrev own_split : SplitResult
own_split = record { hostname = some localhost; port = some (some 8401) }

abbrev parser : Text → Option SplitResult
parser t = if text_eq t (b'/' ∷ b'/' ∷ own_host) then some own_split else none

abbrev own_origin : Text
own_origin = http ++ (localhost ++ (b':' ∷ b'8' ∷ b'4' ∷ b'0' ∷ b'0' ∷ []))

abbrev post : Text
post = b'p' ∷ b'o' ∷ b's' ∷ b't' ∷ []

four_digits : decimal 8401 ≡ b'8' ∷ b'4' ∷ b'0' ∷ b'1' ∷ []
unfolding decimal
four_digits = refl

post_changes : is_state_changing post ≡ true
unfolding is_state_changing upper text_eq
post_changes = refl

own_request : dispatch parser settings post (some own_host) (some own_origin) ≡ true
unfolding dispatch is_state_changing upper host_passes host_header_matches origin_passes
    resolve_allowed_origins origins ports host_origins port_origins decimal dedupe text_eq lower
own_request = refl

null_is_rejected : dispatch parser settings post (some own_host) (some null_origin) ≡ false
unfolding dispatch is_state_changing upper host_passes host_header_matches origin_passes
    resolve_allowed_origins origins ports host_origins port_origins decimal dedupe text_eq lower
null_is_rejected = refl
