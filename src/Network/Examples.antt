-- ===== src/Network/Examples.antt =====
-- A service whose cloud probe fails while a local backend answers.
use misaka_asset_gene.Dialog.{is_space}
use misaka_asset_gene.Prelude.{◌≡◌, refl, true, false, [], ◌∷◌}
use misaka_asset_gene.Network.{
  auto, always_online, degraded, Text, ProbeFn, new_service, resolve_mode, resolve_state, strip,
  lower, text_eq, is_http, cloud_targets, local_up, snapshot,
}

abbrev down : ProbeFn
down urls = false

abbrev up : ProbeFn
up urls = true

abbrev local_url : Text
local_url = b'h' ∷ b't' ∷ b't' ∷ b'p' ∷ []

-- " Always_Online ", with a space around it.
abbrev padded : Text
padded =
    32 ∷ b'A' ∷ b'l' ∷ b'w' ∷ b'a' ∷ b'y' ∷ b's' ∷ b'_' ∷ b'O' ∷ b'n' ∷ b'l' ∷ b'i' ∷ b'n' ∷ b'e'
    ∷ 32 ∷ []

padded_mode : resolve_mode padded ≡ always_online
unfolding resolve_mode strip lower text_eq is_space
padded_mode = refl

unknown_mode : resolve_mode local_url ≡ auto
unfolding resolve_mode strip lower text_eq is_space
unknown_mode = refl

http_only : cloud_targets [] ([] ∷ local_url ∷ []) ≡ local_url ∷ []
unfolding cloud_targets is_http
http_only = refl

degraded_state :
    (snapshot [] down up [] (local_url ∷ []) (local_url ∷ []) new_service).0.state ≡ degraded
unfolding snapshot resolve_mode resolve_state strip lower text_eq local_up cloud_targets
degraded_state = refl
