-- ===== src/Network/Origin/Rejects.antt =====
-- Requests that the guard turns away.
use misaka_asset_gene.Prelude.{ℕ, Option-cases, ◌≡◌, inl, inr, true, Option, some, ◌∷◌, arith, any}
use misaka_asset_gene.Network.{Text, text_eq, lower}
use misaka_asset_gene.Network.Origin.{
  SplitResult, Settings, is_state_changing, loopback, or_empty, port_or_default, host_passes,
  host_header_matches, dispatch,
}

module _ (urlsplit : Text → Option SplitResult) where
  host_header_matches_parts :
      (host : Text) (required : ℕ)
      → host_header_matches urlsplit host required ≡ true
      → (r : SplitResult) × (p : Option ℕ) × (urlsplit (b'/' ∷ b'/' ∷ host) ≡ some r)
        × (r.port ≡ some p)
        × (any (text_eq (lower (or_empty r.hostname))) loopback ≡ true)
        × (port_or_default p ≡ required)
  unfolding host_header_matches
  host_header_matches_parts host required d = elim (Option-cases (urlsplit (b'/' ∷ b'/' ∷ host))) [
    | inl e ↦ (let d' = rw (e, host_header_matches) at d in cc)
    | inr (r, e) ↦ elim (Option-cases r.port) [
      | inl q ↦ (let d' = rw (e, q, host_header_matches) at d in cc)
      | inr (p, q) ↦
          let d' = rw (e, q, host_header_matches) at d in
          (r, p, e, q, ground (arith, d'), ground (arith, d'))
    ]
  ]

  -- A state-changing request with a Host is taken only when that names this machine and the service's
  -- port, where a Host without a port stands for port 80.
  pub dispatch_host :
      (s : Settings) (method host : Text) (origin : Option Text)
      → is_state_changing method ≡ true
      → dispatch urlsplit s method (some host) origin ≡ true
      → (r : SplitResult) × (p : Option ℕ) × (urlsplit (b'/' ∷ b'/' ∷ host) ≡ some r)
        × (r.port ≡ some p)
        × (any (text_eq (lower (or_empty r.hostname))) loopback ≡ true)
        × (port_or_default p ≡ s.misaka_api_port)
  unfolding dispatch host_passes
  dispatch_host s method host origin h d =
      host_header_matches_parts host s.misaka_api_port (ground (arith, h, d))
