-- ===== src/Network/Gate.antt =====
-- What the network state lets through, and the log of its transitions.
use misaka_asset_gene.Prelude.{
  ℕ, suc, zero, ap, ◌≤◌, ◌≡◌, refl, inl, inr, ◌⊎◌, ◌↔◌, true, Option, none, some, List, [], ◌∷◌,
  arith, Bool-cases, length, take, length-take-le,
}
use misaka_asset_gene.Network.{
  NetworkMode, auto, always_offline, always_online, NetworkState, online, Text, ProbeFn, state_eq,
  resolve_mode, resolve_state, cloud_targets, NetworkTransition, NetworkService, is_last,
  max_transition_history, record_transition, snapshot, provider_allowed,
}

online_iff :
    (fallback : List Text) (cloud local : ProbeFn) (mode : NetworkMode)
    (providers locals : List Text)
    → (state_eq (resolve_state fallback cloud local mode providers locals) online ≡ true) ↔ (
        (mode ≡ always_online)
        ⊎ ((mode ≡ auto) × (cloud (cloud_targets fallback providers) ≡ true)))
unfolding resolve_state
online_iff fallback cloud local always_online providers locals = (λ e. inl refl, λ h. refl)
online_iff fallback cloud local always_offline providers locals =
    (λ e. ground (arith, e), λ h. ground (arith, h))
online_iff fallback cloud local auto providers locals =
    (λ e. inr (refl, ground (arith, e)), λ h. ground (arith, h))

-- A cloud provider is let through by a snapshot exactly where the mode forces it, or where the mode is
-- `auto` and the cloud probe answers.
pub cloud_allowed_iff :
    (fallback : List Text) (cloud local : ProbeFn) (value : Text) (providers locals : List Text)
    (s : NetworkService)
    → (provider_allowed true (snapshot fallback cloud local value providers locals s).0.state
        ≡ true)
      ↔ ((resolve_mode value ≡ always_online)
          ⊎ ((resolve_mode value ≡ auto) × (cloud (cloud_targets fallback providers) ≡ true)))
unfolding provider_allowed snapshot resolve_state
cloud_allowed_iff fallback cloud local value providers locals s =
    online_iff fallback cloud local (resolve_mode value) providers locals

-- The log: its first entry leads to the last state, and each entry starts where the one before it ended.
abbrev pub Linked : Option NetworkState → List NetworkTransition → Type 0
Linked last [] = Unit
Linked last (t ∷ ts) = (last ≡ some t.to_state) × Linked t.from_state ts

Linked-take :
    (n : ℕ) (last : Option NetworkState) (ts : List NetworkTransition)
    → Linked last ts
    → Linked last (take n ts)
Linked-take zero last ts h = tt
Linked-take (suc n) last [] h = tt
Linked-take (suc n) last (t ∷ ts) h = (h.0, Linked-take n t.from_state ts h.1)

is_last-some :
    (last : Option NetworkState) (st : NetworkState) → is_last last st ≡ true → last ≡ some st
is_last-some none st h = cc
is_last-some (some l) st h = ap some (same l st h)
  where
    same : (a b : NetworkState) → state_eq a b ≡ true → a ≡ b
    same a b h = ground (arith, h)

record_transition-Linked :
    (mode : NetworkMode) (st : NetworkState) (s : NetworkService)
    → Linked s.last_state s.transitions
    → length s.transitions ≤ max_transition_history
    → let r = record_transition mode st s in
      Linked r.last_state r.transitions
      × (length r.transitions ≤ max_transition_history)
      × (r.last_state ≡ some st)
unfolding record_transition
record_transition-Linked mode st s h b = elim (Bool-cases (is_last s.last_state st)) [
  | inl e ↦ rw e (h, b, is_last-some s.last_state st e)
  | inr e ↦
      let t : NetworkTransition = record {
        mode = mode;
        from_state = s.last_state;
        to_state = st;
      } in
      rw e (
        Linked-take 20 (some st) (t ∷ s.transitions) (refl, h),
        length-take-le 20 (t ∷ s.transitions),
        refl,
      )
]

-- A snapshot keeps a log of transitions linked (each starts in the state where the one before it ended)
-- and within twenty entries, and the snapshot's state becomes the last one.
pub snapshot-Linked :
    (fallback : List Text) (cloud local : ProbeFn) (value : Text) (providers locals : List Text)
    (s : NetworkService)
    → Linked s.last_state s.transitions
    → length s.transitions ≤ max_transition_history
    → let r = snapshot fallback cloud local value providers locals s in
      Linked r.1.last_state r.1.transitions
      × (length r.1.transitions ≤ max_transition_history)
      × (r.1.last_state ≡ some r.0.state)
unfolding snapshot
snapshot-Linked fallback cloud local value providers locals s h b =
    record_transition-Linked (resolve_mode value)
      (resolve_state fallback cloud local (resolve_mode value) providers locals) s h b
