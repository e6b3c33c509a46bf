-- ===== src/Scheduler/Log.antt =====
-- The log of transitions: replaying its new part from the old states gives the new states.
use misaka_asset_gene.Prelude.{
  subst, String, ◌≡◌, refl, sym, ◌∙◌, ap, true, false, some, List, [], ◌∷◌, ◌++◌, arith,
  if◌then◌else◌, str_eq, eq_iff,
}
use mathlib.Core.List.{append-nil, append_assoc}
use misaka_asset_gene.Scheduler.{
  RuntimeState, active, warm, cold, ManagedModel, TransitionEvent, Scheduler, state_eq, find,
  with_state, with_last_used, write, touch,
}
use misaka_asset_gene.Scheduler.Table.{find-update}
use misaka_asset_gene.Scheduler.Steps.{find-write}
use misaka_asset_gene.Scheduler.Moves.{
  Move, to_active, to_warm, to_cold, used, clock_read, Moves, here, next,
}

-- The state of the model `k` after the events, if it was `st` before.
pub replay : String → RuntimeState → List TransitionEvent → RuntimeState
replay k st [] = st
replay k st (e ∷ es) = replay k (if str_eq e.name k then e.to_state else st) es

-- Each event leaves the state that the model had, and goes to another.
pub Chained : String → RuntimeState → List TransitionEvent → Type 0
Chained k st [] = Unit
Chained k st (e ∷ es) =
    (str_eq e.name k ≡ true → (e.from_state ≡ st) × (state_eq e.from_state e.to_state ≡ false))
    × Chained k (if str_eq e.name k then e.to_state else st) es

replay-append :
    (k : String) (st : RuntimeState) (es fs : List TransitionEvent)
    → replay k st (es ++ fs) ≡ replay k (replay k st es) fs
unfolding replay
replay-append k st [] fs = refl
replay-append k st (e ∷ es) fs = replay-append k (if str_eq e.name k then e.to_state else st) es fs

Chained-append :
    (k : String) (st : RuntimeState) (es fs : List TransitionEvent)
    → Chained k st es
    → Chained k (replay k st es) fs
    → Chained k st (es ++ fs)
unfolding replay Chained
Chained-append k st [] fs c d = d
Chained-append k st (e ∷ es) fs c d =
    (c.0, Chained-append k (if str_eq e.name k then e.to_state else st) es fs c.1 d)

-- The log of `t` goes on from that of `s` by `es`, and these account for the state of `k`.
pub record Logged (s t : Scheduler) (k : String) (st : RuntimeState) (es : List TransitionEvent)
    : Type 0 where
  pub appended : t.transitions ≡ s.transitions ++ es
  pub chained : Chained k st es
  pub state_now : (m : ManagedModel) × (find k t.models ≡ some m) × (m.state ≡ replay k st es)

Logged-none :
    (s t : Scheduler) (k : String) (m m' : ManagedModel)
    → t.transitions ≡ s.transitions
    → find k t.models ≡ some m'
    → m'.state ≡ m.state
    → Logged s t k m.state []
unfolding Chained replay
Logged-none s t k m m' e h q = record {
  appended = e ∙ sym (append-nil s.transitions);
  chained = tt;
  state_now = (m', h, q);
}

event : String → RuntimeState → RuntimeState → String → Scheduler → TransitionEvent
event k from to why s = record {
  name = k;
  from_state = from;
  to_state = to;
  reason = why;
  at = s.clock s.reads;
}

write-Logged :
    (j k why : String) (from to : RuntimeState) (s : Scheduler) (m n : ManagedModel)
    → find j s.models ≡ some n
    → n.state ≡ from
    → state_eq from to ≡ false
    → find k s.models ≡ some m
    → Logged s (write j from to why s) k m.state (event j from to why s ∷ [])
unfolding replay Chained event
write-Logged j k why from to s m n f q c h = record {
  appended = unfold write in refl;
  chained = (λ e. ground (arith, eq_iff j k), tt);
  state_now =
      (if str_eq j k then with_state to m else m, find-write j k from to why s m h, ground arith);
}

touch-Logged :
    (j k : String) (s : Scheduler) (m : ManagedModel)
    → find k s.models ≡ some m
    → Logged s (touch j s) k m.state []
touch-Logged j k s m h =
    let used_now = with_last_used (s.clock s.reads) in
    Logged-none s (touch j s) k m (if str_eq j k then used_now m else m) (unfold touch in refl)
      (unfold touch in rw (find-update j k used_now s.models (λ m. refl), h) (ground arith))
      (ground arith)

Move-Logged :
    {s t : Scheduler} (k : String) (m : ManagedModel)
    → Move s t
    → find k s.models ≡ some m
    → (es : List TransitionEvent) × Logged s t k m.state es
Move-Logged {s} k m (to_active j why from n l f q c v) h =
    (event j from active why s ∷ [], write-Logged j k why from active s m n f q c h)
Move-Logged {s} k m (to_warm j why n f a o r) h =
    (event j active warm why s ∷ [], write-Logged j k why active warm s m n f a refl h)
Move-Logged {s} k m (to_cold j why from n f q c) h =
    (event j from cold why s ∷ [], write-Logged j k why from cold s m n f q c h)
Move-Logged {s} k m (used j) h = ([], touch-Logged j k s m h)
Move-Logged {s} k m clock_read h = ([], Logged-none s _ k m m refl h refl)

Logged-trans :
    (s t u : Scheduler) (k : String) (st : RuntimeState) (es fs : List TransitionEvent)
    (m : ManagedModel)
    → t.transitions ≡ s.transitions ++ es
    → Chained k st es
    → m.state ≡ replay k st es
    → Logged t u k m.state fs
    → Logged s u k st (es ++ fs)
Logged-trans s t u k st es fs m a c q l = record {
  appended = l.appended ∙ ap (λ x. x ++ fs) a ∙ append_assoc s.transitions es fs;
  chained = Chained-append k st es fs c (subst (λ x. Chained k x fs) q l.chained);
  state_now = (
    l.state_now.0,
    l.state_now.1,
    l.state_now.2 ∙ ap (λ x. replay k x fs) q ∙ sym (replay-append k st es fs),
  );
}

-- Along any steps, the log only grows; the new part starts from the old state of each model, is a
-- chain of real changes of state, and replays to the model's new state.
pub Moves-Logged :
    {s t : Scheduler} (k : String) (m : ManagedModel)
    → Moves s t
    → find k s.models ≡ some m
    → (es : List TransitionEvent) × Logged s t k m.state es
Moves-Logged {s} k m here h = ([], Logged-none s s k m m refl h refl)
Moves-Logged {s} {t = u} k m (next {t = t} a b) h =
    let (es, l) = Moves-Logged k m a h in
    let (n, f, q) = l.state_now in
    let (fs, l') = Move-Logged k n b f in
    (es ++ fs, Logged-trans s t u k m.state es fs n l.appended l.chained q l')
