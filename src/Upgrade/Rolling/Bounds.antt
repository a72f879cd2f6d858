-- ===== src/Upgrade/Rolling/Bounds.antt =====
-- internal/upgrade/orchestrator.go: how many nodes `RollingUpgrade` upgrades at a time, and that it can
-- always go on.
use eth_node_operator.Common.{
  ℕ, zero, suc, ◌+◌, ◌≤◌, ◌<◌, String, ◌≡◌, ◌≢◌, refl, false, none, some, List, [], ◌∷◌, arith,
  is_empty, length, ltb, ltb→lt, Bool-cases, ◌⊎◌, inl, inr, Option-cases,
}
use Prim.Native.Nat.{max}
use eth_node_operator.Upgrade.{UpgradeNodeResult}
use eth_node_operator.Types.{UpgradeRequest}
use eth_node_operator.Upgrade.Rolling.{
  Rollout, Phase, looping, placing, draining, returned, Event, advance, cancel, release, finish,
  in_use, pick, to_capacity, capacity, begin, step, Reach,
}

pub length-pick :
    (i : ℕ) (xs rest : List String) (x : String)
    → pick i xs ≡ some (x, rest)
    → length rest + 1 ≡ length xs
length-pick i [] rest x h = cc
length-pick zero (y ∷ ys) rest x h = ground arith
length-pick (suc i) (y ∷ ys) rest x h = elim (Option-cases (pick i ys)) [
  | inl e ↦ cc (rw e at h)
  | inr ((z, zs), e) ↦ ground (arith, length-pick i ys zs z e, rw e at h)
]

-- The places in use never pass the capacity, and the main goroutine takes places only at the end.
record IsBounded (cap : ℕ) (s : Rollout) : Type 0 where
  fits : in_use s ≤ cap
  loop_takes : s.phase ≡ looping → s.taken ≡ 0
  place_takes : s.phase ≡ placing → s.taken ≡ 0
  places_one : s.phase ≡ placing → is_empty s.pending ≡ false

module _ (known : List String) (cap : ℕ) where
  step-IsBounded :
      (e : Event) (s t : Rollout) → step known cap e s ≡ some t → IsBounded cap s → IsBounded cap t
  unfolding step
  step-IsBounded advance s t h b = ground arith
  step-IsBounded cancel s t h b = ground arith
  step-IsBounded release s t h b = ground arith
  step-IsBounded (finish i actions error) s t h b = elim (Option-cases (pick i s.running)) [
    | inl e ↦ cc (rw e at h)
    | inr ((name, rest), e) ↦ ground (arith, length-pick i s.running rest name e, rw e at h)
  ]

  Reach-IsBounded :
      (start : Rollout) {s : Rollout}
      → IsBounded cap start
      → Reach known cap start s
      → IsBounded cap s
  Reach-IsBounded start b Reach.here = b
  Reach-IsBounded start b (Reach.next {s = s} {t = t} e r h) =
      step-IsBounded e s t h (Reach-IsBounded start b r)

begin-IsBounded : (req : UpgradeRequest) → IsBounded (capacity req) (begin req)
begin-IsBounded req = ground arith

capacity_lem : (req : UpgradeRequest) → capacity req ≡ max (to_capacity req.max_unavailable) 1
unfolding capacity
capacity_lem req = ground arith

pub capacity_pos : (req : UpgradeRequest) → 0 < capacity req
capacity_pos req = omega (arith, capacity_lem req)

-- Whatever the schedule, at most `max_unavailable` nodes are being upgraded at a time, and at most one where
-- the request allows less than one.
pub running-le-max_unavailable :
    (known : List String) (req : UpgradeRequest) {s : Rollout}
    → Reach known (capacity req) (begin req) s
    → length s.running ≤ max (to_capacity req.max_unavailable) 1
running-le-max_unavailable known req {s} r = omega (
  arith,
  capacity_lem req,
  (Reach-IsBounded known (capacity req) (begin req) (begin-IsBounded req) r).fits,
)

-- Some event is possible.
abbrev pub CanGoOn : List String → ℕ → Rollout → Type 0
CanGoOn known cap s = (e : Event) × (t : Rollout) × (step known cap e s ≡ some t)

module _ (known : List String) (cap : ℕ) (s : Rollout) where
  can_step : (e : Event) → step known cap e s ≢ none → CanGoOn known cap s
  can_step e h = elim (Option-cases (step known cap e s)) [
    | inl e0 ↦ absurd (h e0)
    | inr (t, e1) ↦ (e, t, e1)
  ]

  finish-ne-none :
      (running : List String)
      → s.running ≡ running
      → is_empty running ≡ false
      → step known cap (finish 0 [] none) s ≢ none
  unfolding step
  finish-ne-none [] e h = cc
  finish-ne-none (name ∷ rest) e h = rw e (cc)

  release-ne-none : 0 < s.releasing → step known cap release s ≢ none
  unfolding step
  release-ne-none h = ground arith

  -- A goroutine that is not the main one can go on while it has a place.
  workers_go_on : 0 < length s.running + s.releasing → CanGoOn known cap s
  workers_go_on h = elim (Bool-cases (is_empty s.running)) [
    | inl idle ↦ can_step release (release-ne-none (ground arith))
    | inr busy ↦ can_step (finish 0 [] none) (finish-ne-none s.running refl busy)
  ]

  looping_goes_on : s.phase ≡ looping → step known cap advance s ≢ none
  unfolding step
  looping_goes_on e = ground arith

  placing_goes_on :
      s.phase ≡ placing
      → is_empty s.pending ≡ false
      → in_use s < cap
      → step known cap advance s ≢ none
  unfolding step
  placing_goes_on e p h = ground arith

  draining_goes_on :
      s.phase ≡ draining → (s.taken ≡ cap) ⊎ (in_use s < cap) → step known cap advance s ≢ none
  unfolding step
  draining_goes_on e h = ground arith

  goes_on :
      (p : Phase)
      → s.phase ≡ p
      → IsBounded cap s
      → 0 < cap
      → ((rs : List UpgradeNodeResult) × (s.phase ≡ returned rs)) ⊎ CanGoOn known cap s
  goes_on looping e b h = inr (can_step advance (looping_goes_on e))
  goes_on placing e b h = elim (Bool-cases (ltb (in_use s) cap)) [
    | inl room ↦
        inr (can_step advance (placing_goes_on e (b.places_one e) (ltb→lt (in_use s) cap room)))
    | inr full ↦ inr (workers_go_on (ground (arith, b.place_takes e)))
  ]
  goes_on draining e b h = elim (Bool-cases (ltb 0 (length s.running + s.releasing))) [
    | inl busy ↦ inr (workers_go_on (ltb→lt 0 (length s.running + s.releasing) busy))
    | inr idle ↦ inr (can_step advance (draining_goes_on e (ground (arith, b.fits))))
  ]
  goes_on (returned rs) e b h = inl (rs, e)

-- The rolling upgrade never gets stuck: until it has returned, some goroutine can go on.
pub progress :
    (known : List String) (req : UpgradeRequest) {s : Rollout}
    → Reach known (capacity req) (begin req) s
    → ((rs : List UpgradeNodeResult) × (s.phase ≡ returned rs))
      ⊎ ((e : Event) × (t : Rollout) × (step known (capacity req) e s ≡ some t))
progress known req {s} r =
    goes_on known (capacity req) s s.phase refl
      (Reach-IsBounded known (capacity req) (begin req) (begin-IsBounded req) r) (capacity_pos req)
