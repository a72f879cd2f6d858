-- ===== src/Upgrade/Rolling/Results.antt =====
-- internal/upgrade/orchestrator.go: the results that `RollingUpgrade` returns.
use eth_node_operator.Common.{
  ℕ, zero, suc, ◌+◌, ◌≤◌, String, ◌≡◌, ◌≢◌, refl, ap, true, some, List, [], ◌∷◌, ◌++◌, map, arith,
  length, if◌then◌else◌, ◌==◌, Option-cases, inl, inr,
}
use eth_node_operator.Types.{UpgradeRequest}
use eth_node_operator.Upgrade.{UpgradeNodeResult}
use eth_node_operator.Upgrade.Rolling.{
  Rollout, Phase, looping, placing, draining, returned, Event, advance, cancel, release, finish,
  in_use, pick, capacity, begin, step, main_round, Reach, Undisturbed, unknown_node, contains_name,
}
use eth_node_operator.Upgrade.Rolling.Bounds.{length-pick, capacity_pos}

abbrev pub count : String → List String → ℕ
count name [] = 0
count name (n ∷ names) = (if n == name then 1 else 0) + count name names

abbrev pub names : List UpgradeNodeResult → List String
names results = map (λ r. r.node_name) results

count-append :
    (name : String) (xs ys : List String) → count name (xs ++ ys) ≡ count name xs + count name ys
count-append name [] ys = omega arith
count-append name (x ∷ xs) ys = omega (arith, count-append name xs ys)

names-append : (xs ys : List UpgradeNodeResult) → names (xs ++ ys) ≡ names xs ++ names ys
names-append [] ys = refl
names-append (x ∷ xs) ys = rw (names-append xs ys)

count-add :
    (name : String) (results : List UpgradeNodeResult) (r : UpgradeNodeResult)
    → count name (names (results ++ r ∷ []))
      ≡ count name (names results) + (if r.node_name == name then 1 else 0)
count-add name results r = rw names-append (rw count-append (omega arith))

count-pick :
    (name : String) (i : ℕ) (xs rest : List String) (x : String)
    → pick i xs ≡ some (x, rest)
    → (if x == name then 1 else 0) + count name rest ≡ count name xs
count-pick name i [] rest x h = cc
count-pick name zero (y ∷ ys) rest x h = ground arith
count-pick name (suc i) (y ∷ ys) rest x h = elim (Option-cases (pick i ys)) [
  | inl e ↦ cc (rw e at h)
  | inr ((z, zs), e) ↦ ground (arith, count-pick name i ys zs z e, rw e at h)
]

-- How often a node is pending, running or has a result.
abbrev total : String → Rollout → ℕ
total name s = count name (names s.results) + count name s.running + count name s.pending

-- Once it has returned, with the context not ended, the rolling upgrade has nothing left to do.
record IsSettled (cap : ℕ) (s : Rollout) : Type 0 where
  fits : in_use s ≤ cap
  drains : s.phase ≡ draining → s.pending ≡ []
  done :
      (rs : List UpgradeNodeResult)
      → s.phase ≡ returned rs
      → (s.pending ≡ []) × (s.running ≡ []) × (s.results ≡ rs)

length-zero : (xs : List String) → length xs ≡ 0 → xs ≡ []
length-zero [] h = refl
length-zero (x ∷ xs) h = ground (arith, h)

module _ (known : List String) (cap : ℕ) where
  total-main_round :
      (name : String) (p : Phase) (pending : List String) (s t : Rollout)
      → s.pending ≡ pending
      → main_round known cap p s ≡ some t
      → total name t ≡ total name s
  unfolding main_round
  total-main_round name looping [] s t e h = ground arith
  total-main_round name looping (n ∷ ns) s t e h = ground arith
  total-main_round name placing [] s t e h = ground arith
  total-main_round name placing (n ∷ ns) s t e h =
      ground (arith, count-add name s.results (unknown_node n))
  total-main_round name draining pending s t e h = ground arith
  total-main_round name (returned rs) pending s t e h = ground arith

  total-step :
      (name : String) (e : Event) (s t : Rollout)
      → step known cap e s ≡ some t
      → total name t ≡ total name s
  unfolding step
  total-step name advance s t h = total-main_round name s.phase s.pending s t refl h
  total-step name cancel s t h = ground arith
  total-step name release s t h = ground arith
  total-step name (finish i actions error) s t h = elim (Option-cases (pick i s.running)) [
    | inl e ↦ cc (rw e at h)
    | inr ((n, rest), e) ↦ ground (
      arith,
      count-pick name i s.running rest n e,
      count-add name s.results (record { node_name = n; actions = actions; error = error }),
      rw e at h,
    )
  ]

  main_round-IsSettled :
      (p : Phase) (pending : List String) (s t : Rollout)
      → s.phase ≡ p
      → s.pending ≡ pending
      → main_round known cap p s ≡ some t
      → IsSettled cap s
      → IsSettled cap t
  unfolding main_round
  main_round-IsSettled looping [] s t ep e h b = ground arith
  main_round-IsSettled looping (n ∷ ns) s t ep e h b = ground arith
  main_round-IsSettled placing [] s t ep e h b = ground arith
  main_round-IsSettled placing (n ∷ ns) s t ep e h b = ground arith
  main_round-IsSettled draining pending s t ep e h b =
      ground (arith, length-zero s.running, b.drains ep, b.fits)
  main_round-IsSettled (returned rs) pending s t ep e h b = ground arith

  step-IsSettled :
      (e : Event) (s t : Rollout)
      → e ≢ cancel
      → step known cap e s ≡ some t
      → IsSettled cap s
      → IsSettled cap t
  unfolding step
  step-IsSettled advance s t c h b = main_round-IsSettled s.phase s.pending s t refl refl h b
  step-IsSettled cancel s t c h b = absurd (c refl)
  step-IsSettled release s t c h b = ground arith
  step-IsSettled (finish i actions error) s t c h b = elim (Option-cases (pick i s.running)) [
    | inl e ↦ cc (rw e at h)
    | inr ((n, rest), e) ↦
        ground
          (arith, length-pick i s.running rest n e, ap length {x = s.running} {y = []}, rw e at h)
  ]

  Undisturbed-IsSettled :
      (start : Rollout) {s : Rollout}
      → IsSettled cap start
      → Undisturbed known cap start s
      → IsSettled cap s
  Undisturbed-IsSettled start b Undisturbed.here = b
  Undisturbed-IsSettled start b (Undisturbed.next {s = s} {t = t} e c r h) =
      step-IsSettled e s t c h (Undisturbed-IsSettled start b r)

  reach-total :
      (name : String) (start : Rollout) {s : Rollout}
      → Undisturbed known cap start s
      → total name s ≡ total name start
  reach-total name start Undisturbed.here = refl
  reach-total name start (Undisturbed.next {s = s} {t = t} e c r h) =
      omega (arith, total-step name e s t h, reach-total name start r)

settled_total :
    (name : String) (s : Rollout) (rs : List UpgradeNodeResult)
    → (s.pending ≡ []) × (s.running ≡ []) × (s.results ≡ rs)
    → count name (names rs) ≡ total name s
settled_total name s rs (p, q, r) = ground (
  arith,
  ap (count name) {x = s.pending} {y = []},
  ap (count name) {x = s.running} {y = []},
  ap (λ (r : List UpgradeNodeResult). count name (names r)) {x = s.results} {y = rs},
)

begin-IsSettled : (req : UpgradeRequest) → IsSettled (capacity req) (begin req)
begin-IsSettled req = ground arith

-- When the context does not end, a rolling upgrade that returns has a result for each node of the request, as
-- often as the request names it, and no other.
pub count-results :
    (known : List String) (req : UpgradeRequest) {s : Rollout} (rs : List UpgradeNodeResult)
    (name : String)
    → Undisturbed known (capacity req) (begin req) s
    → s.phase ≡ returned rs
    → count name (names rs) ≡ count name req.nodes
count-results known req {s} rs name r h = omega (
  arith,
  settled_total name s rs
      ((Undisturbed-IsSettled known (capacity req) (begin req) (begin-IsSettled req) r).done rs h),
  reach-total known (capacity req) name (begin req) r,
)

-- The state in which the main goroutine pauses before the second node.
abbrev paused : UpgradeRequest → String → List String → Rollout
paused req first others = record (begin req) {
  started = true;
  pending = others;
  running = first ∷ [];
}

module _ (known : List String) (req : UpgradeRequest) (first second : String)
    (rest : List String) where
  looping_first :
      req.nodes ≡ first ∷ second ∷ rest
      → step known (capacity req) advance (begin req)
        ≡ some (record (begin req) { phase = placing })
  unfolding step
  looping_first e = rw e refl

  placing_first :
      req.nodes ≡ first ∷ second ∷ rest
      → contains_name first known ≡ true
      → step known (capacity req) advance (record (begin req) { phase = placing })
        ≡ some (paused req first (second ∷ rest))
  unfolding step
  placing_first e k = rw e (ground (arith, capacity_pos req))

  cancel_paused :
      step known (capacity req) cancel (paused req first (second ∷ rest))
      ≡ some (record (paused req first (second ∷ rest)) { phase = returned [] })
  unfolding step
  cancel_paused = refl

  -- Where the context ends during the pause before the second node, `RollingUpgrade` can return no result at
  -- all, while the upgrade of the first node is still running.
  cancel_returns_early :
      req.nodes ≡ first ∷ second ∷ rest
      → contains_name first known ≡ true
      → (s : Rollout) × Reach known (capacity req) (begin req) s
        × (s.phase ≡ returned [])
        × (s.running ≡ first ∷ [])
  cancel_returns_early e k = (
    record (paused req first (second ∷ rest)) { phase = returned [] },
    Reach.next cancel
        (Reach.next advance (Reach.next advance Reach.here (looping_first e)) (placing_first e k))
        cancel_paused,
    refl,
    refl,
  )
