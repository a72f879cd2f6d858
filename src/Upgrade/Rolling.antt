-- ===== src/Upgrade/Rolling.antt =====
-- internal/upgrade/orchestrator.go: `RollingUpgrade`, which upgrades many nodes at a time. The main
-- goroutine and the goroutines of the upgrades interleave: a schedule says who goes on, and what the upgrade of
-- a node has come to.
pub mod Bounds
pub mod Results
mod Tests
use eth_node_operator.Common.{
  ℕ, zero, suc, ◌+◌, String, ◌<>◌, Bool, true, false, Option, none, some, List, [], ◌∷◌, ◌++◌, map,
  length, ltb, eqb, leb, if◌then◌else◌, ◌==◌, is_empty, ◌≡◌, ◌≢◌,
}
use eth_node_operator.Common.Int.{ℤ, pos, negsuc, int_ltb}
use eth_node_operator.Types.{UpgradeRequest}
use eth_node_operator.Upgrade.{UpgradeNodeResult}

-- `max`
unfoldable pub int_max : ℤ → ℤ → ℤ
int_max a b = if int_ltb b a then a else b

abbrev pub to_capacity : ℤ → ℕ
to_capacity (pos n) = n
to_capacity (negsuc n) = 0

-- The capacity of the channel `sem`.
unfoldable pub capacity : UpgradeRequest → ℕ
unfolding int_max
capacity req = to_capacity (int_max req.max_unavailable (pos 1))

-- `looping` is the head of the loop, with the pause before a node that is not the first; `placing` is
-- past the pause.
pub data Phase : Type 0 where
  looping placing draining : Phase
  returned : List UpgradeNodeResult → Phase

-- `started` tells that the loop is past its first round. `running` are the nodes whose goroutine is inside
-- `upgradeNode`, `releasing` counts the goroutines that have written their result and still hold
-- their place in the channel, and `taken` counts the places that the main goroutine took at the end.
pub record Rollout : Type 0 where
  pub started : Bool
  pub pending : List String
  pub running : List String
  pub releasing : ℕ
  pub taken : ℕ
  pub results : List UpgradeNodeResult
  pub phase : Phase

pub data Event : Type 0 where
  advance cancel release : Event
  finish : ℕ → List String → Option String → Event

abbrev pub begin : UpgradeRequest → Rollout
begin req = record {
  started = false;
  pending = req.nodes;
  running = [];
  releasing = 0;
  taken = 0;
  results = [];
  phase = looping;
}

-- The places of the channel that are in use.
abbrev pub in_use : Rollout → ℕ
in_use s = length s.running + s.releasing + s.taken

abbrev pub contains_name : String → List String → Bool
contains_name name [] = false
contains_name name (n ∷ names) = if n == name then true else contains_name name names

abbrev pub unknown_node : String → UpgradeNodeResult
unknown_node name = record {
  node_name = name;
  actions = [];
  error = some ("node \"" <> name <> "\" not found in client map");
}

-- The list without its i-th element, with that element.
abbrev pub pick {ℓ} : {A : Type ℓ} → ℕ → List A → Option (A × List A)
pick i [] = none
pick zero (x ∷ xs) = some (x, xs)
pick (suc i) (x ∷ xs) = elim (pick i xs) [ none ↦ none | some (y, rest) ↦ some (y, x ∷ rest) ]

module _ (known : List String) (cap : ℕ) where
  -- The head of the loop over the nodes, where the pause ends or was none.
  loop_round : List String → Rollout → Option Rollout
  loop_round [] s = some (record s { phase = draining })
  loop_round (name ∷ rest) s = some (record s { phase = placing })

  -- The body of the loop. A send on the full channel blocks: then the event is not possible.
  place_round : List String → Rollout → Option Rollout
  place_round [] s = none
  place_round (name ∷ rest) s =
      if contains_name name known
      then (if ltb (in_use s) cap
          then some (record s {
            started = true;
            pending = rest;
            running = name ∷ s.running;
            phase = looping;
          })
          else none)
      else some (record s {
        started = true;
        pending = rest;
        results = s.results ++ unknown_node name ∷ [];
        phase = looping;
      })

  drain_round : Rollout → Option Rollout
  drain_round s =
      if eqb s.taken cap
      then some (record s { phase = returned s.results })
      else if ltb (in_use s) cap
      then some (record s { taken = s.taken + 1 })
      else none

  unfoldable pub main_round : Phase → Rollout → Option Rollout
  unfolding loop_round place_round drain_round
  main_round looping s = loop_round s.pending s
  main_round placing s = place_round s.pending s
  main_round draining s = drain_round s
  main_round (returned results) s = none

  -- The context ends during the pause before a node that is not the first.
  unfoldable pub cancel_round : Phase → Rollout → Option Rollout
  cancel_round looping s =
      if s.started
      then (if is_empty s.pending then none else some (record s { phase = returned s.results }))
      else none
  cancel_round placing s = none
  cancel_round draining s = none
  cancel_round (returned results) s = none

  -- A goroutine comes back from `upgradeNode` and appends its result.
  unfoldable pub finish_round :
      Option (String × List String) → List String → Option String → Rollout → Option Rollout
  finish_round none actions error s = none
  finish_round (some (name, rest)) actions error s = some (record s {
    running = rest;
    releasing = s.releasing + 1;
    results = s.results ++ record { node_name = name; actions = actions; error = error } ∷ [];
  })

  -- A goroutine gives its place in the channel back.
  unfoldable pub release_round : ℕ → Rollout → Option Rollout
  release_round zero s = none
  release_round (suc n) s = some (record s { releasing = n })

  unfoldable pub step : Event → Rollout → Option Rollout
  unfolding main_round cancel_round finish_round release_round
  step advance s = main_round s.phase s
  step cancel s = cancel_round s.phase s
  step (finish i actions error) s = finish_round (pick i s.running) actions error s
  step release s = release_round s.releasing s

  -- The states that a rolling upgrade can reach.
  pub data Reach (start : Rollout) : Rollout → Type 0 where
    here : Reach start start
    next : {s t : Rollout} (e : Event) → Reach start s → step e s ≡ some t → Reach start t

  -- The states that it can reach while the context does not end.
  pub data Undisturbed (start : Rollout) : Rollout → Type 0 where
    here : Undisturbed start start
    next :
        {s t : Rollout} (e : Event)
        → e ≢ cancel
        → Undisturbed start s
        → step e s ≡ some t
        → Undisturbed start t
