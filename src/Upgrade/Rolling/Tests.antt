-- ===== src/Upgrade/Rolling/Tests.antt =====
-- internal/upgrade/orchestrator.go: the theorems on rolling upgrades of one and of two nodes.
use eth_node_operator.Common.{◌≤◌, String, ◌≡◌, refl, true, false, some, List, [], ◌∷◌, length, ◌⊎◌}
use Prim.Native.Nat.{max}
use eth_node_operator.Common.Int.{pos}
use eth_node_operator.Types.{UpgradeRequest}
use eth_node_operator.Upgrade.{UpgradeNodeResult}
use eth_node_operator.Upgrade.Rolling.{
  Rollout, Phase, placing, draining, returned, Event, advance, to_capacity, capacity, begin, step,
  Reach, Undisturbed,
}
use eth_node_operator.Upgrade.Rolling.Bounds.{running-le-max_unavailable, progress}
use eth_node_operator.Upgrade.Rolling.Results.{count, names, count-results}

abbrev request : List String → UpgradeRequest
request nodes = record {
  nodes = nodes;
  el_image = "";
  cl_image = "";
  mev_image = "";
  max_unavailable = pos 2;
  skip_preflight = false;
}

abbrev two : UpgradeRequest
two = request ("a" ∷ "b" ∷ [])

-- The first node has been started.
abbrev started : Rollout
started = record (begin two) { started = true; pending = "b" ∷ []; running = "a" ∷ [] }

started_lem : Reach ("a" ∷ "b" ∷ []) (capacity two) (begin two) started
unfolding step capacity
started_lem =
    Reach.next {s = record (begin two) { phase = placing }} advance
      (Reach.next advance Reach.here refl) refl

running-le-max_unavailable_example :
    length started.running ≤ max (to_capacity two.max_unavailable) 1
running-le-max_unavailable_example = running-le-max_unavailable ("a" ∷ "b" ∷ []) two started_lem

progress_example :
    ((rs : List UpgradeNodeResult) × (started.phase ≡ returned rs))
    ⊎ ((e : Event) × (t : Rollout) × (step ("a" ∷ "b" ∷ []) (capacity two) e started ≡ some t))
progress_example = progress ("a" ∷ "b" ∷ []) two started_lem

abbrev one : UpgradeRequest
one = record (request ("x" ∷ [])) { max_unavailable = pos 0 }

abbrev missing : UpgradeNodeResult
missing = record {
  node_name = "x";
  actions = [];
  error = some "node \"x\" not found in client map";
}

-- The end of a rolling upgrade of one node that is not known.
abbrev finished : Rollout
finished = record {
  started = true;
  pending = [];
  running = [];
  releasing = 0;
  taken = 1;
  results = missing ∷ [];
  phase = returned (missing ∷ []);
}

finished_lem : Undisturbed [] (capacity one) (begin one) finished
unfolding step capacity
finished_lem =
    Undisturbed.next {s = record finished { phase = draining }} advance (cc)
      (Undisturbed.next {s = record finished { phase = draining; taken = 0 }} advance (cc)
        (Undisturbed.next {s = record finished { phase = Phase.looping; taken = 0 }} advance (cc)
          (Undisturbed.next {s = record (begin one) { phase = placing }} advance (cc)
            (Undisturbed.next advance (cc) Undisturbed.here refl) refl)
          refl)
        refl)
      refl

count-results_example : count "x" (names (missing ∷ [])) ≡ count "x" one.nodes
count-results_example = count-results [] one (missing ∷ []) "x" finished_lem refl
