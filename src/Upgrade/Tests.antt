-- ===== src/Upgrade/Tests.antt =====
-- internal/upgrade/orchestrator.go: the theorems on an agent that answers at once, and is always in sync.
use eth_node_operator.Common.{ℕ, ◌+◌, ◌≡◌, ◌≢◌, refl, true, false, none, some, [], ◌∷◌, arith, ok}
use eth_node_operator.Common.Int.{pos}
use eth_node_operator.Types.{ClientStatus, NodeStatus, Phase, UpgradeRequest}
use eth_node_operator.Upgrade.{NodeClient, Timing, Wake, UpgradeNodeResult, upgrade_node}
use eth_node_operator.Upgrade.Calls.{
  IsReleased, IsGuarded, watched, watched_timing, upgrade_node-held,
}
use eth_node_operator.Upgrade.Waiting.{TimingLaws, upgrade_node-ne-none}
use eth_node_operator.Upgrade.Success.{IsUpgraded, upgrade_node-IsUpgraded}

abbrev client_status : ClientStatus
client_status = record {
  name = "el";
  running = true;
  image = "geth:1";
  version = "1";
  synced = true;
  block_number = 7;
  peer_count = pos 9;
  healthy = true;
}

abbrev node_status : NodeStatus
node_status = record {
  name = "bm-01";
  phase = Phase.running;
  el = client_status;
  cl = client_status;
  mev = client_status;
  cordoned = false;
}

-- The world is the time in seconds.
abbrev client : NodeClient ℕ
client = record {
  get_status = λ w. (ok node_status, w + 1);
  cordon = λ reason w. (ok tt, w);
  uncordon = λ w. (ok tt, w);
  trigger_reconcile =
      λ w. (ok (record { node_name = ""; actions = "el: started" ∷ []; errors = [] }), w);
  get_diff = λ w. (ok (record { node_name = ""; drifts = []; in_sync = true }), w);
}

abbrev timing : Timing ℕ
timing = record { now = λ w. w; wait = λ due w. (Wake.tick, w + due) }

timing-TimingLaws : TimingLaws client timing
timing-TimingLaws = record { tick_due = λ due w h. omega arith; status_forward = λ w. omega arith }

abbrev request : UpgradeRequest
request = record {
  nodes = "bm-01" ∷ [];
  el_image = "";
  cl_image = "";
  mev_image = "";
  max_unavailable = pos 1;
  skip_preflight = false;
}

abbrev result : UpgradeNodeResult
result = record {
  node_name = "bm-01";
  actions = "cordoned" ∷ "el: started" ∷ "sync recovered" ∷ [];
  error = none;
}

upgrade_node_test : (upgrade_node client timing 1 "bm-01" request 0).0 ≡ some result
unfolding upgrade_node
upgrade_node_test = refl

upgrade_node-ne-none_example : (upgrade_node client timing 42 "bm-01" request 0).0 ≢ none
upgrade_node-ne-none_example =
    upgrade_node-ne-none client timing timing-TimingLaws "bm-01" request 0

upgrade_node-held_example :
    let after =
      (upgrade_node (watched client) (watched_timing timing) 1 "bm-01" request (0, [])).1.1 in
    IsReleased after × IsGuarded after
upgrade_node-held_example = upgrade_node-held client timing 1 "bm-01" request 0 [] refl _

upgrade_node-IsUpgraded_example :
    (start : ℕ) × IsUpgraded client timing start result.actions × (result.node_name ≡ "bm-01")
upgrade_node-IsUpgraded_example =
    upgrade_node-IsUpgraded client timing 1 "bm-01" request 0 result upgrade_node_test refl
