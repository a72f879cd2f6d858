-- ===== src/Obs/Tests.antt =====
-- internal/obs/manager.go: the theorems, and runs, on a stack whose pull fails.
use eth_node_operator.Common.{
  String, ◌≡◌, refl, true, false, Option, none, some, List, [], ◌∷◌, ok, err, if◌then◌else◌, ◌==◌,
  Output,
}
use eth_node_operator.Common.Dict.{lookup}
use eth_node_operator.Common.Text.{trim_space, split, split_n, to_lower, contains}
use eth_node_operator.Obs.{Host, Manager, reconcile, status, is_running, add_lines}
use eth_node_operator.Obs.Plan.{
  recording, pull_args, up_args, last_given, reconcile-commands, add_lines-last_given,
}

abbrev listing : String
listing = "grafana\tExited (1)\n  loki\tUp 3 hours\n\ngrafana\tRestarting"

abbrev run_sim : List String → Unit {0} → Output × Unit {0}
run_sim (dir ∷ docker ∷ compose ∷ f ∷ file ∷ command ∷ rest) w =
    if command == "pull"
    then (("offline", some "exit status 1"), w)
    else (if command == "up" then (("loki Started", none), w) else ((listing, none), w))
run_sim args w = (("", some "usage"), w)

abbrev host : Host (Unit {0})
host = record {
  run = run_sim;
  is_missing = λ path w. false;
  make_dir = λ dir w. (ok tt, w);
  create_file = λ path w. (ok tt, w);
}

abbrev manager : Manager
manager = record { stack_dir = "/opt/obs"; env_file = "/opt/obs/.env" }

reconciled :
    reconcile host manager tt
    ≡ (("obs: image pull warning: offline" ∷ "obs: stack reconciled: loki Started" ∷ [], none), tt)
unfolding reconcile trim_space contains
reconciled = refl

runs : is_running host manager tt ≡ (ok true, tt)
unfolding is_running status add_lines trim_space split split_n to_lower contains
    eth_node_operator.Common.Dict.insert
runs = refl

reconcile-commands_example :
    (reconcile (recording host) manager (tt, [])).1.1
    ≡ pull_args host manager ∷ up_args host manager ∷ []
reconcile-commands_example = reconcile-commands host manager tt []

add_lines-last_given_example :
    lookup "grafana" (add_lines ("grafana\tExited (1)" ∷ "grafana\tUp" ∷ []) [])
    ≡ last_given "grafana" ("grafana\tExited (1)" ∷ "grafana\tUp" ∷ [])
add_lines-last_given_example =
    add_lines-last_given "grafana" ("grafana\tExited (1)" ∷ "grafana\tUp" ∷ [])
