-- ===== src/Reconciler/Tests.antt =====
-- internal/reconciler/reconciler.go: the theorems on a host with one container that runs.
use eth_node_operator.Common.{
  String, ◌≡◌, ◌≢◌, ◌↔◌, refl, sym, ap, true, false, Option, none, List, [], ◌∷◌, ◌++◌, eq_iff, ok,
  ok-inj, All,
}
use eth_node_operator.Common.Int.{pos}
use eth_node_operator.Common.Text.{split_n, to_lower}
use eth_node_operator.Common.Plan.{Command, is_ok}
use eth_node_operator.Types.{ClientSpec, NodeSpec, empty_spec}
use eth_node_operator.Docker.{ContainerInfo, extract_version, inspect, parse_info, inspect_args}
use eth_node_operator.Reconciler.{Managers, reconcile_client}
use eth_node_operator.Reconciler.Diff.{diff, diff-IsCoherent}
use eth_node_operator.Reconciler.Images.{DockerLaws, image_drift_stays}
use eth_node_operator.Reconciler.Preflight.{EthClient, preflight_checks}
use eth_node_operator.Reconciler.Ready.{IsReady, preflight_checks-IsReady}
use eth_node_operator.Reconciler.Commands.{bring_up_plan, watched, reconcile_client-Ran}

abbrev docker_sim : {W : Type 0} → List String → W → (String × Option String) × W
docker_sim args w = (("true|geth:1|now", none), w)

abbrev managers : {W : Type 0} → Managers W
managers = record {
  docker = docker_sim;
  ufw = docker_sim;
  disk = λ d w. (([], none), w);
  restore_if_empty = λ base client network dir w. (ok false, w);
  dns_configured = λ w. true;
  dns_register = λ name zone_id ttl w. (
    ok (record {
      hostname = name;
      ip = "192.0.2.1";
      zone_id = zone_id;
      action = "registered";
      old_hostname = "";
    }),
    w,
  );
  obs = none;
}

abbrev found : String → ContainerInfo
found name = record { name = name; running = true; image = "geth:1"; version = "1" }

docker_sim-DockerLaws : DockerLaws {W = Unit {0}} docker_sim (λ w name. "geth:1")
unfolding inspect split_n extract_version
docker_sim-DockerLaws = record {
  inspect_keeps = λ w c name. refl;
  pull_keeps = λ w i name. refl;
  stop_keeps = λ w c name. refl;
  start_keeps = λ w c name. refl;
  inspect_reads = λ w c info h. sym (ap (λ (i : ContainerInfo). i.image) (ok-inj h));
}

abbrev geth : ClientSpec
geth = record empty_spec.execution { client = "geth"; image = "geth:2" }

inspect_test : (inspect {W = Unit {0}} docker_sim "execution" tt).0 ≡ ok (found "execution")
unfolding inspect split_n extract_version
inspect_test = refl

images_differ : (found "execution").image ≢ geth.image
images_differ h = cc ((eq_iff "geth:1" "geth:2").1 h)

image_drift_stays_example : (found "execution").image ≢ geth.image
unfolding inspect split_n extract_version
image_drift_stays_example =
    image_drift_stays {W = Unit {0}} managers (λ w name. "geth:1") docker_sim-DockerLaws "execution"
      geth tt (found "execution") (found "execution") refl images_differ refl

reconcile_client-Ran_example :
    let res =
      reconcile_client (watched {W = Unit {0}} docker_sim managers) "execution" geth (tt, []) in
    (rest : List Command) × (res.1.1 ++ rest
      ≡ inspect_args "execution" ∷ bring_up_plan "execution" "geth:2" (found "execution"))
    × (is_ok res.0 ≡ true → rest ≡ [])
unfolding parse_info split_n extract_version
reconcile_client-Ran_example =
    reconcile_client-Ran {W = Unit {0}} docker_sim managers "execution" geth tt tt "true|geth:1|now"
      (found "execution") (cc) refl refl

abbrev desired : NodeSpec
desired = record empty_spec {
  execution = geth;
  network = record empty_spec.network {
    route53 = record { zone_id = "Z1"; zone = "example.com"; ttl = pos 60 };
  };
}

diff-IsCoherent_example :
    ((diff {W = Unit {0}} managers desired tt).0.in_sync ≡ true)
    ↔ ((diff {W = Unit {0}} managers desired tt).0.drifts ≡ [])
diff-IsCoherent_example = diff-IsCoherent {W = Unit {0}} managers desired tt

abbrev eth : EthClient (Unit {0})
eth = record {
  el_syncing = λ w. (ok false, w);
  cl_syncing = λ w. (ok false, w);
  el_peer_count = λ w. (ok (pos 25), w);
}

preflight_test : preflight_checks eth ("elSynced" ∷ "peerCount" ∷ []) tt ≡ (ok tt, tt)
unfolding preflight_checks to_lower
preflight_test = refl

preflight_checks-IsReady_example : All (IsReady eth) ("elSynced" ∷ "peerCount" ∷ [])
preflight_checks-IsReady_example =
    preflight_checks-IsReady eth ("elSynced" ∷ "peerCount" ∷ []) tt tt tt preflight_test
