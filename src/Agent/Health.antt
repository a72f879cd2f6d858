-- ===== src/Agent/Health.antt =====
-- internal/agent/server.go: what the reported status tells.
use eth_node_operator.Common.{
  String, Bool, true, false, ◌≡◌, ◌↔◌, refl, Result, ok, err, arith, subst,
}
use eth_node_operator.Types.{ClientStatus, NodeStatus, Phase}
use eth_node_operator.Docker.{ContainerInfo, inspect}
use eth_node_operator.Agent.{Agent, Host, Request, status_json}
use eth_node_operator.Agent.Status.{
  collect_client_status, probe, handle_status, report_status, node_status,
}

-- Docker says of an inspected container that it runs; it says nothing of one that it does not find.
abbrev pub runs : Result ContainerInfo → Bool
runs (ok info) = info.running
runs (err e) = false

-- The phase tells whether the node is cordoned, and whether the containers of both clients run.
pub record IsPhase (a : Agent) (el cl : Bool) (s : NodeStatus) : Type 0 where
  pub el_flag : s.el.running ≡ el
  pub cl_flag : s.cl.running ≡ cl
  pub cordoned_iff : (s.phase ≡ Phase.cordoned) ↔ (a.cordoned ≡ true)
  pub running_iff : (s.phase ≡ Phase.running) ↔ ((a.cordoned ≡ false) × (el ≡ true) × (cl ≡ true))

node_status-IsPhase :
    (a : Agent) (el cl mev : ClientStatus)
    → IsPhase a el.running cl.running (node_status a el cl mev)
node_status-IsPhase a el cl mev = record {
  el_flag = refl;
  cl_flag = refl;
  cordoned_iff = ground arith;
  running_iff = ground arith;
}

body-inj : {s t : NodeStatus} → status_json s ≡ status_json t → s ≡ t
body-inj e = cc

module _ {W : Type 0} (h : Host W) where
  -- Whether the two clients' containers run, where the agent inspects them.
  abbrev pub el_runs : W → Bool
  el_runs w = runs (inspect h.managers.docker "execution" w).0

  abbrev pub cl_runs : W → Bool
  cl_runs w =
      runs (inspect h.managers.docker "consensus" (collect_client_status h "execution" "el" w).1).0

  probed :
      (client_type : String) (r : Result ContainerInfo) (w : W)
      → (probe h client_type r w).0.running ≡ runs r
  probed client_type (err e) w = refl
  probed client_type (ok info) w = ground arith

  collected :
      (name client_type : String) (w : W)
      → (collect_client_status h name client_type w).0.running
        ≡ runs (inspect h.managers.docker name w).0
  unfolding collect_client_status
  collected name client_type w =
      probed client_type (inspect h.managers.docker name w).0 (inspect h.managers.docker name w).1

  report_status-IsPhase :
      (r : Result (Unit {0})) (a : Agent) (w : W) (s : NodeStatus)
      → (report_status h r (a, w)).0.body ≡ status_json s
      → IsPhase a (el_runs w) (cl_runs w) s
  unfolding report_status
  report_status-IsPhase (err e) a w s b = cc
  report_status-IsPhase (ok done) a w s b =
      let (_, w1) = collect_client_status h "execution" "el" w in
      let (_, w2) = collect_client_status h "consensus" "cl" w1 in
      subst (λ x. IsPhase a x (cl_runs w) s) (collected "execution" "el" w)
        (subst (λ x. IsPhase a (collect_client_status h "execution" "el" w).0.running x s)
          (collected "consensus" "cl" w1)
          (subst (IsPhase a _ _) (body-inj b) (
            node_status-IsPhase a (collect_client_status h "execution" "el" w).0
              (collect_client_status h "consensus" "cl" w1).0
              (collect_client_status h "mev-boost" "mev" w2).0)))

  -- A status that the agent reports says `Cordoned` exactly when the agent is cordoned, and `Running` exactly when it is not and
  -- docker, when the agent inspects them, says of the containers of both clients that they run. The reported flags of the two
  -- clients say the same. A container that docker does not find does not run.
  pub handle_status-IsPhase :
      (req : Request) (a : Agent) (w : W) (s : NodeStatus)
      → (handle_status h req (a, w)).0.body ≡ status_json s
      → IsPhase a (el_runs (h.collect w).1) (cl_runs (h.collect w).1) s
  unfolding handle_status
  handle_status-IsPhase req a w s b = report_status-IsPhase (h.collect w).0 a (h.collect w).1 s b

  -- While its container runs, an execution client whose sync state cannot be asked is reported as synced.
  collect_client_status_unreachable :
      (info : ContainerInfo) (w w1 w2 : W) (e : String)
      → inspect h.managers.docker "execution" w ≡ (ok info, w1)
      → info.running ≡ true
      → h.probes.el_syncing w1 ≡ (err e, w2)
      → (collect_client_status h "execution" "el" w).0.synced ≡ true
  unfolding collect_client_status
  collect_client_status_unreachable info w w1 w2 e i r s = rw (i, r, s) refl
