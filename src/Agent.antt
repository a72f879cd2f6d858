-- ===== src/Agent.antt =====
-- internal/agent/server.go and auth.go: the HTTP server of a host, and its reconciliation loop. A handler is one step from
-- the agent and the world to the agent and the world, with the response that it writes; what is logged comes back as values.
mod Access
pub mod Bearer
mod Loop
pub mod Status
pub mod Routes
pub mod Key
mod Health
mod Tests
use eth_node_operator.Common.{
  ℕ, String, ◌<>◌, Bool, true, false, not, ◌||◌, Option, none, some, List, [], ◌∷◌, ◌++◌,
  if◌then◌else◌, ◌==◌, is_empty, Result, ok, err, Action,
}
use eth_node_operator.Common.Int.{ℤ, pos}
use eth_node_operator.Common.Text.{strip_prefix}
use eth_node_operator.Types.{
  NodeSpec, EthereumNode, ClientStatus, NodeStatus, CordonRequest, ReconcileResult, DiffResult,
  Phase,
}
use eth_node_operator.Docker.{ContainerInfo, inspect, restart}
use eth_node_operator.Discover.{Report}
use eth_node_operator.Maintenance.{utc, Window, Time, is_open, new}
use eth_node_operator.Reconciler.{Managers}
use eth_node_operator.Reconciler.Pass.{reconcile}
use eth_node_operator.Reconciler.Diff.{diff}

pub record Agent : Type 0 where
  pub node_name : String
  pub api_key : String
  pub cordoned : Bool
  pub reason : String
  pub last_spec : Option NodeSpec

-- What a request holds of what the handlers read: an absent header or parameter is empty, and `cordon` is the decoded body.
pub record Request : Type 0 where
  pub method : String
  pub authorization : String
  pub client : String
  pub cordon : Result CordonRequest

-- A body is a text, or a value that is written as JSON.
pub data Body : Type 0 where
  text : String → Body
  status_json : NodeStatus → Body
  result_json : ReconcileResult → Body
  diff_json : DiffResult → Body
  report_json : Report → Body

pub record Response : Type 0 where
  pub code : ℕ
  pub body : Body

-- A line of the log of a round of the loop.
pub data LogLine : Type 0 where
  skipping_cordoned outside_window : LogLine
  load_failed invalid_window : String → LogLine
  reconcile_complete had_errors : List String → LogLine

-- The client of the Ethereum layers, as far as the status asks it.
pub record EthProbes (W : Type 0) : Type 0 where
  pub el_syncing : Action W Bool
  pub el_block_number : Action W ℕ
  pub el_peer_count : Action W ℤ
  pub cl_syncing : Action W Bool
  pub cl_peer_count : Action W ℤ

-- What the agent is built over: the managers of the reconciler, the probes, the read of the node file, the
-- collector of the host's figures, whose values are left out, and the clock.
pub record Host (W : Type 0) : Type 0 where
  pub managers : Managers W
  pub probes : EthProbes W
  pub load_node : Action W EthereumNode
  pub collect : Action W Unit
  pub now : W → Time

abbrev pub Handler : Type 0 → Type 0
Handler W = Request → Agent × W → Response × (Agent × W)

abbrev pub respond : ℕ → String → Response
respond code message = record { code = code; body = text message }

abbrev pub cordon_action : Bool → String
cordon_action cordoned = if cordoned then "cordoned" else "uncordoned"

-- `value, _ := call()`, for a call that returns the zero value with its error.
abbrev pub value_or {ℓ} : {A : Type ℓ} → A → Result A → A
value_or zero_value (ok a) = a
value_or zero_value (err e) = zero_value

module _ {W : Type 0} where
  abbrev pub with_token : String → Option String → Handler W → Handler W
  with_token api_key none next req s = (respond 401 "Authorization must use Bearer scheme", s)
  with_token api_key (some token) next req s =
      if token == api_key then next req s else (respond 403 "Invalid API key", s)

  unfoldable pub require_api_key : String → Handler W → Handler W
  require_api_key api_key next req s =
      if req.method == "GET" || req.method == "HEAD"
      then next req s
      else if req.authorization == ""
      then (respond 401 "Authorization header required for write operations", s)
      else with_token api_key (strip_prefix "Bearer " req.authorization) next req s

  abbrev pub set_cordon : Result CordonRequest → Agent × W → Response × (Agent × W)
  set_cordon (err e) s = (respond 400 e, s)
  set_cordon (ok req) (a, w) = (
    respond 200 (
        "{\"status\":\""
        <> cordon_action req.cordoned
        <> "\",\"reason\":\""
        <> req.reason
        <> "\"}"),
    (record a { cordoned = req.cordoned; reason = req.reason }, w),
  )

  unfoldable pub handle_cordon : Handler W
  handle_cordon req s =
      if req.method == "POST"
      then set_cordon req.cordon s
      else (respond 405 "method not allowed", s)

-- `loadSpec`, with what follows it.
abbrev pub loaded : Result EthereumNode → Agent → Result NodeSpec × Agent
loaded (ok node) a = (ok node.spec, record a { last_spec = some node.spec })
loaded (err e) a = (err e, a)

window_note : Result Window → Time → List LogLine
window_note (err e) now = invalid_window e ∷ []
window_note (ok win) now = if is_open win now then [] else outside_window ∷ []

result_notes : ReconcileResult → List LogLine
result_notes r =
    let notes = if is_empty r.errors then [] else had_errors r.errors ∷ [] in
    if is_empty r.actions then notes else reconcile_complete r.actions ∷ notes

abbrev pub container_of : String → Option String
container_of client =
    if client == "el"
    then some "execution"
    else if client == "cl"
    then some "consensus"
    else if client == "mev"
    then some "mev-boost"
    else none

restarted : String → Result (Unit {0}) → Response
restarted name (ok done) = respond 200 ("{\"restarted\":\"" <> name <> "\"}")
restarted name (err e) = respond 500 e

module _ {W : Type 0} (h : Host W) where
  unfoldable pub load_spec : Agent × W → Result NodeSpec × (Agent × W)
  load_spec (a, w) =
      let (node, w') = h.load_node w in let (spec, a') = loaded node a in (spec, (a', w'))

  -- The test of the maintenance window: it only writes to the log.
  check_window : NodeSpec → W → List LogLine
  unfolding window_note
  check_window spec w =
      if spec.maintenance.window.schedule == ""
      then []
      else window_note (new spec.maintenance.window.schedule) (utc (h.now w))

  reconcile_loaded : Result NodeSpec → Agent × W → List LogLine × (Agent × W)
  unfolding check_window result_notes
  reconcile_loaded (err e) s = (load_failed e ∷ [], s)
  reconcile_loaded (ok spec) (a, w) =
      let (r, w') = reconcile h.managers spec w in (check_window spec w ++ result_notes r, (a, w'))

  unfoldable pub run_reconcile : Agent × W → List LogLine × (Agent × W)
  unfolding reconcile_loaded load_spec
  run_reconcile (a, w) =
      if a.cordoned
      then (skipping_cordoned ∷ [], (a, w))
      else (let (spec, s) = load_spec (a, w) in reconcile_loaded spec s)

  reply_result : Result NodeSpec → Agent × W → Response × (Agent × W)
  reply_result (err e) s = (respond 500 ("load spec: " <> e), s)
  reply_result (ok spec) (a, w) =
      let (r, w') = reconcile h.managers spec w in
      (record { code = 200; body = result_json r }, (a, w'))

  unfoldable pub handle_reconcile : Handler W
  unfolding reply_result load_spec
  handle_reconcile req s =
      if req.method == "POST"
      then (let (spec, s') = load_spec s in reply_result spec s')
      else (respond 405 "method not allowed", s)

  reply_diff : Result NodeSpec → Agent × W → Response × (Agent × W)
  reply_diff (err e) s = (respond 500 ("load spec: " <> e), s)
  reply_diff (ok spec) (a, w) =
      let (d, w') = diff h.managers spec w in (record { code = 200; body = diff_json d }, (a, w'))

  unfoldable pub handle_diff : Handler W
  unfolding reply_diff load_spec
  handle_diff req s = let (spec, s') = load_spec s in reply_diff spec s'

  restart_container : Option String → Agent × W → Response × (Agent × W)
  unfolding restarted
  restart_container none s = (respond 400 "client must be el, cl, or mev", s)
  restart_container (some name) (a, w) =
      let (r, w') = restart h.managers.docker name w in (restarted name r, (a, w'))

  unfoldable pub handle_restart : Handler W
  unfolding restart_container
  handle_restart req s =
      if req.method == "POST"
      then restart_container (container_of req.client) s
      else (respond 405 "method not allowed", s)

  -- The routes that write, as `Start` registers them.
  unfoldable pub serve_write : String → Handler W
  unfolding require_api_key handle_cordon handle_reconcile handle_restart
  serve_write path req (a, w) =
      if path == "/cordon"
      then require_api_key a.api_key handle_cordon req (a, w)
      else if path == "/reconcile"
      then require_api_key a.api_key handle_reconcile req (a, w)
      else if path == "/restart"
      then require_api_key a.api_key handle_restart req (a, w)
      else (respond 404 "404 page not found", (a, w))
