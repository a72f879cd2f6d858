-- ===== src/AgentClient.antt =====
-- cli/agentclient/client.go: the client by which the command line reaches the agent of a node. The HTTP transport and the
-- decoders of JSON are the fields of `Wire`.
pub mod Loopback
mod Lost
mod Holding
mod Tests
use eth_node_operator.Common.{
  ℕ, String, ◌<>◌, Bool, true, false, Option, none, some, List, if◌then◌else◌, ◌==◌, eqb, leb,
  Result, ok, err, Action, pure, fail, wrap, continue, ◌>>=◌, ◌>>◌,
}
use eth_node_operator.Common.Dict.{Dict}
use eth_node_operator.Common.Int.{ℤ, show_int}
use eth_node_operator.Types.{NodeStatus, CordonRequest, ReconcileResult, DiffResult}
use eth_node_operator.Agent.{Body, Response}
use eth_node_operator.Agent.Routes.{HttpRequest}
use eth_node_operator.Upgrade.{NodeClient}

pub record Client : Type 0 where
  pub base_url : String
  pub node : String
  pub api_key : String

-- A value of JSON, as far as the client's callers look at it: a list keeps its texts, and `none` for the rest.
pub data JsonValue : Type 0 where
  text : String → JsonValue
  number : ℤ → JsonValue
  array : List (Option String) → JsonValue
  other : JsonValue

pub record Wire (W : Type 0) : Type 0 where
  -- The error of `http.NewRequestWithContext`, if the address is none.
  pub new_request : String → Result (Unit {0})
  -- The request goes to the base address, which is given first.
  pub send : String → HttpRequest → Action W Response
  pub decode_status : Body → Result NodeStatus
  pub decode_result : Body → Result ReconcileResult
  pub decode_diff : Body → Result DiffResult
  pub decode_map : Body → Result (Dict JsonValue)
  -- The body as it is sent.
  pub body_text : Body → String

-- `NewWithKey`, with the value of the environment's ETHAGENT_API_KEY.
unfoldable pub new_with_key : String → String → String → ℤ → String → Client
new_with_key env_key node_name host port key = record {
  base_url = "http://" <> host <> ":" <> show_int port;
  node = node_name;
  api_key = if key == "" then env_key else key;
}

abbrev pub new : String → String → String → ℤ → Client
new env_key node_name host port = new_with_key env_key node_name host port ""

-- `if c.apiKey != "" { req.Header.Set("Authorization", "Bearer "+c.apiKey) }`
abbrev pub bearer : String → String
bearer api_key = if api_key == "" then "" else "Bearer " <> api_key

abbrev pub http_request : String → String → String → Option CordonRequest → HttpRequest
http_request method path authorization payload = record {
  method = method;
  target = path;
  authorization = authorization;
  payload = payload;
}

module _ {W : Type 0} (wire : Wire W) (c : Client) where
  unfoldable pub request : String → String → String → Option CordonRequest → Action W Response
  request method path authorization payload = do
    λ w. (wire.new_request (c.base_url <> path), w)
    wrap (λ e. c.node <> " " <> path <> ": " <> e)
        (wire.send c.base_url (http_request method path authorization payload))

  abbrev pub get : String → Action W Response
  get path = request "GET" path "" none

  abbrev pub post : String → Action W Response
  post path = request "POST" path (bearer c.api_key) none

  abbrev pub refusal : String → Response → String
  refusal path r =
      c.node
      <> " "
      <> path
      <> ": status "
      <> show_int (ℤ.pos r.code)
      <> ": "
      <> wire.body_text r.body

  abbrev pub checked : String → Response → Result (Unit {0})
  checked path r = if leb 400 r.code then err (refusal path r) else ok tt

  unfoldable pub post_json : String → CordonRequest → Action W (Unit {0})
  unfolding request
  post_json path payload = do
    resp ← request "POST" path (bearer c.api_key) (some payload)
    λ w. (checked path resp, w)

  abbrev pub renamed : NodeStatus → NodeStatus
  renamed status = record status { name = c.node }

  unfoldable pub get_status : Action W NodeStatus
  unfolding request
  get_status = do
    resp ← get "/status"
    status ← wrap (λ e. "decode status: " <> e) (λ w. (wire.decode_status resp.body, w))
    pure (renamed status)

  unfoldable pub cordon : String → Action W (Unit {0})
  unfolding post_json
  cordon reason = post_json "/cordon" (record { cordoned = true; reason = reason })

  unfoldable pub uncordon : Action W (Unit {0})
  unfolding post_json
  uncordon = post_json "/cordon" (record { cordoned = false; reason = "" })

  unfoldable pub trigger_reconcile : Action W ReconcileResult
  unfolding request
  trigger_reconcile = do
    resp ← post "/reconcile"
    wrap (λ e. "decode reconcile result: " <> e) (λ w. (wire.decode_result resp.body, w))

  unfoldable pub get_diff : Action W DiffResult
  unfolding request
  get_diff = do
    resp ← get "/diff"
    wrap (λ e. "decode diff: " <> e) (λ w. (wire.decode_diff resp.body, w))

  abbrev pub log_stream : Response → Result String
  log_stream r =
      if eqb r.code 200
      then ok (wire.body_text r.body)
      else err ("logs error from " <> c.node <> ": status " <> show_int (ℤ.pos r.code))

  -- What can be read from the stream.
  unfoldable pub stream_logs : String → Bool → Action W String
  stream_logs client follow = do
    let path = "/logs?client=" <> client <> "&follow=" <> (if follow then "true" else "false")
    λ w. (wire.new_request (c.base_url <> path), w)
    resp ←
        wrap (λ e. "stream logs from " <> c.node <> ": " <> e)
          (wire.send c.base_url (http_request "GET" path "" none))
    λ w. (log_stream resp, w)

  -- The answer is not looked at.
  unfoldable pub restart : String → Action W (Unit {0})
  unfolding request
  restart client = do post ("/restart?client=" <> client); pure tt

  abbrev pub healthy : Response → Result (Unit {0})
  healthy r =
      if eqb r.code 200
      then ok tt
      else err ("agent " <> c.node <> " unhealthy: status " <> show_int (ℤ.pos r.code))

  unfoldable pub healthz : Action W (Unit {0})
  unfolding request
  healthz = do resp ← get "/healthz"; λ w. (healthy resp, w)

  unfoldable pub discover : Action W (Dict JsonValue)
  unfolding request
  discover = do
    resp ← get "/discover"
    wrap (λ e. "decode discover response: " <> e) (λ w. (wire.decode_map resp.body, w))

  -- The client, as the orchestrator takes it.
  abbrev pub node_client : NodeClient W
  node_client = record {
    get_status = get_status;
    cordon = cordon;
    uncordon = uncordon;
    trigger_reconcile = trigger_reconcile;
    get_diff = get_diff;
  }
