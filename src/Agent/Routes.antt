-- ===== src/Agent/Routes.antt =====
-- internal/agent/server.go: the routes of `Start`, and the handlers that only read. A request comes as its method, its address
-- behind the host, the header `Authorization`, and the request that its body holds as JSON, if it has one.
use eth_node_operator.Common.{
  String, ◌<>◌, Bool, Option, none, some, List, [], ◌∷◌, if◌then◌else◌, ◌==◌, Result, ok, err,
  Action,
}
use eth_node_operator.Common.Text.{split, strip_prefix, before_first, after_first}
use eth_node_operator.Types.{CordonRequest}
use eth_node_operator.Discover.{Report}
use eth_node_operator.Agent.{
  Agent, Host, Request, Response, respond, report_json, container_of, require_api_key,
  handle_cordon, handle_reconcile, handle_diff, handle_restart,
}
use eth_node_operator.Agent.Status.{handle_status}

pub record HttpRequest : Type 0 where
  pub method : String
  pub target : String
  pub authorization : String
  pub payload : Option CordonRequest

-- One read of a stream: what it gave, and whether it was the last.
pub record Read : Type 0 where
  pub chunk : String
  pub is_last : Bool

-- What the handlers that read are built over: the logs of a container, followed or not, and the probes.
pub record Sources (W : Type 0) : Type 0 where
  pub logs : String → Bool → Action W (List Read)
  pub discover : W → Report × W

-- The first value of a parameter, without escapes.
abbrev pub query_of : String → List String → String
query_of key [] = ""
query_of key (part ∷ parts) = elim (strip_prefix (key <> "=") part) [
  | none ↦ query_of key parts
  | some value ↦ value
]

abbrev pub query : String → String → String
query key target = query_of key (split (after_first b'?' target) b'&')

-- A body that is the JSON of a request is decoded to it; there is nothing to decode in an empty one.
abbrev pub decoded : Option CordonRequest → Result CordonRequest
decoded none = err "EOF"
decoded (some req) = ok req

abbrev pub request_of : HttpRequest → Request
request_of r = record {
  method = r.method;
  authorization = r.authorization;
  client = query "client" r.target;
  cordon = decoded r.payload;
}

-- The loop of `handleLogs`: it writes what it reads, up to the first error.
unfoldable pub copy_log : List Read → String
copy_log [] = ""
copy_log (r ∷ rs) = let rest = copy_log rs in if r.is_last then r.chunk else r.chunk <> rest

abbrev pub log_response : Result (List Read) → Response
log_response (ok reads) = respond 200 (copy_log reads)
log_response (err e) = respond 500 e

module _ {W : Type 0} (sources : Sources W) where
  abbrev pub stream : Option String → Bool → Agent × W → Response × (Agent × W)
  stream none follow s = (respond 400 "client must be el, cl, or mev", s)
  stream (some name) follow (a, w) =
      let (r, w') = sources.logs name follow w in (log_response r, (a, w'))

  unfoldable pub handle_logs : HttpRequest → Agent × W → Response × (Agent × W)
  unfolding copy_log
  handle_logs r s =
      stream (container_of (query "client" r.target)) (query "follow" r.target == "true") s

  unfoldable pub handle_discover : HttpRequest → Agent × W → Response × (Agent × W)
  handle_discover r (a, w) =
      if r.method == "GET"
      then (let (report, w') = sources.discover w in
          (record { code = 200; body = report_json report }, (a, w')))
      else (respond 405 "method not allowed", (a, w))

abbrev pub handle_healthz : {W : Type 0} → Agent × W → Response × (Agent × W)
handle_healthz s = (respond 200 "ok", s)

module _ {W : Type 0} (h : Host W) (sources : Sources W) where
  -- By the path of the target. The key is the one that the agent was made with.
  unfoldable pub route : String → HttpRequest → Agent × W → Response × (Agent × W)
  unfolding handle_logs handle_discover handle_status require_api_key handle_cordon handle_reconcile
      handle_diff handle_restart
  route path r (a, w) =
      if path == "/status"
      then handle_status h (request_of r) (a, w)
      else if path == "/cordon"
      then require_api_key a.api_key handle_cordon (request_of r) (a, w)
      else if path == "/reconcile"
      then require_api_key a.api_key (handle_reconcile h) (request_of r) (a, w)
      else if path == "/diff"
      then handle_diff h (request_of r) (a, w)
      else if path == "/logs"
      then handle_logs sources r (a, w)
      else if path == "/restart"
      then require_api_key a.api_key (handle_restart h) (request_of r) (a, w)
      else if path == "/healthz"
      then handle_healthz (a, w)
      else if path == "/discover"
      then handle_discover sources r (a, w)
      else (respond 404 "404 page not found", (a, w))

  unfoldable pub serve : HttpRequest → Agent × W → Response × (Agent × W)
  unfolding route
  serve r s = route (before_first b'?' r.target) r s
