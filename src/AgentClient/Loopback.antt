-- ===== src/AgentClient/Loopback.antt =====
-- cli/agentclient/client.go over internal/agent: the client's calls on the agent that answers them.
use eth_node_operator.Common.{
  ◌≤◌, String, ◌<>◌, ◌≡◌, ◌≢◌, refl, ap, ◌∙◌, false, Option, none, some, ◌==◌, eq_iff, ◌⊎◌, inl,
  inr, Bool-cases, Result, ok, err, arith,
}
use eth_node_operator.Common.Text.{before_first}
use eth_node_operator.Common.Text.Cut.{before_first-within}
use eth_node_operator.Types.{NodeStatus, CordonRequest, ReconcileResult, DiffResult}
use eth_node_operator.Agent.{
  Agent, Host, Handler, Response, Request, status_json, result_json, diff_json, handle_cordon,
  handle_restart, require_api_key,
}
use eth_node_operator.Agent.Routes.{HttpRequest, Sources, request_of, serve, route}
use eth_node_operator.Agent.Bearer.{
  require_api_key-right, require_api_key-wrong, require_api_key-absent, IsRefused,
}
use eth_node_operator.AgentClient.{
  Client, Wire, http_request, bearer, request, post_json, restart, refusal, checked,
}

-- A transport that takes the requests for an address to the agent, and decoders that read what the agent's encoder has written.
pub record IsServed {W : Type 0} (h : Host W) (sources : Sources W) (base : String)
    (wire : Wire (Agent × W)) : Type 0 where
  pub is_address : (path : String) → wire.new_request (base <> path) ≡ ok tt
  pub sends :
      (r : HttpRequest) (s : Agent × W)
      → wire.send base r s ≡ (ok (serve h sources r s).0, (serve h sources r s).1)
  pub reads_status : (status : NodeStatus) → wire.decode_status (status_json status) ≡ ok status
  pub reads_result : (r : ReconcileResult) → wire.decode_result (result_json r) ≡ ok r
  pub reads_diff : (d : DiffResult) → wire.decode_diff (diff_json d) ≡ ok d

differ : {s t : String} → (s == t) ≡ false → s ≢ t
differ {s} {t} h e = ground (arith, eq_iff s t, h, e)

module _ {W : Type 0} (h : Host W) (sources : Sources W) (c : Client)
    (wire : Wire (Agent × W)) where
  bearer-given : c.api_key ≢ "" → bearer c.api_key ≡ "Bearer " <> c.api_key
  bearer-given n = ground (arith, eq_iff c.api_key "")

  -- The routes that the client's calls take.
  serve-cordon :
      (authorization : String) (payload : Option CordonRequest) (a : Agent) (w : W)
      → let r : HttpRequest = http_request "POST" "/cordon" authorization payload in
        serve h sources r (a, w) ≡ require_api_key a.api_key handle_cordon (request_of r) (a, w)
  unfolding serve before_first
  serve-cordon authorization payload a w = refl

  serve-restart :
      (client authorization : String) (a : Agent) (w : W)
      → let r : HttpRequest =
          http_request "POST" ("/restart?client=" <> client) authorization none in
        serve h sources r (a, w)
        ≡ require_api_key a.api_key (handle_restart h) (request_of r) (a, w)
  unfolding serve before_first
  serve-restart client authorization a w =
      ap
        (λ path.
          route h sources path
            (http_request "POST" ("/restart?client=" <> client) authorization none) (a, w))
        (before_first-within b'?' "/restart?client=" client refl)

  abbrev pub cordon_request : CordonRequest → HttpRequest
  cordon_request payload = http_request "POST" "/cordon" (bearer c.api_key) (some payload)

  -- What the client makes of the agent's answer to a request to cordon or uncordon.
  abbrev pub cordon_answer : CordonRequest → Agent × W → Result (Unit {0}) × (Agent × W)
  cordon_answer payload s = (
    checked wire c "/cordon" (serve h sources (cordon_request payload) s).0,
    (serve h sources (cordon_request payload) s).1,
  )

  pub cordon_answer-right :
      (payload : CordonRequest) (a : Agent) (w : W)
      → c.api_key ≢ ""
      → c.api_key ≡ a.api_key
      → cordon_answer payload (a, w)
        ≡ (ok tt, (record a { cordoned = payload.cordoned; reason = payload.reason }, w))
  unfolding handle_cordon
  cordon_answer-right payload a w n e =
      rw
        (
          serve-cordon (bearer c.api_key) (some payload) a w,
          require_api_key-right handle_cordon (request_of (cordon_request payload)) (a, w) a.api_key
              refl (bearer-given n ∙ ap (λ k. "Bearer " <> k) e),
        )
        refl

  -- Whether the agent has no use for the client's key: it has none, or another one.
  abbrev pub IsLockedOut : Agent → Type 0
  IsLockedOut a = (c.api_key ≡ "") ⊎ (c.api_key ≢ a.api_key)

  pub locked_cases : (a : Agent) → IsLockedOut a ⊎ ((c.api_key ≢ "") × (c.api_key ≡ a.api_key))
  locked_cases a = elim (Bool-cases (c.api_key == "")) [
    | inl e ↦ inl (inl ((eq_iff c.api_key "").0 e))
    | inr given ↦ elim (Bool-cases (c.api_key == a.api_key)) [
      | inl same ↦ inr (differ given, (eq_iff c.api_key a.api_key).0 same)
      | inr differs ↦ inl (inr (differ differs))
    ]
  ]

  refused :
      (next : Handler W) (r : Request) (a : Agent) (w : W)
      → IsLockedOut a
      → r.method ≡ "POST"
      → r.authorization ≡ bearer c.api_key
      → IsRefused (a, w) (require_api_key a.api_key next r (a, w))
  refused next r a w (inl none_given) m b =
      require_api_key-absent next r (a, w) a.api_key m (b ∙ ap bearer none_given)
  refused next r a w (inr differs) m b = elim (Bool-cases (c.api_key == "")) [
    | inl e ↦
        require_api_key-absent next r (a, w) a.api_key m (b ∙ ap bearer ((eq_iff c.api_key "").0 e))
    | inr given ↦ require_api_key-wrong next r (a, w) a.api_key c.api_key differs m (b ∙ rw given)
  ]

  checked-err :
      (path : String) (r : Response) → 400 ≤ r.code → (e : String) × (checked wire c path r ≡ err e)
  checked-err path r h = (refusal wire c path r, ground (arith, h))

  pub cordon_answer-refused :
      (payload : CordonRequest) (a : Agent) (w : W)
      → IsLockedOut a
      → (e : String) × (cordon_answer payload (a, w) ≡ (err e, (a, w)))
  cordon_answer-refused payload a w locked =
      let r = request_of (cordon_request payload) in
      let barred = refused handle_cordon r a w locked refl refl in
      let (e, failed) =
        checked-err "/cordon" (require_api_key a.api_key handle_cordon r (a, w)).0 barred.failed in
      (
        e,
        rw (serve-cordon (bearer c.api_key) (some payload) a w)
            (rw (failed, barred.unchanged) refl),
      )

module _ {W : Type 0} (h : Host W) (sources : Sources W) (c : Client) (wire : Wire (Agent × W))
    (served : IsServed h sources c.base_url wire) where
  pub request-served :
      (method path authorization : String) (payload : Option CordonRequest) (s : Agent × W)
      → let r = serve h sources (http_request method path authorization payload) s in
        request wire c method path authorization payload s ≡ (ok r.0, r.1)
  unfolding request
  request-served method path authorization payload s = rw (served.is_address path, served.sends _ s)

  post_json-served :
      (payload : CordonRequest) (s : Agent × W)
      → let r =
          serve h sources (http_request "POST" "/cordon" (bearer c.api_key) (some payload)) s in
        post_json wire c "/cordon" payload s ≡ (checked wire c "/cordon" r.0, r.1)
  unfolding post_json
  post_json-served payload s =
      rw (request-served "POST" "/cordon" (bearer c.api_key) (some payload) s)

  -- Through the transport that serves the agent, a client with the key of the agent, which is not empty, sets
  -- whether the agent is cordoned and why, and nothing else changes.
  pub post_json-right :
      (payload : CordonRequest) (a : Agent) (w : W)
      → c.api_key ≢ ""
      → c.api_key ≡ a.api_key
      → post_json wire c "/cordon" payload (a, w)
        ≡ (ok tt, (record a { cordoned = payload.cordoned; reason = payload.reason }, w))
  post_json-right payload a w n e =
      post_json-served payload (a, w) ∙ cordon_answer-right h sources c wire payload a w n e

  -- `Restart` of a client that has no key, or another than the agent, succeeds, although neither the agent nor its
  -- host changes.
  pub restart-refused :
      (client : String) (a : Agent) (w : W)
      → IsLockedOut h sources c wire a
      → restart wire c client (a, w) ≡ (ok tt, (a, w))
  unfolding restart
  restart-refused client a w locked =
      let r = http_request "POST" ("/restart?client=" <> client) (bearer c.api_key) none in
      let barred =
        refused h sources c wire (handle_restart h) (request_of r) a w locked refl refl in
      rw (request-served "POST" ("/restart?client=" <> client) (bearer c.api_key) none (a, w)) (
        ap (λ s. (ok tt, s))
          (ap (λ x. x.1) (serve-restart h sources c wire client (bearer c.api_key) a w)
            ∙ barred.unchanged))
