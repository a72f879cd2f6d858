-- ===== src/AgentClient/Lost.antt =====
-- cli/agentclient/client.go over a transport that may fail: what the client makes of a request to cordon or uncordon.
use eth_node_operator.Common.{
  String, ◌<>◌, ◌≡◌, refl, sym, subst, ap, ◌∙◌, Result, ok, err, map_err, continue, ◌⊎◌, inl, inr,
}
use eth_node_operator.Types.{CordonRequest}
use eth_node_operator.Agent.{Agent, Host, Response}
use eth_node_operator.Agent.Routes.{HttpRequest, Sources, serve}
use eth_node_operator.AgentClient.{Client, Wire, post_json, checked}
use eth_node_operator.AgentClient.Loopback.{cordon_request, cordon_answer}

-- What becomes of a request: the agent answers it, or it fails before or after the agent has taken it.
abbrev pub IsSent :
    {W : Type 0}
    → Host W
    → Sources W
    → HttpRequest
    → Agent × W
    → Result Response × (Agent × W)
    → Type 0
IsSent h sources r s x =
    (x ≡ (ok (serve h sources r s).0, (serve h sources r s).1))
    ⊎ ((e : String) × (x.0 ≡ err e) × ((x.1 ≡ s) ⊎ (x.1 ≡ (serve h sources r s).1)))

-- A transport to the agent that may fail, at any request.
pub record IsReached {W : Type 0} (h : Host W) (sources : Sources W) (base : String)
    (wire : Wire (Agent × W)) : Type 0 where
  pub is_address : (path : String) → wire.new_request (base <> path) ≡ ok tt
  pub sends : (r : HttpRequest) (s : Agent × W) → IsSent h sources r s (wire.send base r s)

module _ {W : Type 0} (h : Host W) (sources : Sources W) (c : Client)
    (wire : Wire (Agent × W)) where
  -- The state is what a request to cordon or uncordon has left that failed in transport.
  pub record IsLost (s' : Agent × W) : Type 0 where
    pub before : Agent × W
    pub payload : CordonRequest
    pub message : String
    pub failed :
        wire.send c.base_url (cordon_request h sources c wire payload) before ≡ (err message, s')

module _ {W : Type 0} (h : Host W) (sources : Sources W) (c : Client) (wire : Wire (Agent × W))
    (reached : IsReached h sources c.base_url wire) where
  -- What the client makes of a request to cordon or uncordon, answered or not.
  abbrev cordon_result : Result Response × (Agent × W) → Result (Unit {0}) × (Agent × W)
  cordon_result (ok resp, s) = (checked wire c "/cordon" resp, s)
  cordon_result (err e, s) = (err (c.node <> " " <> "/cordon" <> ": " <> e), s)

  cordon_cases :
      (x : Result Response × (Agent × W))
      → continue
          (map_err (λ e. c.node <> " " <> "/cordon" <> ": " <> e) x.0)
          (λ resp w. (checked wire c "/cordon" resp, w))
          x.1
        ≡ cordon_result x
  cordon_cases (ok resp, s) = refl
  cordon_cases (err e, s) = refl

  post_json_lem :
      (payload : CordonRequest) (s : Agent × W)
      → post_json wire c "/cordon" payload s
        ≡ cordon_result (wire.send c.base_url (cordon_request h sources c wire payload) s)
  unfolding post_json
  post_json_lem payload s =
      rw (reached.is_address "/cordon")
        (cordon_cases (wire.send c.base_url (cordon_request h sources c wire payload) s))

  cordon_result-same : (x : Result Response × (Agent × W)) → (cordon_result x).1 ≡ x.1
  cordon_result-same (ok resp, s) = refl
  cordon_result-same (err e, s) = refl

  lost :
      (payload : CordonRequest) (s : Agent × W) (x : Result Response × (Agent × W)) (e : String)
      → wire.send c.base_url (cordon_request h sources c wire payload) s ≡ x
      → x.0 ≡ err e
      → IsLost h sources c wire x.1
  lost payload s (ok resp, s') e sent failed = cc
  lost payload s (err x, s') e sent failed = record {
    before = s;
    payload = payload;
    message = x;
    failed = sent;
  }

  -- The client makes of a request what it makes of the agent's answer, or the request is lost.
  pub post_json-sent :
      (payload : CordonRequest) (s : Agent × W)
      → (post_json wire c "/cordon" payload s ≡ cordon_answer h sources c wire payload s)
        ⊎ IsLost h sources c wire (post_json wire c "/cordon" payload s).1
  post_json-sent payload s = elim (reached.sends (cordon_request h sources c wire payload) s) [
    | inl answered ↦ inl (post_json_lem payload s ∙ ap cordon_result answered)
    | inr (e, failed, rest) ↦ inr (
        subst (IsLost h sources c wire)
          (sym (ap (λ x. x.1) (post_json_lem payload s) ∙ cordon_result-same _))
          (lost payload s (wire.send c.base_url (cordon_request h sources c wire payload) s) e refl
            failed))
  ]
