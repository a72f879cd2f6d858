-- ===== src/AgentClient/Holding.antt =====
-- internal/upgrade over cli/agentclient and internal/agent: an upgrade that reaches the agent itself.
use eth_node_operator.Common.{
  ℕ, String, ◌<>◌, ◌≡◌, ◌≢◌, refl, sym, ap, ◌∙◌, ◌>>=◌, wrap, Bool, true, false, none,
  if◌then◌else◌, Result, ok, err, map_err, continue, pure, eq_iff, ◌==◌, ◌⊎◌, inl, inr, arith,
}
use eth_node_operator.Common.Text.{before_first}
use eth_node_operator.Types.{UpgradeRequest, NodeStatus, CordonRequest}
use eth_node_operator.Agent.{Agent, Host, Response}
use eth_node_operator.Agent.Status.{handle_status, report_status}
use eth_node_operator.Agent.Routes.{Sources, serve}
use eth_node_operator.AgentClient.{
  Client, Wire, http_request, renamed, node_client, get_status, uncordon, cordon,
}
use eth_node_operator.AgentClient.Loopback.{
  cordon_answer, cordon_answer-right, cordon_answer-refused, locked_cases,
}
use eth_node_operator.Upgrade.{Timing, upgrade_node}
use eth_node_operator.Upgrade.Holding.{Holds, upgrade_node-frees}
use eth_node_operator.AgentClient.Lost.{IsSent, IsReached, IsLost, post_json-sent}

module _ {W : Type 0} (h : Host W) (sources : Sources W) (c : Client) (wire : Wire (Agent × W))
    (reached : IsReached h sources c.base_url wire) where
  -- Whether the agent is cordoned, if the client's key is its own.
  abbrev pub is_held : Agent × W → Bool
  is_held (a, w) = if c.api_key == a.api_key then a.cordoned else false

  report-held :
      (r : Result (Unit {0})) (s : Agent × W) → is_held (report_status h r s).1 ≡ is_held s
  unfolding report_status
  report-held (ok u) (a, w) = refl
  report-held (err e) (a, w) = refl

  decoded_status :
      (r : Result NodeStatus) (s : Agent × W)
      → (continue
          (map_err (λ e. "decode status: " <> e) r)
          (λ status. pure (renamed wire c status))
          s).1
        ≡ s
  decoded_status (ok status) s = refl
  decoded_status (err e) s = refl

  served_status :
      (s : Agent × W)
      → is_held (serve h sources (http_request "GET" "/status" "" none) s).1 ≡ is_held s
  unfolding serve before_first handle_status
  served_status (a, w) = report-held (h.collect w).0 (a, (h.collect w).1)

  -- The status, of an answer or of an error.
  abbrev read_status : Result Response × (Agent × W) → Result NodeStatus × (Agent × W)
  read_status (ok resp, s) =
      continue (map_err (λ e. "decode status: " <> e) (wire.decode_status resp.body))
        (λ status. pure (renamed wire c status)) s
  read_status (err e, s) = (err (c.node <> " " <> "/status" <> ": " <> e), s)

  read_status-same : (x : Result Response × (Agent × W)) → (read_status x).1 ≡ x.1
  read_status-same (ok resp, s) = decoded_status _ s
  read_status-same (err e, s) = refl

  sent-held :
      (s : Agent × W) (x : Result Response × (Agent × W))
      → IsSent h sources (http_request "GET" "/status" "" none) s x
      → is_held x.1 ≡ is_held s
  sent-held s x (inl answered) = ap (λ y. is_held y.1) answered ∙ served_status s
  sent-held s x (inr (e, failed, inl same)) = ap is_held same
  sent-held s x (inr (e, failed, inr taken)) = ap is_held taken ∙ served_status s

  status_cases :
      (x : Result Response × (Agent × W))
      → continue
          (map_err (λ e. c.node <> " " <> "/status" <> ": " <> e) x.0)
          (λ resp.
            wrap (λ e. "decode status: " <> e) (λ w. (wire.decode_status resp.body, w))
            >>= λ status. pure (renamed wire c status))
          x.1
        ≡ read_status x
  status_cases (ok resp, s) = refl
  status_cases (err e, s) = refl

  get_status_lem :
      (s : Agent × W)
      → get_status wire c s
        ≡ read_status (wire.send c.base_url (http_request "GET" "/status" "" none) s)
  unfolding get_status
  get_status_lem s = rw (reached.is_address "/status") (status_cases _)

  get_status-held : (s : Agent × W) → is_held (get_status wire c s).1 ≡ is_held s
  get_status-held s =
      ap (λ x. is_held x.1) (get_status_lem s)
      ∙ ap is_held (read_status-same _)
      ∙ sent-held s (wire.send c.base_url (http_request "GET" "/status" "" none) s)
          (reached.sends _ s)

  same_key : (s : Agent × W) → is_held s ≡ false → c.api_key ≡ s.0.api_key → s.0.cordoned ≡ false
  same_key (a, w) free e = ground (arith, eq_iff c.api_key a.api_key, free, e)

  other_key : (a : Agent) (w : W) → c.api_key ≢ a.api_key → is_held (a, w) ≡ false
  other_key a w n = ground (arith, eq_iff c.api_key a.api_key, n)

  free_agent : (a : Agent) (w : W) → a.cordoned ≡ false → is_held (a, w) ≡ false
  free_agent a w e = ground (arith, e)

  answer-frees :
      c.api_key ≢ ""
      → (s : Agent × W)
      → is_held (cordon_answer h sources c wire (record { cordoned = false; reason = "" }) s).1
        ≡ false
  answer-frees given (a, w) = elim (locked_cases h sources c wire a) [
    | inl (inl no_key) ↦ absurd (given no_key)
    | inl (inr differs) ↦
        let (e, r) =
          cordon_answer-refused h sources c wire (record { cordoned = false; reason = "" }) a w
            (inr differs) in
        ap (λ x. is_held x.1) r ∙ other_key a w differs
    | inr (n, e) ↦
        ap (λ x. is_held x.1)
          (cordon_answer-right h sources c wire (record { cordoned = false; reason = "" }) a w n e)
        ∙ (let freed : Agent = record a { cordoned = false; reason = "" } in
            free_agent freed w refl)
  ]

  answer-failed :
      (payload : CordonRequest) (s : Agent × W) (x : String)
      → (cordon_answer h sources c wire payload s).0 ≡ err x
      → is_held (cordon_answer h sources c wire payload s).1 ≡ is_held s
  answer-failed payload (a, w) x failed = elim (locked_cases h sources c wire a) [
    | inl locked ↦
        let (e, r) = cordon_answer-refused h sources c wire payload a w locked in
        ap (λ x. is_held x.1) r
    | inr (n, e) ↦ cc (failed, ap (λ x. x.0) (cordon_answer-right h sources c wire payload a w n e))
  ]

  uncordon-frees :
      c.api_key ≢ ""
      → (s : Agent × W)
      → (is_held (uncordon wire c s).1 ≡ false) ⊎ IsLost h sources c wire (uncordon wire c s).1
  unfolding uncordon
  uncordon-frees given s =
      elim (post_json-sent h sources c wire reached (record { cordoned = false; reason = "" }) s) [
        | inl answered ↦ inl (ap (λ x. is_held x.1) answered ∙ answer-frees given s)
        | inr gone ↦ inr gone
      ]

  cordon-failed :
      (reason : String) (s : Agent × W) (x : String)
      → (cordon wire c reason s).0 ≡ err x
      → (is_held (cordon wire c reason s).1 ≡ is_held s)
        ⊎ IsLost h sources c wire (cordon wire c reason s).1
  unfolding cordon
  cordon-failed reason s x failed =
      elim (post_json-sent h sources c wire reached (record { cordoned = true; reason = reason })
        s) [
          | inl answered ↦ inl (
              ap (λ y. is_held y.1) answered
              ∙ answer-failed (record { cordoned = true; reason = reason }) s x
                  (sym (ap (λ y. y.0) answered) ∙ failed))
          | inr gone ↦ inr gone
        ]

  client-Holds : c.api_key ≢ "" → Holds (node_client wire c) is_held (IsLost h sources c wire)
  client-Holds given = record {
    status_same = get_status-held;
    cordon_failed = cordon-failed;
    uncordon_frees = uncordon-frees given;
  }

  freed_cases :
      (s : Agent × W)
      → (is_held s ≡ false) ⊎ IsLost h sources c wire s
      → c.api_key ≡ s.0.api_key
      → (s.0.cordoned ≡ false) ⊎ IsLost h sources c wire s
  freed_cases s (inl free) e = inl (same_key s free e)
  freed_cases s (inr gone) e = inr gone

  -- The upgrade of the orchestrator, through the client and the handlers of an agent that is not cordoned, over a transport that
  -- may fail at any request, before or after the agent takes it: the agent is not cordoned at the end, or the end is the state
  -- that a request to cordon or uncordon left which failed in transport. This holds for any number of ticks of the
  -- wait and any timing, if the client has a key and the agent that is left has the same one.
  pub upgrade_node-not_cordoned :
      (timing : Timing (Agent × W)) (fuel : ℕ) (name : String) (req : UpgradeRequest)
      (s : Agent × W)
      → c.api_key ≢ ""
      → s.0.cordoned ≡ false
      → c.api_key ≡ (upgrade_node (node_client wire c) timing fuel name req s).1.0.api_key
      → ((upgrade_node (node_client wire c) timing fuel name req s).1.0.cordoned ≡ false)
        ⊎ IsLost h sources c wire (upgrade_node (node_client wire c) timing fuel name req s).1
  upgrade_node-not_cordoned timing fuel name req (a, w) given free e =
      freed_cases _
        (upgrade_node-frees (node_client wire c) timing is_held (IsLost h sources c wire)
          (client-Holds given) fuel name req (a, w) (free_agent a w free))
        e
