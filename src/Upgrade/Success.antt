-- ===== src/Upgrade/Success.antt =====
-- internal/upgrade/orchestrator.go: what a result without an error says of the node.
use eth_node_operator.Common.{
  ℕ, zero, suc, ◌+◌, String, ◌≡◌, refl, ltb, Bool-cases, inl, inr, Bool, true, false, Option, none,
  some, List, [], ◌∷◌, ◌++◌, arith, Result, ok, err, pure, continue, ◌&&◌,
}
use eth_node_operator.Types.{UpgradeRequest, ReconcileResult, NodeStatus}
use eth_node_operator.Upgrade.{
  NodeClient, Timing, Wake, UpgradeNodeResult, tick_seconds, sync_timeout, check_synced, preflight,
  after_check, after_wake, wait_loop, wait_for_sync, after_reconcile, while_cordoned, after_cordon,
  after_preflight, upgrade_node, after_wait, named,
}

module _ {W : Type 0} (client : NodeClient W) (timing : Timing W) where
  -- The moments that are reached from one by asking for the status, and by waiting.
  pub data Later (w : W) : W → Type 0 where
    here : Later w w
    asked : {w1 : W} → Later w w1 → Later w (client.get_status w1).1
    waited : {w1 : W} (due : ℕ) → Later w w1 → Later w (timing.wait due w1).1

  -- From `w` on the wait has come to a moment at which the agent answers that both clients are in sync.
  pub record WasSynced (w : W) : Type 0 where
    pub moment : W
    pub later : Later w moment
    pub status : NodeStatus
    pub answered : (client.get_status moment).0 ≡ ok status
    pub el_synced : status.el.synced ≡ true
    pub cl_synced : status.cl.synced ≡ true

  answer-synced :
      (r : Result NodeStatus) (w : W)
      → (continue r (λ s. pure (s.el.synced && s.cl.synced)) w).0 ≡ ok true
      → (s : NodeStatus) × (r ≡ ok s) × (s.el.synced ≡ true) × (s.cl.synced ≡ true)
  answer-synced (ok s) w h = (s, refl, ground arith, ground arith)
  answer-synced (err e) w h = cc

  check-WasSynced : (w0 w : W) → Later w0 w → (check_synced client w).0 ≡ ok true → WasSynced w0
  unfolding check_synced
  check-WasSynced w0 w l h =
      let (s, answered, el, cl) = answer-synced (client.get_status w).0 (client.get_status w).1 h in
      record {
        moment = w;
        later = l;
        status = s;
        answered = answered;
        el_synced = el;
        cl_synced = cl;
      }

  world-continue :
      (r : Result NodeStatus) (w : W)
      → (continue r (λ s. pure (s.el.synced && s.cl.synced)) w).1 ≡ w
  world-continue (ok s) w = refl
  world-continue (err e) w = refl

  check-Later : (w0 w : W) → Later w0 w → Later w0 (check_synced client w).1
  unfolding check_synced
  check-Later w0 w l = rw world-continue (asked l)

  abbrev Loop : Type 0
  Loop = W → Option (Result (Unit {0})) × W

  abbrev IsSuccess : Option (Result (Unit {0})) → Type 0
  IsSuccess r = r ≡ some (ok tt)

  after_check-WasSynced :
      (w0 : W) (r : Result Bool) (w : W) (loop : Loop)
      → (r ≡ ok true → WasSynced w0)
      → (IsSuccess (loop w).0 → WasSynced w0)
      → IsSuccess (after_check (r, w) loop).0
      → WasSynced w0
  after_check-WasSynced w0 (ok true) w loop h k e = h refl
  after_check-WasSynced w0 (ok false) w loop h k e = k e
  after_check-WasSynced w0 (err _) w loop h k e = k e

  after_wake-WasSynced :
      (w0 : W) (wake : Wake) (w : W) (loop : Loop)
      → Later w0 w
      → ((w1 : W) → Later w0 w1 → IsSuccess (loop w1).0 → WasSynced w0)
      → IsSuccess (after_wake client timing (wake, w) loop).0
      → WasSynced w0
  after_wake-WasSynced w0 (Wake.done _) w loop l k e = cc
  after_wake-WasSynced w0 Wake.tick w loop l k e =
      let (r, w1) = check_synced client w in
      after_check-WasSynced w0 r w1 loop (check-WasSynced w0 w l) (k w1 (check-Later w0 w l)) e

  loop-WasSynced :
      (w0 : W) (fuel deadline due : ℕ) (w : W)
      → Later w0 w
      → IsSuccess (wait_loop client timing fuel deadline due w).0
      → WasSynced w0
  unfolding wait_loop
  loop-WasSynced w0 zero deadline due w l e = cc
  loop-WasSynced w0 (suc fuel) deadline due w l e =
      elim (Bool-cases (ltb deadline (timing.now w))) [
        | inl late ↦ cc (rw late at e)
        | inr early ↦
            after_wake-WasSynced w0 (timing.wait due w).0 (timing.wait due w).1 _ (waited due l)
              (loop-WasSynced w0 fuel deadline (due + tick_seconds)) (rw early at e)
      ]

  wait-WasSynced :
      (fuel timeout : ℕ) (w : W)
      → IsSuccess (wait_for_sync client timing fuel timeout w).0
      → WasSynced w
  unfolding wait_for_sync
  wait-WasSynced fuel timeout w e =
      let (r, w1) = check_synced client w in
      after_check-WasSynced w r w1 _ (check-WasSynced w w here)
        (loop-WasSynced w fuel _ _ w1 (check-Later w w here)) e

  -- A reconcile that was asked for at `start` and had no error, with the wait that came to its end.
  pub record IsUpgraded (start : W) (actions : List String) : Type 0 where
    pub result : ReconcileResult
    pub reconciled : (client.trigger_reconcile start).0 ≡ ok result
    pub no_errors : result.errors ≡ []
    pub recorded : actions ≡ "cordoned" ∷ result.actions ++ "sync recovered" ∷ []
    pub synced : WasSynced (client.trigger_reconcile start).1

  after_wait-IsSuccess :
      (actions actions' : List String) (waited : Option (Result (Unit {0})))
      → after_wait client timing actions waited ≡ some (actions', none)
      → IsSuccess waited × (actions' ≡ actions ++ "sync recovered" ∷ [])
  after_wait-IsSuccess actions actions' none e = cc
  after_wait-IsSuccess actions actions' (some (ok _)) e = ground arith
  after_wait-IsSuccess actions actions' (some (err _)) e = cc

  reconcile-success :
      (fuel : ℕ) (r : ReconcileResult) (w : W) (actions : List String)
      → (after_reconcile client timing fuel (ok r, w)).0 ≡ some (actions, none)
      → (r.errors ≡ []) × (actions ≡ "cordoned" ∷ r.actions ++ "sync recovered" ∷ []) × WasSynced w
  unfolding after_reconcile
  reconcile-success fuel r w actions e = go r.errors refl
    where
      go :
          (errors : List String)
          → r.errors ≡ errors
          → (r.errors ≡ [])
            × (actions ≡ "cordoned" ∷ r.actions ++ "sync recovered" ∷ [])
            × WasSynced w
      go [] h =
          let (done, acts) =
            after_wait-IsSuccess ("cordoned" ∷ r.actions) actions
              (wait_for_sync client timing fuel sync_timeout w).0 (rw h at e) in
          (h, acts, wait-WasSynced fuel sync_timeout w done)
      go (x ∷ xs) h = cc (rw h at e)

  while_cordoned-IsUpgraded :
      (fuel : ℕ) (w : W) (actions : List String)
      → (while_cordoned client timing fuel w).0 ≡ some (actions, none)
      → IsUpgraded w actions
  unfolding while_cordoned after_reconcile
  while_cordoned-IsUpgraded fuel w actions e = go (client.trigger_reconcile w).0 refl
    where
      go : (r : Result ReconcileResult) → (client.trigger_reconcile w).0 ≡ r → IsUpgraded w actions
      go (ok r) h =
          let (clean, acts, synced) =
            reconcile-success fuel r (client.trigger_reconcile w).1 actions (rw h at e) in
          record { result = r; reconciled = h; no_errors = clean; recorded = acts; synced = synced }
      go (err _) h = cc (rw h at e)

  named-success :
      (name : String) (r : Option (List String × Option String)) (result : UpgradeNodeResult)
      → named client timing name r ≡ some result
      → result.error ≡ none
      → (r ≡ some (result.actions, none)) × (result.node_name ≡ name)
  named-success name none result e h = cc
  named-success name (some (actions, error)) result e h = ground arith

  -- The upgrade of the named node has gone through from some moment on.
  abbrev pub HasUpgraded : String → UpgradeNodeResult → Type 0
  HasUpgraded name result =
      (start : W) × IsUpgraded start result.actions × (result.node_name ≡ name)

  cordon-success :
      (fuel : ℕ) (name : String) (r : Result (Unit {0})) (w : W) (result : UpgradeNodeResult)
      → (after_cordon client timing fuel name (r, w)).0 ≡ some result
      → result.error ≡ none
      → HasUpgraded name result
  unfolding after_cordon
  cordon-success fuel name (err _) w result e h = cc
  cordon-success fuel name (ok _) w result e h =
      let (done, same) = named-success name (while_cordoned client timing fuel w).0 result e h in
      (w, while_cordoned-IsUpgraded fuel w result.actions done, same)

  preflight-success :
      (fuel : ℕ) (name : String) (r : Result (Unit {0})) (w : W) (result : UpgradeNodeResult)
      → (after_preflight client timing fuel name (r, w)).0 ≡ some result
      → result.error ≡ none
      → HasUpgraded name result
  unfolding after_preflight
  preflight-success fuel name (err _) w result e h = cc
  preflight-success fuel name (ok _) w result e h =
      let (r, w1) = client.cordon "rolling upgrade" w in cordon-success fuel name r w1 result e h

  -- A result without an error names the node, and stands for a reconcile that had no errors, whose actions it lists
  -- between "cordoned" and "sync recovered", and after which the agent has answered that both
  -- clients are in sync.
  pub upgrade_node-IsUpgraded :
      (fuel : ℕ) (name : String) (req : UpgradeRequest) (w : W) (result : UpgradeNodeResult)
      → (upgrade_node client timing fuel name req w).0 ≡ some result
      → result.error ≡ none
      → (start : W) × IsUpgraded start result.actions × (result.node_name ≡ name)
  unfolding upgrade_node
  upgrade_node-IsUpgraded fuel name req w result e h =
      let (r, w1) = preflight client req.skip_preflight w in
      preflight-success fuel name r w1 result e h
