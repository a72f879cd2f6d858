-- ===== src/Upgrade.antt =====
-- internal/upgrade/orchestrator.go: the upgrade of one node, over the client of its agent. The
-- children model the rolling upgrade of many nodes, and prove.
mod Tests
pub mod Calls
pub mod Holding
mod Waiting
mod Success
pub mod Rolling
use eth_node_operator.Common.{
  ℕ, zero, suc, ◌+◌, String, ◌<>◌, Bool, true, false, not, ◌&&◌, Option, none, some, List, [], ◌∷◌,
  ◌++◌, ltb, if◌then◌else◌, Result, ok, err, Action, pure, fail, wrap, continue, ◌>>=◌, ◌>>◌,
  is_empty,
}
use eth_node_operator.Types.{NodeStatus, ReconcileResult, DiffResult, UpgradeRequest}

-- The interface by which the orchestrator reaches an agent.
pub record NodeClient (W : Type 0) : Type 0 where
  pub get_status : Action W NodeStatus
  pub cordon : String → Action W Unit
  pub uncordon : Action W Unit
  pub trigger_reconcile : Action W ReconcileResult
  pub get_diff : Action W DiffResult

-- What ends a `select` on the context and the ticker.
pub data Wake : Type 0 where
  done : String → Wake
  tick : Wake

-- The clock, in seconds, and the wait for a tick that is due at the given time or for the end of the
-- context, with the context's error.
pub record Timing (W : Type 0) : Type 0 where
  pub now : W → ℕ
  pub wait : ℕ → W → Wake × W

pub record UpgradeNodeResult : Type 0 where
  pub node_name : String
  pub actions : List String
  pub error : Option String

-- The interval of the ticker, and the time that a node has to be in sync again.
abbrev pub tick_seconds : ℕ
tick_seconds = 15

abbrev pub sync_timeout : ℕ
sync_timeout = 600

-- `%v` of a slice of texts
join_words : List String → String
join_words [] = ""
join_words (s ∷ []) = s
join_words (s ∷ t ∷ rest) = s <> " " <> join_words (t ∷ rest)

unfoldable pub show_list : List String → String
unfolding join_words
show_list texts = "[" <> join_words texts <> "]"

-- `if test { return fmt.Errorf(…) }`
abbrev refuse : {W : Type 0} → Bool → String → Action W Unit
refuse test message = if test then fail message else pure tt

module _ {W : Type 0} (client : NodeClient W) where
  -- The closure `check` of `waitForSync`.
  unfoldable pub check_synced : Action W Bool
  check_synced = do status ← client.get_status; pure (status.el.synced && status.cl.synced)

  -- 1. Pre-flight checks
  unfoldable pub preflight : Bool → Action W Unit
  preflight skip =
      if not skip
      then (do
        status ← wrap (λ e. "get status for preflight: " <> e) client.get_status
        refuse (not status.el.synced) "preflight failed: EL not synced"
        refuse (not status.cl.synced) "preflight failed: CL not synced")
      else pure tt

-- What the loop does with an answer: it ends when the node is in sync, and goes on otherwise, also after
-- an error.
abbrev pub after_check :
    {W : Type 0}
    → Result Bool × W
    → (W → Option (Result (Unit {0})) × W)
    → Option (Result (Unit {0})) × W
after_check (ok true, w) loop = (some (ok tt), w)
after_check (ok false, w) loop = loop w
after_check (err e, w) loop = loop w

module _ {W : Type 0} (client : NodeClient W) (timing : Timing W) where
  abbrev pub after_wake :
      Wake × W → (W → Option (Result (Unit {0})) × W) → Option (Result (Unit {0})) × W
  after_wake (done e, w) loop = (some (err e), w)
  after_wake (tick, w) loop = after_check (check_synced client w) loop

  -- The `for` loop of `waitForSync`: `due` is when the ticker's next tick is due. `none` means that
  -- the fuel ran out.
  unfoldable pub wait_loop : ℕ → ℕ → ℕ → W → Option (Result (Unit {0})) × W
  wait_loop zero deadline due w = (none, w)
  wait_loop (suc fuel) deadline due w =
      let woken = after_wake (timing.wait due w) (wait_loop fuel deadline (due + tick_seconds)) in
      if ltb deadline (timing.now w)
      then (some (err "timed out waiting for sync after 10m0s"), w)
      else woken

  unfoldable pub wait_for_sync : ℕ → ℕ → W → Option (Result (Unit {0})) × W
  unfolding wait_loop check_synced
  wait_for_sync fuel timeout w =
      let deadline = timing.now w + timeout in
      after_check (check_synced client w)
        (λ w1. wait_loop fuel deadline (timing.now w1 + tick_seconds) w1)

  -- What is left of the upgrade after the wait.
  abbrev pub after_wait :
      List String → Option (Result (Unit {0})) → Option (List String × Option String)
  after_wait actions none = none
  after_wait actions (some (ok _)) = some (actions ++ "sync recovered" ∷ [], none)
  after_wait actions (some (err e)) = some (actions, some ("wait for sync: " <> e))

  -- 3. and 4. Reconcile, and wait for the clients to be in sync again.
  after_reconcile : ℕ → Result ReconcileResult × W → Option (List String × Option String) × W
  unfolding show_list wait_for_sync
  after_reconcile fuel (err e, w) = (some ("cordoned" ∷ [], some ("trigger reconcile: " <> e)), w)
  after_reconcile fuel (ok r, w) =
      let (waited, w') = wait_for_sync fuel sync_timeout w in
      if not (is_empty r.errors)
      then (some ("cordoned" ∷ r.actions, some ("reconcile errors: " <> show_list r.errors)), w)
      else (after_wait ("cordoned" ∷ r.actions) waited, w')

  unfoldable pub while_cordoned : ℕ → W → Option (List String × Option String) × W
  unfolding after_reconcile
  while_cordoned fuel w = after_reconcile fuel (client.trigger_reconcile w)

  abbrev pub named : String → Option (List String × Option String) → Option UpgradeNodeResult
  named name none = none
  named name (some (actions, error)) =
      some (record { node_name = name; actions = actions; error = error })

  -- The deferred call: the node is uncordoned whatever happened, and an error of that is only logged.
  after_cordon : ℕ → String → Result (Unit {0}) × W → Option UpgradeNodeResult × W
  unfolding while_cordoned
  after_cordon fuel name (err e, w) = (named name (some ([], some ("cordon: " <> e))), w)
  after_cordon fuel name (ok _, w) =
      let (r, w1) = while_cordoned fuel w in let (_, w2) = client.uncordon w1 in (named name r, w2)

  -- 2. Cordon the node, if the checks have passed.
  after_preflight : ℕ → String → Result (Unit {0}) × W → Option UpgradeNodeResult × W
  unfolding after_cordon
  after_preflight fuel name (err e, w) = (named name (some ([], some e)), w)
  after_preflight fuel name (ok _, w) = after_cordon fuel name (client.cordon "rolling upgrade" w)

  unfoldable pub upgrade_node : ℕ → String → UpgradeRequest → W → Option UpgradeNodeResult × W
  unfolding preflight after_preflight
  upgrade_node fuel name req w = after_preflight fuel name (preflight client req.skip_preflight w)
