-- ===== src/Upgrade/Waiting.antt =====
-- internal/upgrade/orchestrator.go: the wait for a node to be in sync again ends.
use eth_node_operator.Common.{
  ℕ, zero, suc, ◌+◌, ◌*◌, ◌≤◌, ◌<◌, String, ◌≡◌, ◌≢◌, refl, ltb, Bool-cases, inl, inr, Bool, true,
  false, Option, none, some, List, ◌∷◌, arith, Result, ok, err,
}
use eth_node_operator.Types.{UpgradeRequest, ReconcileResult}
use eth_node_operator.Upgrade.{
  NodeClient, Timing, Wake, tick_seconds, sync_timeout, check_synced, preflight, after_check,
  after_wake, wait_loop, wait_for_sync, after_reconcile, while_cordoned, after_cordon,
  after_preflight, upgrade_node, after_wait, named,
}

-- What the package `time` says of a ticker and of the clock: a tick is received no earlier than it is due, and
-- no call turns the clock back.
pub record TimingLaws {W : Type 0} (client : NodeClient W) (timing : Timing W) : Type 0 where
  pub tick_due :
      (due : ℕ) (w : W) → (timing.wait due w).0 ≡ Wake.tick → due ≤ timing.now (timing.wait due w).1
  pub status_forward : (w : W) → timing.now w ≤ timing.now (client.get_status w).1

not-lt_of_ltb : (a b : ℕ) → ltb a b ≡ false → b ≤ a
not-lt_of_ltb a b h = ground arith

module _ {W : Type 0} (client : NodeClient W) (timing : Timing W)
    (laws : TimingLaws client timing) where
  check_forward : (w : W) → timing.now w ≤ timing.now (check_synced client w).1
  unfolding check_synced
  check_forward w = ground (arith, laws.status_forward w)

  after_check-ne-none :
      (r : Result Bool) (w : W) (loop : W → Option (Result (Unit {0})) × W)
      → (loop w).0 ≢ none
      → (after_check (r, w) loop).0 ≢ none
  after_check-ne-none (ok true) w loop h = cc
  after_check-ne-none (ok false) w loop h = h
  after_check-ne-none (err e) w loop h = h

  after_wake-ne-none :
      (wake : Wake) (w : W) (loop : W → Option (Result (Unit {0})) × W)
      → (wake ≡ Wake.tick → (w1 : W) → timing.now w ≤ timing.now w1 → (loop w1).0 ≢ none)
      → (after_wake client timing (wake, w) loop).0 ≢ none
  after_wake-ne-none (Wake.done e) w loop h = cc
  after_wake-ne-none Wake.tick w loop h =
      let (r, w1) = check_synced client w in
      after_check-ne-none r w1 loop (h refl w1 (check_forward w))

  -- When a round starts, the tick before the one that is due has been received; the fuel is enough if
  -- that many ticks pass the deadline.
  loop-ne-none :
      (fuel deadline due : ℕ) (w : W)
      → due ≤ timing.now w + tick_seconds
      → deadline + 2 * tick_seconds < due + tick_seconds * suc fuel
      → (wait_loop client timing (suc fuel) deadline due w).0 ≢ none
  unfolding wait_loop
  loop-ne-none zero deadline due w h k = elim (Bool-cases (ltb deadline (timing.now w))) [
    | inl late ↦ rw late (cc)
    | inr early ↦ absurd (omega (arith, not-lt_of_ltb deadline (timing.now w) early))
  ]
  loop-ne-none (suc fuel) deadline due w h k = elim (Bool-cases (ltb deadline (timing.now w))) [
    | inl late ↦ rw late (cc)
    | inr early ↦ rw early (
        after_wake-ne-none (timing.wait due w).0 (timing.wait due w).1 _ (λ ticked w1 later.
          loop-ne-none fuel deadline (due + tick_seconds) w1
            (omega (arith, laws.tick_due due w ticked)) (omega arith)))
  ]

  wait-ne-none : (w : W) → (wait_for_sync client timing 42 sync_timeout w).0 ≢ none
  unfolding wait_for_sync
  wait-ne-none w =
      let (r, w1) = check_synced client w in
      after_check-ne-none r w1 _ (
        loop-ne-none 41 (timing.now w + sync_timeout) (timing.now w1 + tick_seconds) w1
          (omega arith) (omega (arith, check_forward w)))

  after_wait-ne-none :
      (actions : List String) (waited : Option (Result (Unit {0})))
      → waited ≢ none
      → after_wait client timing actions waited ≢ none
  after_wait-ne-none actions none h = absurd (h refl)
  after_wait-ne-none actions (some (ok _)) h = cc
  after_wait-ne-none actions (some (err e)) h = cc

  reconcile-ne-none :
      (r : Result ReconcileResult) (w : W) → (after_reconcile client timing 42 (r, w)).0 ≢ none
  unfolding after_reconcile
  reconcile-ne-none (err e) w = cc
  reconcile-ne-none (ok r) w =
      ground (arith, after_wait-ne-none ("cordoned" ∷ r.actions) _ (wait-ne-none w))

  named-ne-none :
      (name : String) (r : Option (List String × Option String))
      → r ≢ none
      → named client timing name r ≢ none
  named-ne-none name none h = absurd (h refl)
  named-ne-none name (some (actions, error)) h = cc

  cordon-ne-none :
      (name : String) (r : Result (Unit {0})) (w : W)
      → (after_cordon client timing 42 name (r, w)).0 ≢ none
  unfolding after_cordon while_cordoned
  cordon-ne-none name (err e) w = cc
  cordon-ne-none name (ok _) w =
      let (r, w1) = client.trigger_reconcile w in named-ne-none name _ (reconcile-ne-none r w1)

  preflight-ne-none :
      (name : String) (r : Result (Unit {0})) (w : W)
      → (after_preflight client timing 42 name (r, w)).0 ≢ none
  unfolding after_preflight
  preflight-ne-none name (err e) w = cc
  preflight-ne-none name (ok _) w =
      let (r, w1) = client.cordon "rolling upgrade" w in cordon-ne-none name r w1

  -- With fuel for 42 ticks an upgrade always comes to its end, with a result: by then the ticks of fifteen seconds
  -- have passed the ten minutes that the wait may take.
  pub upgrade_node-ne-none :
      (name : String) (req : UpgradeRequest) (w : W)
      → (upgrade_node client timing 42 name req w).0 ≢ none
  unfolding upgrade_node
  upgrade_node-ne-none name req w =
      let (r, w1) = preflight client req.skip_preflight w in preflight-ne-none name r w1
