-- ===== src/Upgrade/Calls.antt =====
-- internal/upgrade/orchestrator.go: the calls that an upgrade makes to a node's agent. A node is
-- held from a successful `Cordon` to the next successful `Uncordon`.
use eth_node_operator.Common.{
  ℕ, zero, suc, ◌+◌, String, ◌≡◌, refl, ◌∙◌, ltb, Bool-cases, inl, inr, ◌⊎◌, Bool, true, false,
  Option, List, [], ◌∷◌, arith, Result, ok, err, Action,
}
use eth_node_operator.Types.{UpgradeRequest, ReconcileResult}
use eth_node_operator.Upgrade.{
  NodeClient, Timing, Wake, tick_seconds, sync_timeout, check_synced, preflight, after_check,
  after_wake, wait_loop, wait_for_sync, after_reconcile, while_cordoned, after_cordon,
  after_preflight, upgrade_node,
}

-- A call, with its success where that matters.
pub data Call : Type 0 where
  asked_status reconciled diffed : Call
  cordoned uncordoned : Bool → Call

-- Whether a node is held after the calls, the newest first.
abbrev pub held : List Call → Bool
held [] = false
held (cordoned true ∷ calls) = true
held (cordoned false ∷ calls) = held calls
held (uncordoned true ∷ calls) = false
held (uncordoned false ∷ calls) = held calls
held (asked_status ∷ calls) = held calls
held (reconciled ∷ calls) = held calls
held (diffed ∷ calls) = held calls

-- Every reconcile was asked for while the node was held.
abbrev pub IsGuarded : List Call → Type 0
IsGuarded [] = Unit
IsGuarded (reconciled ∷ calls) = (held calls ≡ true) × IsGuarded calls
IsGuarded (cordoned b ∷ calls) = IsGuarded calls
IsGuarded (uncordoned b ∷ calls) = IsGuarded calls
IsGuarded (asked_status ∷ calls) = IsGuarded calls
IsGuarded (diffed ∷ calls) = IsGuarded calls

-- The last call was an `Uncordon` that failed.
abbrev pub ends_failing : List Call → Bool
ends_failing [] = false
ends_failing (uncordoned true ∷ calls) = false
ends_failing (uncordoned false ∷ calls) = true
ends_failing (cordoned b ∷ calls) = false
ends_failing (asked_status ∷ calls) = false
ends_failing (reconciled ∷ calls) = false
ends_failing (diffed ∷ calls) = false

-- The node is not held, or could not be released by the last call.
abbrev pub IsReleased : List Call → Type 0
IsReleased calls = (held calls ≡ false) ⊎ (ends_failing calls ≡ true)

uncordoned-IsReleased : (b : Bool) (calls : List Call) → IsReleased (uncordoned b ∷ calls)
uncordoned-IsReleased true calls = inl refl
uncordoned-IsReleased false calls = inr refl

abbrev pub log_call : {W A : Type 0} → (Result A → Call) → Action W A → Action (W × List Call) A
log_call name act (w, calls) = let (r, w') = act w in (r, (w', name r ∷ calls))

abbrev pub succeeded : {A : Type 0} → Result A → Bool
succeeded (ok a) = true
succeeded (err e) = false

-- The same client and clock, over a world that also keeps the calls.
abbrev pub watched : {W : Type 0} → NodeClient W → NodeClient (W × List Call)
watched client = record {
  get_status = log_call (λ _. asked_status) client.get_status;
  cordon = λ reason. log_call (λ r. cordoned (succeeded r)) (client.cordon reason);
  uncordon = log_call (λ r. uncordoned (succeeded r)) client.uncordon;
  trigger_reconcile = log_call (λ _. reconciled) client.trigger_reconcile;
  get_diff = log_call (λ _. diffed) client.get_diff;
}

abbrev pub watched_timing : {W : Type 0} → Timing W → Timing (W × List Call)
watched_timing timing = record {
  now = λ (w, calls). timing.now w;
  wait = λ due (w, calls). let (r, w') = timing.wait due w in (r, (w', calls));
}

-- What the calls of a part of an upgrade have to do with those before it: held as before, and guarded
-- as before.
record Steady (before after : List Call) : Type 0 where
  same : held after ≡ held before
  guards : IsGuarded before → IsGuarded after

Steady-refl : (calls : List Call) → Steady calls calls
Steady-refl calls = record { same = refl; guards = λ h. h }

Steady-trans : {a b c : List Call} → Steady a b → Steady b c → Steady a c
Steady-trans h k = record { same = k.same ∙ h.same; guards = λ g. k.guards (h.guards g) }

module _ {W : Type 0} (client : NodeClient W) (timing : Timing W) where
  check-Steady :
      (w : W) (calls : List Call) → Steady calls (check_synced (watched client) (w, calls)).1.1
  unfolding check_synced
  check-Steady w calls = ground arith

  preflight-Steady :
      (skip : Bool) (w : W) (calls : List Call)
      → Steady calls (preflight (watched client) skip (w, calls)).1.1
  unfolding preflight
  preflight-Steady skip w calls = ground arith

  abbrev Loop : Type 0
  Loop = W × List Call → Option (Result (Unit {0})) × (W × List Call)

  abbrev SteadyLoop : Loop → Type 0
  SteadyLoop loop = (w : W) (calls : List Call) → Steady calls (loop (w, calls)).1.1

  after_check-Steady :
      (r : Result Bool) (w : W) (before calls : List Call) (loop : Loop)
      → Steady before calls
      → SteadyLoop loop
      → Steady before (after_check (r, (w, calls)) loop).1.1
  after_check-Steady (ok true) w before calls loop h k = h
  after_check-Steady (ok false) w before calls loop h k = Steady-trans h (k w calls)
  after_check-Steady (err e) w before calls loop h k = Steady-trans h (k w calls)

  after_wake-Steady :
      (wake : Wake) (w : W) (calls : List Call) (loop : Loop)
      → SteadyLoop loop
      → Steady calls
          (after_wake (watched client) (watched_timing timing) (wake, (w, calls)) loop).1.1
  after_wake-Steady (Wake.done e) w calls loop k = Steady-refl _
  after_wake-Steady Wake.tick w calls loop k =
      let res = check_synced (watched client) (w, calls) in
      after_check-Steady res.0 res.1.0 calls res.1.1 loop (check-Steady w calls) k

  loop-Steady :
      (fuel deadline due : ℕ)
      → SteadyLoop (wait_loop (watched client) (watched_timing timing) fuel deadline due)
  unfolding wait_loop
  loop-Steady zero deadline due w calls = Steady-refl _
  loop-Steady (suc fuel) deadline due w calls = elim (Bool-cases (ltb deadline (timing.now w))) [
    | inl late ↦ rw late (Steady-refl _)
    | inr early ↦ rw early (
        after_wake-Steady (timing.wait due w).0 (timing.wait due w).1 calls _
          (loop-Steady fuel deadline (due + tick_seconds)))
  ]

  wait-Steady :
      (fuel timeout : ℕ)
      → SteadyLoop (wait_for_sync (watched client) (watched_timing timing) fuel timeout)
  unfolding wait_for_sync
  wait-Steady fuel timeout w calls =
      let res = check_synced (watched client) (w, calls) in
      after_check-Steady res.0 res.1.0 calls res.1.1 _ (check-Steady w calls)
        (λ w1 calls1. loop-Steady fuel _ _ w1 calls1)

  reconcile-Steady :
      (fuel : ℕ) (r : Result ReconcileResult)
      → (w : W) (calls : List Call)
      → Steady calls
          (after_reconcile (watched client) (watched_timing timing) fuel (r, (w, calls))).1.1
  unfolding after_reconcile
  reconcile-Steady fuel (err e) w calls = Steady-refl _
  reconcile-Steady fuel (ok r) w calls = ground (arith, wait-Steady fuel sync_timeout w calls)

  cordon-Guarded :
      (fuel : ℕ) (name : String) (r : Result (Unit {0})) (w : W) (calls : List Call)
      → held calls ≡ false
      → IsGuarded calls
      → let after =
          (after_cordon
            (watched client)
            (watched_timing timing)
            fuel
            name
            (r, (w, cordoned (succeeded r) ∷ calls))).1.1 in
        IsReleased after × IsGuarded after
  unfolding after_cordon while_cordoned
  cordon-Guarded fuel name (err e) w calls h g = (inl h, g)
  cordon-Guarded fuel name (ok _) w calls h g =
      let (r, w1) = client.trigger_reconcile w in
      let steady = reconcile-Steady fuel r w1 (reconciled ∷ cordoned true ∷ calls) in
      (uncordoned-IsReleased _ _, steady.guards (refl, g))

  preflight-Guarded :
      (fuel : ℕ) (name : String) (r : Result (Unit {0})) (w : W) (calls : List Call)
      → held calls ≡ false
      → IsGuarded calls
      → let after =
          (after_preflight
            (watched client)
            (watched_timing timing)
            fuel
            name
            (r, (w, calls))).1.1 in
        IsReleased after × IsGuarded after
  unfolding after_preflight
  preflight-Guarded fuel name (err e) w calls h g = (inl h, g)
  preflight-Guarded fuel name (ok _) w calls h g =
      let (r, w1) = client.cordon "rolling upgrade" w in cordon-Guarded fuel name r w1 calls h g

  -- However an upgrade ends, by a failed check, a failed call, errors of the reconcile, a time-out, the end of the context or a
  -- success: a node that was not held before is held after only if the last call is an `Uncordon` that failed, and
  -- every reconcile that the upgrade asked for was asked for while the node was held. A node is held from a
  -- `Cordon` that succeeds to the next `Uncordon` that succeeds.
  pub upgrade_node-held :
      (fuel : ℕ) (name : String) (req : UpgradeRequest) (w : W) (calls : List Call)
      → held calls ≡ false
      → IsGuarded calls
      → let after =
          (upgrade_node (watched client) (watched_timing timing) fuel name req (w, calls)).1.1 in
        IsReleased after × IsGuarded after
  unfolding upgrade_node
  upgrade_node-held fuel name req w calls h g =
      let res = preflight (watched client) req.skip_preflight (w, calls) in
      let steady = preflight-Steady req.skip_preflight w calls in
      preflight-Guarded fuel name res.0 res.1.0 res.1.1 (steady.same ∙ h) (steady.guards g)
