-- ===== src/Agent/Loop.antt =====
-- internal/agent/server.go: what a round of the reconciliation loop does.
use eth_node_operator.Common.{Bool, true, false, ◌≡◌, refl, Result, ok, err, if◌then◌else◌}
use eth_node_operator.Types.{CordonRequest, NodeSpec}
use eth_node_operator.Maintenance.{Time}
use eth_node_operator.Agent.{
  Agent, Host, Request, run_reconcile, reconcile_loaded, loaded, handle_cordon,
}

if_snd {ℓ κ} :
    {A : Type ℓ} {S : Type κ} (b : Bool) (x y z : A × S)
    → y.1 ≡ z.1
    → (if b then x else y).1 ≡ (if b then x else z).1
if_snd true x y z e = refl
if_snd false x y z e = e

module _ {W : Type 0} (h : Host W) where
  -- After a request that cordons the node has been served, a round of the loop changes neither the agent nor the host.
  pub run_reconcile-handle_cordon :
      (req : Request) (body : CordonRequest) (s : Agent × W)
      → req.method ≡ "POST"
      → req.cordon ≡ ok body
      → body.cordoned ≡ true
      → (run_reconcile h (handle_cordon req s).1).1 ≡ (handle_cordon req s).1
  unfolding run_reconcile handle_cordon
  run_reconcile-handle_cordon req body s m b c = rw (m, b, c) refl

  -- The round with another clock ends in the same state.
  reconcile_any_time :
      (clock : W → Time) (r : Result NodeSpec) (s : Agent × W)
      → (reconcile_loaded h r s).1 ≡ (reconcile_loaded (record h { now = clock }) r s).1
  unfolding reconcile_loaded
  reconcile_any_time clock (err e) s = refl
  reconcile_any_time clock (ok spec) s = refl

  -- The maintenance window of the node has no effect on the loop: whatever the time, a round makes the same changes, the updates
  -- of images included, as at any other time.
  run_reconcile_ignores_window :
      (clock : W → Time) (s : Agent × W)
      → (run_reconcile h s).1 ≡ (run_reconcile (record h { now = clock }) s).1
  unfolding run_reconcile
  run_reconcile_ignores_window clock (a, w) = if_snd a.cordoned _ _ _ (
      reconcile_any_time clock (loaded (h.load_node w).0 a).0
        ((loaded (h.load_node w).0 a).1, (h.load_node w).1))
