-- ===== src/Reconciler/Preflight.antt =====
-- internal/reconciler/reconciler.go: `PreflightChecks`, the tests that a node passes before an upgrade.
use eth_node_operator.Common.{
  String, ◌<>◌, Bool, List, [], ◌∷◌, if◌then◌else◌, ◌==◌, Action, pure, fail, wrap, ◌>>=◌, ◌>>◌,
}
use eth_node_operator.Common.Text.{to_lower}
use eth_node_operator.Common.Int.{ℤ, pos, show_int, int_ltb}

-- The client of the two Ethereum layers, as far as the checks ask it.
pub record EthClient (W : Type 0) : Type 0 where
  pub el_syncing : Action W Bool
  pub cl_syncing : Action W Bool
  pub el_peer_count : Action W ℤ

module _ {W : Type 0} (eth : EthClient W) where
  unfoldable pub check_el_synced : Action W Unit
  check_el_synced = do
    syncing ← wrap (λ e. "preflight elSynced: " <> e) eth.el_syncing
    if syncing then fail "preflight failed: EL is still syncing" else pure tt

  unfoldable pub check_cl_synced : Action W Unit
  check_cl_synced = do
    syncing ← wrap (λ e. "preflight clSynced: " <> e) eth.cl_syncing
    if syncing then fail "preflight failed: CL is still syncing" else pure tt

  unfoldable pub check_peer_count : Action W Unit
  check_peer_count = do
    peers ← wrap (λ e. "preflight peerCount: " <> e) eth.el_peer_count
    if int_ltb peers (pos 5)
        then fail ("preflight failed: only " <> show_int peers <> " EL peers (minimum 5)")
        else pure tt

  -- One round of the loop: a check of another name passes.
  unfoldable pub run_check : String → Action W Unit
  unfolding check_el_synced check_cl_synced check_peer_count
  run_check check =
      let name = to_lower check in
      if name == "elsynced"
      then check_el_synced
      else if name == "clsynced"
      then check_cl_synced
      else if name == "peercount"
      then check_peer_count
      else pure tt

  unfoldable pub preflight_checks : List String → Action W Unit
  unfolding run_check
  preflight_checks [] = pure tt
  preflight_checks (check ∷ checks) = run_check check >> preflight_checks checks
