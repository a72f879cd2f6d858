-- ===== src/Upgrade/Holding.antt =====
-- internal/upgrade/orchestrator.go: an upgrade over a state that says itself whether the node is held.
use eth_node_operator.Common.{
  ℕ, String, ◌≡◌, refl, ◌∙◌, ◌⊎◌, inl, inr, Bool, false, Result, ok, err, arith,
}
use eth_node_operator.Types.{UpgradeRequest}
use eth_node_operator.Upgrade.{
  NodeClient, Timing, preflight, after_preflight, after_cordon, upgrade_node,
}

-- What a client does to the state that holds a node: only `cordon` and `uncordon` touch it. A `cordon` that fails does not, and
-- an `uncordon` releases it, unless the request is lost.
pub record Holds {S : Type 0} (client : NodeClient S) (held : S → Bool) (IsLost : S → Type 0)
    : Type 0 where
  pub status_same : (s : S) → held (client.get_status s).1 ≡ held s
  pub cordon_failed :
      (reason : String) (s : S) (e : String)
      → (client.cordon reason s).0 ≡ err e
      → (held (client.cordon reason s).1 ≡ held s) ⊎ IsLost (client.cordon reason s).1
  pub uncordon_frees : (s : S) → (held (client.uncordon s).1 ≡ false) ⊎ IsLost (client.uncordon s).1

module _ {S : Type 0} (client : NodeClient S) (timing : Timing S) (held : S → Bool)
    (IsLost : S → Type 0) (h : Holds client held IsLost) where
  preflight-held : (skip : Bool) (s : S) → held (preflight client skip s).1 ≡ held s
  unfolding preflight
  preflight-held skip s = ground (arith, h.status_same s)

  abbrev pub IsFreed : S → Type 0
  IsFreed s = (held s ≡ false) ⊎ IsLost s

  failed-IsFreed : (s s' : S) → held s ≡ false → (held s' ≡ held s) ⊎ IsLost s' → IsFreed s'
  failed-IsFreed s s' free (inl same) = inl (same ∙ free)
  failed-IsFreed s s' free (inr lost) = inr lost

  cordoned-frees :
      (fuel : ℕ) (name : String) (x : Result (Unit {0}) × S)
      → ((e : String) → x.0 ≡ err e → IsFreed x.1)
      → IsFreed (after_cordon client timing fuel name x).1
  unfolding after_cordon
  cordoned-frees fuel name (err e, s) free = free e refl
  cordoned-frees fuel name (ok u, s) free = h.uncordon_frees _

  checked-frees :
      (fuel : ℕ) (name : String) (x : Result (Unit {0}) × S)
      → held x.1 ≡ false
      → IsFreed (after_preflight client timing fuel name x).1
  unfolding after_preflight
  checked-frees fuel name (err e, s) free = inl free
  checked-frees fuel name (ok u, s) free =
      cordoned-frees fuel name (client.cordon "rolling upgrade" s)
        (λ e f. failed-IsFreed s _ free (h.cordon_failed "rolling upgrade" s e f))

  pub upgrade_node-frees :
      (fuel : ℕ) (name : String) (req : UpgradeRequest) (s : S)
      → held s ≡ false
      → IsFreed (upgrade_node client timing fuel name req s).1
  unfolding upgrade_node
  upgrade_node-frees fuel name req s free =
      checked-frees fuel name (preflight client req.skip_preflight s)
        (preflight-held req.skip_preflight s ∙ free)
