-- ===== src/Reconciler/Ready.antt =====
-- internal/reconciler/reconciler.go: what it tells of a node that it passes its preflight checks.
use eth_node_operator.Common.{
  String, ◌<>◌, ◌≡◌, ◌∙◌, refl, ap, Bool, true, false, List, [], ◌∷◌, All, if◌then◌else◌, Result,
  ok, err, pure, fail, wrap, >>=-eq-ok, map_err,
}
use eth_node_operator.Common.Text.{to_lower}
use eth_node_operator.Common.Int.{ℤ, pos, int_ltb}
use eth_node_operator.Reconciler.Preflight.{
  EthClient, check_el_synced, check_cl_synced, check_peer_count, run_check, preflight_checks,
}

module _ {W : Type 0} (eth : EthClient W) where
  -- At some moment the client has given the answer that the check asks for.
  pub record IsReady (check : String) : Type 0 where
    pub el_synced : to_lower check ≡ "elsynced" → (w : W) × ((eth.el_syncing w).0 ≡ ok false)
    pub cl_synced : to_lower check ≡ "clsynced" → (w : W) × ((eth.cl_syncing w).0 ≡ ok false)
    pub peers :
        to_lower check ≡ "peercount"
        → (w : W) × (n : ℤ) × ((eth.el_peer_count w).0 ≡ ok n) × (int_ltb n (pos 5) ≡ false)

  unwrap : {A : Type 0} (f : String → String) (r : Result A) {a : A} → map_err f r ≡ ok a → r ≡ ok a
  unwrap f (ok a) h = h
  unwrap f (err e) h = cc

  passed :
      (b : Bool) (message : String) (w : W) {r : W} {t : Unit {0}}
      → (if b then fail message else pure tt) w ≡ (ok t, r)
      → b ≡ false
  passed true message w h = cc
  passed false message w h = refl

  el_check :
      (w w1 : W) (t : Unit {0})
      → check_el_synced eth w ≡ (ok t, w1)
      → (w0 : W) × ((eth.el_syncing w0).0 ≡ ok false)
  unfolding check_el_synced
  el_check w w1 t h =
      let (syncing, asked, h1) =
        >>=-eq-ok (wrap (λ e. "preflight elSynced: " <> e) eth.el_syncing) _ w h in
      (w, unwrap _ (eth.el_syncing w).0 asked ∙ ap ok (passed syncing _ _ h1))

  cl_check :
      (w w1 : W) (t : Unit {0})
      → check_cl_synced eth w ≡ (ok t, w1)
      → (w0 : W) × ((eth.cl_syncing w0).0 ≡ ok false)
  unfolding check_cl_synced
  cl_check w w1 t h =
      let (syncing, asked, h1) =
        >>=-eq-ok (wrap (λ e. "preflight clSynced: " <> e) eth.cl_syncing) _ w h in
      (w, unwrap _ (eth.cl_syncing w).0 asked ∙ ap ok (passed syncing _ _ h1))

  peer_check :
      (w w1 : W) (t : Unit {0})
      → check_peer_count eth w ≡ (ok t, w1)
      → (w0 : W) × (n : ℤ) × ((eth.el_peer_count w0).0 ≡ ok n) × (int_ltb n (pos 5) ≡ false)
  unfolding check_peer_count
  peer_check w w1 t h =
      let (peers, asked, h1) =
        >>=-eq-ok (wrap (λ e. "preflight peerCount: " <> e) eth.el_peer_count) _ w h in
      (w, peers, unwrap _ (eth.el_peer_count w).0 asked, passed (int_ltb peers (pos 5)) _ _ h1)

  run_check-IsReady :
      (check : String) (w w1 : W) (t : Unit {0})
      → run_check eth check w ≡ (ok t, w1)
      → IsReady check
  unfolding run_check
  run_check-IsReady check w w1 t h = record {
    el_synced = λ e. el_check w w1 t (rw e at h);
    cl_synced = λ e. cl_check w w1 t (rw e at h);
    peers = λ e. peer_check w w1 t (rw e at h);
  }

  -- When the preflight checks of a node pass, each of them has been answered well: an execution or a consensus client that is asked for has
  -- said that it is not syncing, and an execution client whose peers are counted has said that it has at least five.
  pub preflight_checks-IsReady :
      (checks : List String) (w w1 : W) (t : Unit {0})
      → preflight_checks eth checks w ≡ (ok t, w1)
      → All IsReady checks
  unfolding preflight_checks
  preflight_checks-IsReady [] w w1 t h = _
  preflight_checks-IsReady (check ∷ checks) w w1 t h =
      let (u, first, rest) =
        >>=-eq-ok (run_check eth check) (λ _. preflight_checks eth checks) w h in
      (
        run_check-IsReady check w (run_check eth check w).1 u
            (ap (λ (r : Result (Unit {0})). (r, (run_check eth check w).1)) first),
        preflight_checks-IsReady checks (run_check eth check w).1 w1 t rest,
      )
