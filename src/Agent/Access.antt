-- ===== src/Agent/Access.antt =====
-- internal/agent/auth.go: who can make the agent act.
use eth_node_operator.Common.{
  String, ◌<>◌, Bool, true, false, ◌||◌, Option, none, some, ◌==◌, eq_iff, ◌≡◌, ◌≢◌, refl, ap,
  if◌then◌else◌, arith,
}
use eth_node_operator.Common.Text.{strip_prefix, strip_prefix-append}
use eth_node_operator.Agent.{
  Agent, Host, Handler, Request, with_token, require_api_key, handle_cordon, handle_reconcile,
  handle_restart, serve_write, respond,
}

reads_ne_post : (method : String) → (method == "GET" || method == "HEAD") ≡ true → method ≢ "POST"
reads_ne_post method e p = cc (e, ap (λ (m : String). m == "GET" || m == "HEAD") p)

ne_post : (method : String) → method ≢ "POST" → (method == "POST") ≡ false
ne_post method n = ground (arith, eq_iff method "POST")

refused {ℓ κ} :
    {A : Type ℓ} {S : Type κ} (b : Bool) (x : A × S) (r : A) (s : S)
    → b ≡ false
    → (if b then x else (r, s)).1 ≡ s
refused true x r s h = cc
refused false x r s h = refl

module _ {W : Type 0} where
  -- A handler that changes nothing for a method other than POST.
  record PostOnly (next : Handler W) : Type 0 where
    unchanged : (req : Request) (s : Agent × W) → req.method ≢ "POST" → (next req s).1 ≡ s

  with_token-unchanged :
      (api_key : String) (o : Option String) (next : Handler W) (req : Request) (s : Agent × W)
      → (with_token api_key o next req s).1 ≢ s
      → o ≡ some api_key
  with_token-unchanged api_key none next req s h = absurd (h refl)
  with_token-unchanged api_key (some token) next req s h = ground (arith, eq_iff token api_key)

  require_cases :
      (api_key : String) (next : Handler W) (req : Request) (s : Agent × W) (reads nothing : Bool)
      → PostOnly next
      → (reads ≡ true → req.method ≢ "POST")
      → (if reads
          then next req s
          else if nothing
          then (respond 401 "Authorization header required for write operations", s)
          else with_token api_key (strip_prefix "Bearer " req.authorization) next req s).1
        ≢ s
      → strip_prefix "Bearer " req.authorization ≡ some api_key
  require_cases api_key next req s true nothing p m h = absurd (h (p.unchanged req s (m refl)))
  require_cases api_key next req s false true p m h = absurd (h refl)
  require_cases api_key next req s false false p m h =
      with_token-unchanged api_key (strip_prefix "Bearer " req.authorization) next req s h

  require_api_key-changes :
      (api_key : String) (next : Handler W) (req : Request) (s : Agent × W)
      → PostOnly next
      → (require_api_key api_key next req s).1 ≢ s
      → req.authorization ≡ "Bearer " <> api_key
  unfolding require_api_key
  require_api_key-changes api_key next req s p h =
      strip_prefix-append "Bearer " req.authorization api_key (
        require_cases api_key next req s (req.method == "GET" || req.method == "HEAD")
          (req.authorization == "") p (reads_ne_post req.method) h)

  handle_cordon-PostOnly : PostOnly handle_cordon
  unfolding handle_cordon
  handle_cordon-PostOnly = record {
    unchanged = λ req s n. refused (req.method == "POST") _ _ s (ne_post req.method n);
  }

module _ {W : Type 0} (h : Host W) where
  handle_reconcile-PostOnly : PostOnly (handle_reconcile h)
  unfolding handle_reconcile
  handle_reconcile-PostOnly = record {
    unchanged = λ req s n. refused (req.method == "POST") _ _ s (ne_post req.method n);
  }

  handle_restart-PostOnly : PostOnly (handle_restart h)
  unfolding handle_restart
  handle_restart-PostOnly = record {
    unchanged = λ req s n. refused (req.method == "POST") _ _ s (ne_post req.method n);
  }

  routes :
      (req : Request) (a : Agent) (w : W) (cordon reconcile restart : Bool)
      → (if cordon
          then require_api_key a.api_key handle_cordon req (a, w)
          else if reconcile
          then require_api_key a.api_key (handle_reconcile h) req (a, w)
          else if restart
          then require_api_key a.api_key (handle_restart h) req (a, w)
          else (respond 404 "404 page not found", (a, w))).1
        ≢ (a, w)
      → req.authorization ≡ "Bearer " <> a.api_key
  routes req a w true reconcile restart n =
      require_api_key-changes a.api_key handle_cordon req (a, w) handle_cordon-PostOnly n
  routes req a w false true restart n =
      require_api_key-changes a.api_key (handle_reconcile h) req (a, w) handle_reconcile-PostOnly n
  routes req a w false false true n =
      require_api_key-changes a.api_key (handle_restart h) req (a, w) handle_restart-PostOnly n
  routes req a w false false false n = absurd (n refl)

  -- A request to a route that writes changes the agent or its host only if it carries the agent's key: any other
  -- leaves both as they are, whatever its method, headers and body.
  pub serve_write-authorized :
      (path : String) (req : Request) (a : Agent) (w : W)
      → (serve_write h path req (a, w)).1 ≢ (a, w)
      → req.authorization ≡ "Bearer " <> a.api_key
  unfolding serve_write
  serve_write-authorized path req a w n =
      routes req a w (path == "/cordon") (path == "/reconcile") (path == "/restart") n
