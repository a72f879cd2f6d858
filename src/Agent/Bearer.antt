-- ===== src/Agent/Bearer.antt =====
-- internal/agent/auth.go: what the middleware does with a key, the right one and any other.
use text.Mathlib.TextLemmas.{append-eq-nil_iff}
use eth_node_operator.Common.{
  ◌≤◌, String, ◌<>◌, ◌≡◌, ◌≢◌, refl, ap, ◌∙◌, false, ◌||◌, some, ◌==◌, eq_iff, eq_refl, Bool-cases,
  inl, inr, arith,
}
use eth_node_operator.Common.Text.{strip_prefix}
use eth_node_operator.Common.Text.Cut.{strip_prefix_self}
use eth_node_operator.Agent.{Agent, Handler, Request, Response, require_api_key}

bearer_not_nil : ◌≢◌ {A = String} "Bearer " ""
bearer_not_nil e = cc

bearer-ne-nil : (key : String) → (("Bearer " <> key) == "") ≡ false
bearer-ne-nil key = elim (Bool-cases (("Bearer " <> key) == "")) [
  | inl e ↦ absurd (bearer_not_nil (append-eq-nil_iff.0 ((eq_iff ("Bearer " <> key) "").0 e)).0)
  | inr h ↦ h
]

writes : (method : String) → method ≡ "POST" → (method == "GET" || method == "HEAD") ≡ false
writes method m = ap (λ (s : String). s == "GET" || s == "HEAD") m

bearer-given :
    (authorization key : String) → authorization ≡ "Bearer " <> key → (authorization == "") ≡ false
bearer-given authorization key a = ap (λ (s : String). s == "") a ∙ bearer-ne-nil key

bearer-token :
    (authorization key : String)
    → authorization ≡ "Bearer " <> key
    → strip_prefix "Bearer " authorization ≡ some key
bearer-token authorization key a = ap (strip_prefix "Bearer ") a ∙ strip_prefix_self "Bearer " key

not_equal : (s t : String) → s ≢ t → (s == t) ≡ false
not_equal s t n = ground (arith, eq_iff s t)

-- A refusal: the state is as before, and the code is that of an error.
pub record IsRefused {W : Type 0} (s : Agent × W) (r : Response × (Agent × W)) : Type 0 where
  pub unchanged : r.1 ≡ s
  pub failed : 400 ≤ r.0.code

module _ {W : Type 0} (next : Handler W) (req : Request) (s : Agent × W) where
  pub require_api_key-right :
      (key : String)
      → req.method ≡ "POST"
      → req.authorization ≡ "Bearer " <> key
      → require_api_key key next req s ≡ next req s
  unfolding require_api_key
  require_api_key-right key m a = rw (
    writes req.method m,
    bearer-given req.authorization key a,
    bearer-token req.authorization key a,
    eq_refl key,
  )

  pub require_api_key-wrong :
      (key other : String)
      → other ≢ key
      → req.method ≡ "POST"
      → req.authorization ≡ "Bearer " <> other
      → IsRefused s (require_api_key key next req s)
  unfolding require_api_key
  require_api_key-wrong key other ne m a =
      rw
        (
          writes req.method m,
          bearer-given req.authorization other a,
          bearer-token req.authorization other a,
          not_equal other key ne,
        )
        (record { unchanged = refl; failed = omega arith })

  pub require_api_key-absent :
      (key : String)
      → req.method ≡ "POST"
      → req.authorization ≡ ""
      → IsRefused s (require_api_key key next req s)
  unfolding require_api_key
  require_api_key-absent key m a =
      rw (writes req.method m, ap (λ (t : String). t == "") a)
        (record { unchanged = refl; failed = omega arith })
