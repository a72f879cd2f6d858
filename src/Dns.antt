-- ===== src/Dns.antt =====
-- internal/dns/route53.go: the host name of a node, and the results of a registration.
pub mod Records
pub mod Zone
mod Actions
mod Tests
use Prim.Native.Char.{code}
use Prim.Native.String.{[], ◌∷◌}
use eth_node_operator.Common.{ℕ, String, ◌<>◌, if◌then◌else◌, eqb, ◌≡◌, refl}
use eth_node_operator.Common.Text.{to_lower, before_first, after_last}

pub record RegisterResult : Type 0 where
  pub hostname : String
  pub ip : String
  pub zone_id : String
  pub action : String
  pub old_hostname : String

-- `Hostname`: {node}-{client}.{zone}
unfoldable pub hostname : String → String → String → String
unfolding after_last before_first to_lower
hostname node_name el_client zone =
    node_name <> "-" <> before_first b':' (after_last b'/' (to_lower el_client)) <> "." <> zone

hostname_test :
    hostname "bm-01" "Ethereum/client-go:v1" "example.com" ≡ "bm-01-client-go.example.com"
unfolding hostname
hostname_test = refl
