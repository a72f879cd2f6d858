-- ===== src/Cli/Discover.antt =====
-- cli/commands/commands.go: `ethctl discover`, which makes a report from the agent's answer.
use eth_node_operator.Common.{
  String, ◌<>◌, Option, none, some, List, [], ◌∷◌, map, is_empty, if◌then◌else◌, Action, wrap,
  ◌>>=◌,
}
use eth_node_operator.Common.Dict.{Dict, lookup}
use eth_node_operator.Common.Int.{ℤ, pos}
use eth_node_operator.Discover.{Report}
use eth_node_operator.Discover.Snippet.{yaml_snippet}
use eth_node_operator.AgentClient.{JsonValue, text, number, array, other, new, discover}
use eth_node_operator.Cli.{Shell, say, find_node}
use eth_node_operator.Cli.Dns.{or_given}

-- `if v, ok := raw[key].(string); ok { … }`
abbrev pub as_text : Option JsonValue → String
as_text (some (text s)) = s
as_text (some (number n)) = ""
as_text (some (array xs)) = ""
as_text (some other) = ""
as_text none = ""

-- The conversion `int(v)`; the numbers of the answer are whole.
abbrev pub as_number : Option JsonValue → ℤ
as_number (some (number n)) = n
as_number (some (text s)) = pos 0
as_number (some (array xs)) = pos 0
as_number (some other) = pos 0
as_number none = pos 0

abbrev pub texts : List (Option String) → List String
texts [] = []
texts (some s ∷ xs) = s ∷ texts xs
texts (none ∷ xs) = texts xs

abbrev pub as_texts : Option JsonValue → List String
as_texts (some (array xs)) = texts xs
as_texts (some (text s)) = []
as_texts (some (number n)) = []
as_texts (some other) = []
as_texts none = []

unfoldable pub report_of : Dict JsonValue → Report
report_of raw = record {
  public_ip = as_text (lookup "publicIP" raw);
  cgroup_version = as_number (lookup "cgroupVersion" raw);
  el_client = as_text (lookup "elClient" raw);
  cl_client = as_text (lookup "clClient" raw);
  vc_gateway_ips = as_texts (lookup "vcGatewayIPs" raw);
  management_ips = as_texts (lookup "managementIPs" raw);
  warnings = as_texts (lookup "warnings" raw);
}

module _ {W : Type 0} (shell : Shell W) where
  unfoldable pub discover_cmd : String → String → String → Action W (Unit {0})
  unfolding report_of
  discover_cmd given_zone given_id node_name = do
    node ← find_node shell node_name
    raw ←
        wrap (λ e. "discover " <> node_name <> ": " <> e)
          (discover shell.wire (new shell.env_key node_name node.host shell.agent_port))
    say shell (
        yaml_snippet (report_of raw) node_name (or_given given_zone node.spec.network.route53.zone)
          (or_given given_id node.spec.network.route53.zone_id)
        <> "\n")

-- A slice of the answer; a nil slice is `null`.
abbrev pub encoded_texts : List String → JsonValue
encoded_texts [] = other
encoded_texts (s ∷ ss) = array (map some (s ∷ ss))

-- The report as the agent's encoder writes it, by the tags of its fields; `omitempty` leaves out an empty list of warnings.
unfoldable pub encoded : Report → Dict JsonValue
encoded r =
    ("publicIP", text r.public_ip)
    ∷ ("cgroupVersion", number r.cgroup_version)
    ∷ ("elClient", text r.el_client)
    ∷ ("clClient", text r.cl_client)
    ∷ ("vcGatewayIPs", encoded_texts r.vc_gateway_ips)
    ∷ ("managementIPs", encoded_texts r.management_ips)
    ∷ (if is_empty r.warnings then [] else ("warnings", encoded_texts r.warnings) ∷ [])
