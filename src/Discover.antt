-- ===== src/Discover.antt =====
-- internal/discover/discover.go: what the agent finds out about its host. The commands `curl`, `docker` and `ss` run through
-- the runner, with their name as the first argument; the parser of addresses is the field `parse_ip` of `Host`.
pub mod Snippet
mod Names
mod Sources
mod Tests
use eth_node_operator.Common.{
  String, [], ◌∷◌, ◌<>◌, Bool, true, false, not, ◌||◌, ◌&&◌, Option, none, some, List, ◌++◌,
  if◌then◌else◌, ◌==◌, eqb, Result, ok, err, Action, wrap, continue, ◌>>=◌, Runner, exec, get_elem?,
  is_empty,
}
use eth_node_operator.Common.Int.{ℤ, pos}
use eth_node_operator.Common.Text.{
  to_lower, contains, trim_space, fields, split, before_first, after_last, has_suffix,
}

pub record Report : Type 0 where
  pub public_ip : String
  pub cgroup_version : ℤ
  pub el_client : String
  pub cl_client : String
  pub vc_gateway_ips : List String
  pub management_ips : List String
  pub warnings : List String

abbrev pub empty_report : Report
empty_report = record {
  public_ip = "";
  cgroup_version = pos 0;
  el_client = "";
  cl_client = "";
  vc_gateway_ips = [];
  management_ips = [];
  warnings = [];
}

-- An address of the network: how it is written, and whether it is one of the host itself or of its link.
pub record Address : Type 0 where
  pub written : String
  pub is_loopback : Bool
  pub is_link_local : Bool

pub record Host (W : Type 0) : Type 0 where
  pub run : Runner W
  -- `net.ParseIP`, and the host of `net.SplitHostPort`.
  pub parse_ip : String → Option Address
  pub split_host : String → Option String
  -- Whether the file of the controllers of cgroup v2 is there.
  pub has_controllers : W → Bool

-- The client of a name of an image in lower case and without its tag; the order matters, since `reth` stands in other names.
abbrev pub client_of_slug : String → String
client_of_slug slug =
    if contains slug "client-go" || has_suffix slug "/geth"
    then "geth"
    else if contains slug "nethermind"
    then "nethermind"
    else if contains slug "besu"
    then "besu"
    else if contains slug "reth"
    then "reth"
    else if contains slug "lighthouse"
    then "lighthouse"
    else if contains slug "teku"
    then "teku"
    else if contains slug "prysm"
    then "prysm"
    else if contains slug "nimbus"
    then "nimbus"
    else if contains slug "lodestar"
    then "lodestar"
    else after_last b'/' slug

-- `ImageToClientName`
unfoldable pub image_to_client_name : String → String
image_to_client_name image = client_of_slug (before_first b':' (to_lower image))

-- `if !seen[s] { ips = append(ips, s) }`; the keys of `seen` are the addresses of the list.
abbrev pub mem : String → List String → Bool
mem s [] = false
mem s (t ∷ ts) = if t == s then true else mem s ts

abbrev pub add_new : String → List String → List String
add_new s ips = if mem s ips then ips else ips ++ s ∷ []

abbrev pub add_address : Option Address → List String → List String
add_address none ips = ips
add_address (some a) ips = if a.is_loopback || a.is_link_local then ips else add_new a.written ips

abbrev pub or_self : Option String → String → String
or_self none s = s
or_self (some host) s = host

abbrev pub sources_or_error : String → List String → Result (List String)
sources_or_error port [] = err ("no external connections to port " <> port)
sources_or_error port (ip ∷ ips) = ok (ip ∷ ips)

abbrev pub ss_args : String → List String
ss_args port = "ss" ∷ "-tn" ∷ "state" ∷ "established" ∷ ("sport = :" <> port) ∷ []

-- Without the first line.
abbrev pub rest_of {ℓ} : {A : Type ℓ} → List A → List A
rest_of [] = []
rest_of (x ∷ xs) = xs

module _ {W : Type 0} (h : Host W) where
  -- A line of `ss`: the peer is its fifth field.
  abbrev pub address_of : Option String → Option Address
  address_of none = none
  address_of (some peer) = h.parse_ip (or_self (h.split_host peer) peer)

  unfoldable pub add_lines : List String → List String → List String
  add_lines [] ips = ips
  add_lines (line ∷ lines) ips =
      add_lines lines (add_address (address_of (get_elem? (fields line) 4)) ips)

  unfoldable pub connected_source_ips : String → Action W (List String)
  unfolding add_lines
  connected_source_ips port = do
    out ← wrap (λ e. "ss failed: " <> e) (exec h.run (ss_args port))
    λ w. (sources_or_error port (add_lines (rest_of (split out b'\n')) []), w)

  -- The loop over the pages that answer with the address of the host.
  unfoldable pub try_pages : List String → Action W String
  try_pages [] w = (err "could not reach any IP detection service", w)
  try_pages (url ∷ urls) w =
      let (r, w') = exec h.run ("curl" ∷ "-sf" ∷ "--max-time" ∷ "5" ∷ url ∷ []) w in
      let rest = try_pages urls w' in
      elim r [
        | err e ↦ rest
        | ok out ↦ elim (h.parse_ip (trim_space out)) [
          | none ↦ rest
          | some a ↦ (ok (trim_space out), w')
        ]
      ]

  unfoldable pub public_ip : Action W String
  unfolding try_pages
  public_ip = try_pages ("https://api.ipify.org" ∷ "https://ipv4.icanhazip.com" ∷ [])

  unfoldable pub cgroup_version : W → ℤ
  cgroup_version w = if h.has_controllers w then pos 2 else pos 1

  unfoldable pub running_client_name : String → Action W String
  running_client_name name = do
    out ←
        wrap (λ e. "container \"" <> name <> "\" not running")
          (exec h.run ("docker" ∷ "inspect" ∷ name ∷ "--format" ∷ "{{.Config.Image}}" ∷ []))
    λ w. (ok (image_to_client_name (trim_space out)), w)

-- What a probe found goes to the report, and its error to the warnings.
abbrev pub noted {ℓ} :
    {A : Type ℓ} → (String → String) → (A → Report → Report) → Result A → Report → Report
noted message put (ok a) r = put a r
noted message put (err e) r = record r { warnings = r.warnings ++ (message e) ∷ [] }

module _ {W : Type 0} (h : Host W) where
  -- `Run`
  unfoldable pub run : W → Report × W
  unfolding connected_source_ips public_ip running_client_name cgroup_version
  run w =
      let (ip, w1) = public_ip h w in
      let r1 =
        noted (λ e. "public IP: " <> e) (λ ip r. record r { public_ip = ip }) ip empty_report in
      let r2 = record r1 { cgroup_version = cgroup_version h w1 } in
      let (el, w2) = running_client_name h "execution" w1 in
      let r3 = noted (λ e. "EL client: " <> e) (λ name r. record r { el_client = name }) el r2 in
      let (cl, w3) = running_client_name h "consensus" w2 in
      let r4 = noted (λ e. "CL client: " <> e) (λ name r. record r { cl_client = name }) cl r3 in
      let (vc, w4) = connected_source_ips h "5052" w3 in
      let r5 =
        noted (λ e. "VC gateways: " <> e <> " (is the VC connected?)")
          (λ ips r. record r { vc_gateway_ips = ips }) vc r4 in
      let (ssh, w5) = connected_source_ips h "22" w4 in
      (noted (λ e. "management IPs: " <> e) (λ ips r. record r { management_ips = ips }) ssh r5, w5)
