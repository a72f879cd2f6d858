-- ===== src/Dns/Zone.antt =====
-- internal/dns/route53.go: the records of a zone, and its audit. The decoder of the list that `aws` prints is given.
use eth_node_operator.Common.{
  String, ◌<>◌, Bool, true, false, List, [], ◌∷◌, if◌then◌else◌, ◌==◌, Result, Action, wrap, ◌>>=◌,
  ok, Runner, exec,
}
use eth_node_operator.Common.Int.{ℤ}
use eth_node_operator.Common.Text.{has_suffix, drop_last}
use eth_node_operator.Dns.Records.{ZoneRecord}

-- A record set as `aws` lists it.
pub record AwsRecord : Type 0 where
  pub name : String
  pub kind : String
  pub ttl : ℤ
  pub values : List String

abbrev pub list_args : String → List String
list_args zone_id =
    "route53" ∷ "list-resource-record-sets" ∷ "--hosted-zone-id" ∷ zone_id ∷ "--output" ∷ "json"
    ∷ []

abbrev pub first_value : List String → String
first_value [] = ""
first_value (v ∷ vs) = v

-- The record of a set, with its name less the dot at the end.
abbrev pub zone_record : AwsRecord → ZoneRecord
zone_record r = record { hostname = drop_last b'.' r.name; ip = first_value r.values; ttl = r.ttl }

abbrev pub is_wanted : String → AwsRecord → Bool
is_wanted suffix r =
    if r.kind == "A"
    then (if suffix == "" then true else has_suffix (drop_last b'.' r.name) suffix)
    else false

unfoldable pub select : String → List AwsRecord → List ZoneRecord
select suffix [] = []
select suffix (r ∷ rs) =
    let rest = select suffix rs in if is_wanted suffix r then zone_record r ∷ rest else rest

-- Whether a host name is one of the expected ones: the keys of the map, whose values are all true.
abbrev pub is_expected : List String → String → Bool
is_expected [] name = false
is_expected (e ∷ es) name = if e == name then true else is_expected es name

unfoldable pub stale_of : List String → List ZoneRecord → List ZoneRecord
stale_of expected [] = []
stale_of expected (r ∷ rs) =
    let rest = stale_of expected rs in if is_expected expected r.hostname then rest else r ∷ rest

module _ {W : Type 0} (aws : Runner W) (parse_list : String → Result (List AwsRecord)) where
  unfoldable pub list_zone_records : String → String → Action W (List ZoneRecord)
  unfolding select
  list_zone_records zone_id suffix = do
    out ← wrap (λ e. "list records in zone " <> zone_id <> ": " <> e) (exec aws (list_args zone_id))
    sets ← wrap (λ e. "parse list response: " <> e) (λ w. (parse_list out, w))
    λ w. (ok (select suffix sets), w)

  unfoldable pub audit : String → String → List String → Action W (List ZoneRecord)
  unfolding list_zone_records stale_of
  audit zone_id zone expected = do
    records ← list_zone_records zone_id zone
    λ w. (ok (stale_of expected records), w)
