-- ===== src/Dns/Records.antt =====
-- internal/dns/route53.go: the registration, the deletion and the audit of address records. The `aws` command runs through
-- the runner; the fetch of a page, the decoder of its list of records, and the state file are fields of `Host`.
use eth_node_operator.Common.{
  String, ◌<>◌, Bool, false, not, ◌&&◌, ◌||◌, none, some, List, [], ◌∷◌, if◌then◌else◌, ◌==◌,
  Result, ok, err, Action, ◌>>=◌, ◌>>◌, Runner, exec,
}
use eth_node_operator.Common.Int.{ℤ, pos, int_eq, show_int}
use eth_node_operator.Common.Text.{trim_space, contains}
use eth_node_operator.Dns.{RegisterResult}

-- What the state file keeps, less the time.
pub record DnsState : Type 0 where
  pub hostname : String
  pub ip : String
  pub zone_id : String

pub record ZoneRecord : Type 0 where
  pub hostname : String
  pub ip : String
  pub ttl : ℤ

pub record Host (W : Type 0) : Type 0 where
  pub aws : Runner W
  pub fetch : String → Action W String
  pub load_state : Action W DnsState
  pub save_state : DnsState → W → W

abbrev pub record_query : String → String
record_query hostname =
    "ResourceRecordSets[?Name=='" <> hostname <> ".' && Type=='A'].ResourceRecords[0].Value"

abbrev pub current_args : String → String → List String
current_args zone_id hostname =
    "route53"
    ∷ "list-resource-record-sets"
    ∷ "--hosted-zone-id"
    ∷ zone_id
    ∷ "--query"
    ∷ record_query hostname
    ∷ "--output"
    ∷ "text"
    ∷ []

abbrev pub change_args : String → String → List String
change_args zone_id batch =
    "route53" ∷ "change-resource-record-sets" ∷ "--hosted-zone-id" ∷ zone_id ∷ "--change-batch"
    ∷ batch ∷ []

abbrev pub record_set : String → String → String → String
record_set hostname ttl ip =
    "    \"ResourceRecordSet\": {\n      \"Name\": \"" <> hostname
    <> "\",\n      \"Type\": \"A\",\n      \"TTL\": " <> ttl
    <> ",\n      \"ResourceRecords\": [{\"Value\": \"" <> ip <> "\"}]\n    }\n  }]\n}"

abbrev pub delete_batch : String → String → String
delete_batch hostname ip =
    "{\n  \"Changes\": [{\n    \"Action\": \"DELETE\",\n" <> record_set hostname "300" ip

abbrev pub upsert_batch : String → ℤ → String → String
upsert_batch hostname ttl ip =
    "{\n  \"Comment\": \"eth-node-operator auto-registration\",\n  \"Changes\": [{\n    \"Action\": \"UPSERT\",\n"
    <> record_set hostname (show_int ttl) ip

-- The value that the query printed.
abbrev pub found_value : String → Result String
found_value value = if value == "" || value == "None" then err "no record found" else ok value

abbrev pub value_of : Result String → String
value_of (ok value) = value
value_of (err e) = ""

-- After the old record's deletion.
abbrev pub deleted : String → RegisterResult → Result (Unit {0}) → RegisterResult
deleted old r (err e) = record r { old_hostname = old <> " (delete failed: " <> e <> ")" }
deleted old r (ok done) = record r { old_hostname = old; action = "changed-client" }

abbrev pub named_action : Result String → RegisterResult → RegisterResult
named_action current r =
    if r.action == ""
    then record r { action = if not (value_of current == "") then "updated-ip" else "registered" }
    else r

unfoldable pub is_current : String → Result String → Bool
is_current ip (ok value) = value == ip
is_current ip (err e) = false

unfoldable pub or_300 : ℤ → ℤ
or_300 ttl = if int_eq ttl (pos 0) then pos 300 else ttl

module _ {W : Type 0} (h : Host W) where
  unfoldable pub current_record : String → String → Action W String
  current_record zone_id hostname = do
    out ← exec h.aws (current_args zone_id hostname)
    λ w. (found_value (trim_space out), w)

  -- A change whose error comes with what the command printed.
  abbrev pub change : String → String → String → Action W Unit
  change name zone_id batch w =
      let ((out, e), w') = h.aws (change_args zone_id batch) w in
      (elim e [ none ↦ ok tt | some x ↦ err (name <> ": " <> out <> ": " <> x) ], w')

  -- A record that is not there has not to be deleted.
  unfoldable pub delete_current : String → String → Result String × W → Result (Unit {0}) × W
  delete_current hostname zone_id (err e, w) = (ok tt, w)
  delete_current hostname zone_id (ok ip, w) =
      change ("delete " <> hostname) zone_id (delete_batch hostname ip) w

  unfoldable pub delete : String → String → Action W Unit
  unfolding current_record delete_current
  delete hostname zone_id w = delete_current hostname zone_id (current_record zone_id hostname w)

  unfoldable pub upsert : String → String → String → ℤ → Action W Unit
  upsert hostname zone_id ip ttl =
      change ("aws route53 upsert " <> hostname <> " → " <> ip) zone_id
        (upsert_batch hostname ttl ip)

  -- The loop over the pages that answer with the address of the host.
  try_pages : List String → Action W String
  try_pages [] w = (err "could not determine public IP", w)
  try_pages (url ∷ urls) w =
      let (r, w') = h.fetch url w in
      let rest = try_pages urls w' in
      elim r [
        | err e ↦ rest
        | ok body ↦
            if not (trim_space body == "") && not (contains (trim_space body) " ")
            then (ok (trim_space body), w')
            else rest
      ]

  unfoldable pub public_ip : Action W String
  unfolding try_pages
  public_ip = try_pages ("https://api.ipify.org" ∷ "https://ipv4.icanhazip.com" ∷ [])

  -- The record of another host name in the same zone is deleted.
  unfoldable pub leave_old : Result DnsState → RegisterResult → W → RegisterResult × W
  unfolding delete
  leave_old (err e) r w = (r, w)
  leave_old (ok prev) r w =
      if not (prev.hostname == r.hostname) && prev.zone_id == r.zone_id
      then (let (d, w') = delete prev.hostname r.zone_id w in (deleted prev.hostname r d, w'))
      else (r, w)

  -- The upsert, unless the record has the address already, and the state after it.
  unfoldable pub write_record : ℤ → Result String → RegisterResult → Action W RegisterResult
  unfolding upsert
  write_record ttl current r = do
    upsert r.hostname r.zone_id r.ip ttl
    λ w. (
      ok (named_action current r),
      h.save_state (record { hostname = r.hostname; ip = r.ip; zone_id = r.zone_id }) w,
    )

  unfoldable pub finish : ℤ → RegisterResult → W → Result RegisterResult × W
  unfolding current_record write_record is_current
  finish ttl r w =
      let (current, w') = current_record r.zone_id r.hostname w in
      if is_current r.ip current
      then (ok (record r { action = "already-current" }), w')
      else write_record ttl current r w'

  unfoldable pub register_ip : String → String → ℤ → Result String → W → Result RegisterResult × W
  unfolding leave_old finish or_300
  register_ip hostname zone_id ttl (err e) w = (err ("get public IP: " <> e), w)
  register_ip hostname zone_id ttl (ok ip) w =
      let (prev, w1) = h.load_state w in
      let (r, w2) =
        leave_old prev
          (record {
            hostname = hostname;
            ip = ip;
            zone_id = zone_id;
            action = "";
            old_hostname = "";
          })
          w1 in
      finish (or_300 ttl) r w2

  unfoldable pub register : String → String → ℤ → Action W RegisterResult
  unfolding public_ip register_ip
  register hostname zone_id ttl w =
      let (ip, w') = public_ip w in register_ip hostname zone_id ttl ip w'
