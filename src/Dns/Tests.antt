-- ===== src/Dns/Tests.antt =====
-- internal/dns/route53.go: a registration on a host that changes its client.
use eth_node_operator.Common.{◌≡◌, refl, none, ok}
use eth_node_operator.Common.Int.{pos}
use eth_node_operator.Common.Text.{trim_space, contains}
use eth_node_operator.Dns.{RegisterResult}
use eth_node_operator.Dns.Records.{Host, register}

-- No record has the host's address yet.
abbrev host : Host (Unit {0})
host = record {
  aws = λ args w. (("None", none), w);
  fetch = λ url w. (ok "192.0.2.1\n", w);
  load_state =
      λ w. (ok (record { hostname = "bm-01-geth.e.com"; ip = "192.0.2.1"; zone_id = "Z1" }), w);
  save_state = λ state w. w;
}

abbrev registered : RegisterResult
registered = record {
  hostname = "bm-01-reth.e.com";
  ip = "192.0.2.1";
  zone_id = "Z1";
  action = "changed-client";
  old_hostname = "bm-01-geth.e.com";
}

register_test : register host "bm-01-reth.e.com" "Z1" (pos 60) tt ≡ (ok registered, tt)
unfolding register trim_space contains
register_test = refl
