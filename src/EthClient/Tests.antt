-- ===== src/EthClient/Tests.antt =====
-- pkg/ethclient/client.go: the theorem, and runs, on nodes whose answers are given.
use eth_node_operator.Common.{◌<>◌, ◌≡◌, refl, true, none, some, ok, err}
use eth_node_operator.Common.Int.{pos, negsuc}
use eth_node_operator.EthClient.{Wire, Client, el_block_number, el_syncing, call}
use eth_node_operator.EthClient.Sscan.{
  scan_hex_uint, scan_hex_int, scan_int, digits_value, skip_space,
}
use eth_node_operator.EthClient.Quantity.{hex, el_block_number-hex}
use eth_node_operator.Common.Text.{is_space}

-- A node at block 1000, whose results are written as they are decoded.
abbrev wire : Wire (Unit {0})
wire = record {
  new_request = λ url. ok tt;
  post = λ url method w. (ok "0x3e8", w);
  get = λ url w. (err "refused", w);
  decode_rpc = λ body. ok (record { result = body; error = none });
  decode_text = λ raw. ok raw;
  decode_sync = λ body. err "EOF";
  decode_peers = λ body. err "EOF";
}

abbrev client : Client
client = record { el_url = "http://localhost:8545"; cl_url = "http://localhost:5052" }

-- The digits end at the first other character, and a number of 65 bits is not read.
scans :
    scan_int "-12 peers" ≡ some (negsuc 11)
    × (scan_hex_int "0x 1F" ≡ some (pos 31))
    × (scan_hex_uint "0x10000000000000000" ≡ none)
    × (scan_hex_uint "3e8" ≡ none)
unfolding scan_int scan_hex_int scan_hex_uint digits_value skip_space is_space
scans = (refl, refl, refl, refl)

syncs : el_syncing wire client tt ≡ (ok true, tt)
unfolding el_syncing
syncs = refl

answered :
    call wire client client.el_url "eth_blockNumber" wire.decode_text tt
    ≡ (ok ("0x" <> hex 1000), tt)
unfolding call hex eth_node_operator.Jwt.Hex.hex_digit
answered = refl

el_block_number-hex_example : el_block_number wire client tt ≡ (ok 1000, tt)
el_block_number-hex_example = el_block_number-hex wire client 1000 tt tt answered
