-- ===== src/EthClient.antt =====
-- pkg/ethclient/client.go: the questions to the execution and the consensus client. HTTP and the decoders of JSON are the fields of
-- `Wire`; `Sscan` is what the program uses of `fmt.Sscanf`.
pub mod Sscan
mod Quantity
mod Tests
use eth_node_operator.Common.{
  ℕ, String, ◌<>◌, Bool, true, false, not, Option, none, some, if◌then◌else◌, ◌==◌, Result, ok, err,
  Action, pure, wrap, continue, ◌>>=◌, ◌>>◌,
}
use eth_node_operator.Common.Int.{ℤ, pos, show_int}
use eth_node_operator.EthClient.Sscan.{
  scan_hex_uint, scan_hex_int, scan_uint, scan_int, or_zero, or_int_zero,
}

pub record RpcError : Type 0 where
  pub code : ℤ
  pub message : String

-- The result is the text of a JSON value, empty if there is none.
pub record RpcResponse : Type 0 where
  pub result : String
  pub error : Option RpcError

pub record ClSync : Type 0 where
  pub is_syncing : Bool
  pub head_slot : String
  pub sync_distance : String

pub record Wire (W : Type 0) : Type 0 where
  pub new_request : String → Result (Unit {0})
  -- A call of a method without parameters, and a GET; both give the body.
  pub post : String → String → Action W String
  pub get : String → Action W String
  pub decode_rpc : String → Result RpcResponse
  -- `json.Unmarshal` into a text.
  pub decode_text : String → Result String
  pub decode_sync : String → Result ClSync
  pub decode_peers : String → Result String

pub record Client : Type 0 where
  pub el_url : String
  pub cl_url : String

abbrev pub rpc_result : RpcResponse → Result String
rpc_result r = elim r.error [
  | none ↦ ok r.result
  | some e ↦ err ("rpc error " <> show_int e.code <> ": " <> e.message)
]

-- `json.Unmarshal` into a `json.RawMessage`.
abbrev pub raw : String → Result String
raw s = if s == "" then err "unexpected end of JSON input" else ok s

module _ {W : Type 0} (wire : Wire W) (c : Client) where
  -- The raw result, as `out` decodes it.
  unfoldable pub call : String → String → (String → Result String) → Action W String
  call url method out = do
    wrap (λ e. "create request: " <> e) (λ w. (wire.new_request url, w))
    body ← wrap (λ e. "rpc call to " <> url <> ": " <> e) (wire.post url method)
    r ← wrap (λ e. "decode rpc response: " <> e) (λ w. (wire.decode_rpc body, w))
    result ← λ w. (rpc_result r, w)
    λ w. (out result, w)

  unfoldable pub el_syncing : Action W Bool
  unfolding call
  el_syncing = do result ← call c.el_url "eth_syncing" raw; pure (not (result == "false"))

  -- What cannot be read leaves 0.
  unfoldable pub el_block_number : Action W ℕ
  unfolding call
  el_block_number = do
    hex ← call c.el_url "eth_blockNumber" wire.decode_text
    pure (or_zero (scan_hex_uint hex))

  unfoldable pub el_peer_count : Action W ℤ
  unfolding call
  el_peer_count = do
    hex ← call c.el_url "net_peerCount" wire.decode_text
    pure (or_int_zero (scan_hex_int hex))

  abbrev pub ask : {A : Type 0} → String → String → String → (String → Result A) → Action W A
  ask path asked decoded decode = do
    λ w. (wire.new_request (c.cl_url <> path), w)
    body ← wrap (λ e. asked <> ": " <> e) (wire.get (c.cl_url <> path))
    wrap (λ e. decoded <> ": " <> e) (λ w. (decode body, w))

  unfoldable pub cl_syncing : Action W Bool
  cl_syncing = do
    sync ←
        ask "/eth/v1/node/syncing" "cl syncing request" "decode cl sync response" wire.decode_sync
    pure sync.is_syncing

  unfoldable pub cl_peer_count : Action W ℤ
  cl_peer_count = do
    count ←
        ask "/eth/v1/node/peer_count" "cl peer count request" "decode cl peer response"
          wire.decode_peers
    pure (or_int_zero (scan_int count))

  unfoldable pub cl_head_slot : Action W ℕ
  cl_head_slot = do
    sync ←
        ask "/eth/v1/node/syncing" "cl head slot request" "decode cl sync response" wire.decode_sync
    pure (or_zero (scan_uint sync.head_slot))
