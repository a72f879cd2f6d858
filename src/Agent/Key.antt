-- ===== src/Agent/Key.antt =====
-- internal/agent/auth.go: `loadOrCreateAPIKey`. The environment, the file of the key and the source of random bytes are the
-- fields of `Vault`.
use eth_node_operator.Common.{
  ℕ, String, ◌<>◌, List, if◌then◌else◌, leb, ◌==◌, ok, err, Action, pure, wrap, ◌>>=◌, ◌>>◌,
}
use eth_node_operator.Common.Text.{trim_space}
use eth_node_operator.Jwt.{Contents, present, absent, unreadable}
use eth_node_operator.Jwt.Hex.{byte_length, hex_encode}

pub record Vault (W : Type 0) : Type 0 where
  pub env_key : String
  pub read_key : W → Contents × W
  -- 32 bytes.
  pub random_bytes : Action W (List ℕ)
  pub make_dir : Action W Unit
  pub write_key : String → Action W Unit

module _ {W : Type 0} (v : Vault W) where
  unfoldable pub create_key : Action W String
  create_key = do
    raw ← wrap (λ e. "generate api key: " <> e) v.random_bytes
    wrap (λ e. "create config dir: " <> e) v.make_dir
    wrap (λ e. "write api key: " <> e) (v.write_key (hex_encode raw <> "\n"))
    pure (hex_encode raw)

  -- A key that is too short is made anew.
  unfoldable pub key_of : Contents → Action W String
  unfolding create_key
  key_of (present text) w =
      if leb 32 (byte_length (trim_space text)) then (ok (trim_space text), w) else create_key w
  key_of (absent e) w = create_key w
  key_of (unreadable e) w = (err ("read api key: " <> e), w)

  unfoldable pub load_or_create_api_key : Action W String
  unfolding key_of
  load_or_create_api_key w =
      if v.env_key == "" then (let (c, w') = v.read_key w in key_of c w') else (ok v.env_key, w)
