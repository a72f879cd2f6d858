-- ===== src/Jwt.antt =====
-- internal/jwt/manager.go: the secret that the execution and the consensus client share. The calls on files and the
-- source of random bytes are the fields of `Host`.
pub mod Hex
pub mod Encoding
pub mod Rereading
mod Tests
use eth_node_operator.Common.{
  ℕ, String, ◌<>◌, Bool, true, false, Option, none, some, List, length, if◌then◌else◌, eqb, ◌==◌,
  Result, ok, err, Action, pure, fail, wrap, map_err, continue, ◌>>=◌, ◌>>◌,
}
use eth_node_operator.Common.Text.{strip_prefix, trim_space, decimal}
use eth_node_operator.Jwt.Hex.{byte_length, all_hex, hex_encode}

-- What a read of a file gives: its text, that there is no such file, or another error. The errors have a text.
pub data Contents : Type 0 where
  present : String → Contents
  absent : String → Contents
  unreadable : String → Contents

pub record Host (W : Type 0) : Type 0 where
  pub read_file : String → W → Contents × W
  -- 32 bytes.
  pub random_bytes : Action W (List ℕ)
  -- The directory of a path, with its parents.
  pub make_parent : String → Action W Unit
  pub write_file : String → String → Action W Unit
  pub rename : String → String → Action W Unit
  pub remove : String → W → W
  -- The text of the error of `hex.DecodeString`, where it finds a byte that is not a digit.
  pub invalid_byte : String → String

-- `if path == "" { path = DefaultPath }`
unfoldable pub new_manager : String → String
new_manager path = if path == "" then "/data/jwtsecret" else path

module _ {W : Type 0} (host : Host W) where
  abbrev pub validate_hex : String → Result (Unit {0})
  validate_hex s =
      if eqb (byte_length s) 64
      then if all_hex s then ok tt else err ("invalid hex: " <> host.invalid_byte s)
      else err ("hex part must be 64 characters, got " <> decimal (byte_length s))

  unfoldable pub validate : String → Result (Unit {0})
  validate secret = elim (strip_prefix "0x" secret) [
    | none ↦ err "must start with 0x"
    | some s ↦ validate_hex s
  ]

module _ {W : Type 0} (host : Host W) (path : String) where
  -- A wrapped error is not one of a missing file.
  abbrev pub checked : String → Result (Unit {0}) → Contents
  checked secret (ok u) = present secret
  checked secret (err e) = unreadable ("invalid JWT secret at " <> path <> ": " <> e)

  abbrev pub read_contents : Contents → Contents
  read_contents (present text) = checked (trim_space text) (validate host (trim_space text))
  read_contents (absent e) = absent e
  read_contents (unreadable e) = unreadable e

  abbrev pub read : W → Contents × W
  read w = let (c, w') = host.read_file path w in (read_contents c, w')

  -- A rename that fails removes the file that was written.
  abbrev pub after_rename : String → Result (Unit {0}) → Action W (Unit {0})
  after_rename tmp (ok u) w = (ok tt, w)
  after_rename tmp (err e) w = (err ("install JWT secret: " <> e), host.remove tmp w)

  abbrev pub install : String → Action W (Unit {0})
  install tmp w = let (r, w') = host.rename tmp path w in after_rename tmp r w'

  unfoldable pub write : String → Action W Unit
  write secret = do
    wrap (λ e. "create JWT secret directory: " <> e) (host.make_parent path)
    wrap (λ e. "write JWT secret: " <> e) (host.write_file (path <> ".tmp") (secret <> "\n"))
    install (path <> ".tmp")

  unfoldable pub generate : Action W String
  unfolding write
  generate = do
    raw ← wrap (λ e. "generate JWT secret entropy: " <> e) host.random_bytes
    write ("0x" <> hex_encode raw)
    pure ("0x" <> hex_encode raw)

  -- What was read is checked once more.
  abbrev pub existing : String → Result (Unit {0}) → Result (String × Bool)
  existing secret (ok u) = ok (secret, false)
  existing secret (err e) = err ("existing JWT secret at " <> path <> " is invalid: " <> e)

  unfoldable pub created : Action W (String × Bool)
  unfolding generate
  created = do secret ← generate; pure (secret, true)

  unfoldable pub ensure : Contents → Action W (String × Bool)
  unfolding created
  ensure (present secret) w = (existing secret (validate host secret), w)
  ensure (absent e) w = created w
  ensure (unreadable e) w = (err ("check JWT secret: " <> e), w)

  unfoldable pub ensure_exists : Action W (String × Bool)
  unfolding ensure
  ensure_exists w = let (c, w') = read w in ensure c w'

  abbrev pub verify_contents : Contents → Result (Unit {0})
  verify_contents (present secret) = validate host secret
  verify_contents (absent e) = err e
  verify_contents (unreadable e) = err e

  -- `Verify`
  unfoldable pub verify : Action W Unit
  verify w = let (c, w') = read w in (verify_contents c, w')
