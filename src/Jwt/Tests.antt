-- ===== src/Jwt/Tests.antt =====
-- internal/jwt/manager.go: the theorem, and the checks of a secret, on a host with two files.
use eth_node_operator.Common.{
  ℕ, String, ◌<>◌, ◌≡◌, ◌<◌, refl, subst, ap, Option, none, some, true, false, List, [], ◌∷◌, ok,
  err, ok-inj, length, arith,
}
use eth_node_operator.Jwt.{Contents, present, absent, Host, validate, ensure_exists}
use eth_node_operator.Jwt.Encoding.{Bytes}
use eth_node_operator.Jwt.Rereading.{IsHost, ensure_exists-again}

-- The file of the secret, and the one that is written before it is renamed.
abbrev Disk : Type 0
Disk = Option String × Option String

abbrev contents_of : Option String → Contents
contents_of none = absent "no such file"
contents_of (some text) = present text

abbrev eight : List ℕ → List ℕ
eight bs = 0 ∷ 15 ∷ 16 ∷ 171 ∷ 205 ∷ 239 ∷ 254 ∷ 255 ∷ bs

abbrev entropy : List ℕ
entropy = eight (eight (eight (eight [])))

abbrev host : Host Disk
host = record {
  read_file = λ path w. (contents_of w.0, w);
  random_bytes = λ w. (ok entropy, w);
  make_parent = λ path w. (ok tt, w);
  write_file = λ path text w. (ok tt, (w.0, some text));
  rename = λ from to w. (ok tt, (w.1, none));
  remove = λ path w. (w.0, none);
  invalid_byte = λ s. "encoding/hex: invalid byte";
}

eight-Bytes : (bs : List ℕ) → Bytes bs → Bytes (eight bs)
eight-Bytes bs h = (
  omega arith,
  (
    omega arith,
    (omega arith, (omega arith, (omega arith, (omega arith, (omega arith, (omega arith, h)))))),
  ),
)

entropy-Bytes : Bytes entropy × (length entropy ≡ 32)
entropy-Bytes = (
  eight-Bytes (eight (eight (eight [])))
      (eight-Bytes (eight (eight [])) (eight-Bytes (eight []) (eight-Bytes [] _))),
  refl,
)

host-IsHost : IsHost host "/data/jwtsecret"
host-IsHost = record {
  again = λ w. refl;
  installed = λ text w made wrote renamed. refl;
  random = λ w bs h. subst (λ l. Bytes l × (length l ≡ 32)) (ok-inj h) entropy-Bytes;
}

abbrev half : String
half = "000f10abcdeffeff000f10abcdeffeff"

abbrev secret : String
secret = "0x" <> half <> half

creates :
    ensure_exists host "/data/jwtsecret" (none, none)
    ≡ (ok (secret, true), (some (secret <> "\n"), none))
unfolding ensure_exists eth_node_operator.Jwt.Hex.hex_encode
creates = refl

ensure_exists-again_example :
    ensure_exists host "/data/jwtsecret" (some (secret <> "\n"), none)
    ≡ (ok (secret, false), (some (secret <> "\n"), none))
ensure_exists-again_example =
    ensure_exists-again host "/data/jwtsecret" host-IsHost (none, none) creates

-- The digits may be upper case.
upper_case :
    validate host "0x000F10ABCDEFFEFF000F10ABCDEFFEFF000F10ABCDEFFEFF000F10ABCDEFFEFF" ≡ ok tt
unfolding validate eth_node_operator.Jwt.Hex.byte_length eth_node_operator.Jwt.Hex.all_hex
upper_case = refl

-- A bad file is an error of the read.
bad_file : ensure_exists host "/data/jwtsecret" (some "0x00", none) ≡ (
  err
      "check JWT secret: invalid JWT secret at /data/jwtsecret: hex part must be 64 characters, got 2",
  (some "0x00", none),
)
unfolding ensure_exists validate eth_node_operator.Common.Text.trim_space
    eth_node_operator.Jwt.Hex.byte_length eth_node_operator.Common.Text.decimal
bad_file = refl
