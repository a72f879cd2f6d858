-- ===== src/Jwt/Rereading.antt =====
-- internal/jwt/manager.go: `EnsureExists` after `EnsureExists`.
use eth_node_operator.Common.{
  String, ◌<>◌, ◌≡◌, refl, sym, ap, subst, ◌∙◌, Bool, false, List, ℕ, length, Result, ok, err,
  ok-inj, >>=-eq-ok, wrap, map_err-ok,
}
use eth_node_operator.Common.Text.{trim_space}
use eth_node_operator.Jwt.{
  Contents, present, absent, unreadable, Host, validate, checked, read_contents, after_rename,
  write, generate, existing, created, ensure, ensure_exists,
}
use eth_node_operator.Jwt.Hex.{hex_encode}
use eth_node_operator.Jwt.Encoding.{Bytes, validate-hex_encode, trim_space-hex_encode}

-- What a host does with its files: a second read gives what the first gave; a file that was written, and renamed to the path, is what
-- is read there; and the random source gives 32 bytes.
pub record IsHost {W : Type 0} (host : Host W) (path : String) : Type 0 where
  pub again :
      (w : W)
      → host.read_file path (host.read_file path w).1
        ≡ ((host.read_file path w).0, (host.read_file path w).1)
  pub installed :
      (text : String) (w : W)
      → let w1 = (host.make_parent path w).1 in
        let w2 = (host.write_file (path <> ".tmp") text w1).1 in
        let w3 = (host.rename (path <> ".tmp") path w2).1 in
        (host.make_parent path w).0 ≡ ok tt
        → (host.write_file (path <> ".tmp") text w1).0 ≡ ok tt
        → (host.rename (path <> ".tmp") path w2).0 ≡ ok tt
        → host.read_file path w3 ≡ (present text, w3)
  pub random : (w : W) (bs : List ℕ) → (host.random_bytes w).0 ≡ ok bs → Bytes bs × (length bs ≡ 32)

pair-eq {ℓ} : {A B : Type ℓ} (x : A × B) {a : A} {b : B} → x.0 ≡ a → x.1 ≡ b → x ≡ (a, b)
pair-eq x h k = cc

module _ {W : Type 0} (host : Host W) (path : String) where
  reread :
      (w : W) (text : String)
      → host.read_file path w ≡ (present text, w)
      → validate host (trim_space text) ≡ ok tt
      → ensure_exists host path w ≡ (ok (trim_space text, false), w)
  unfolding ensure_exists
  reread w text h v = rw (h, v, v)

  ensured-present :
      (text : String) (r : Result (Unit {0})) (w1 : W) {s : String} {b : Bool} {w' : W}
      → validate host (trim_space text) ≡ r
      → ensure host path (checked host path (trim_space text) r) w1 ≡ (ok (s, b), w')
      → (r ≡ ok tt) × (s ≡ trim_space text) × (w' ≡ w1)
  unfolding ensure
  ensured-present text (ok u) w1 e h =
      let found = sym (ap (existing {W = W} host path (trim_space text)) e) ∙ ap (λ x. x.0) h in
      (refl, sym (ap (λ x. x.0) (ok-inj found)), sym (ap (λ x. x.1) h))
  ensured-present text (err x) w1 e h = cc

  after_rename-ok :
      (tmp : String) (r : Result (Unit {0})) (w w' : W)
      → after_rename host path tmp r w ≡ (ok tt, w')
      → (r ≡ ok tt) × (w ≡ w')
  after_rename-ok tmp (ok u) w w' h = (refl, ap (λ x. x.1) h)
  after_rename-ok tmp (err e) w w' h = cc

  -- What a successful creation has done.
  record Created (w : W) (secret : String) (w' : W) : Type 0 where
    bytes : List ℕ
    are_random : (host.random_bytes w).0 ≡ ok bytes
    encoded : secret ≡ "0x" <> hex_encode bytes
    wrote : write host path ("0x" <> hex_encode bytes) (host.random_bytes w).1 ≡ (ok tt, w')

  generate-Created :
      (w : W) (s : String) (w' : W) → generate host path w ≡ (ok s, w') → Created w s w'
  unfolding generate
  generate-Created w s w' h =
      let (bs, raw, rest) = >>=-eq-ok (wrap _ host.random_bytes) _ w h in
      let (u, wrote, same) =
        >>=-eq-ok (write host path ("0x" <> hex_encode bs)) _ (host.random_bytes w).1 rest in
      record {
        bytes = bs;
        are_random = map_err-ok _ (host.random_bytes w).0 raw;
        encoded = sym (ok-inj (ap (λ x. x.0) same));
        wrote =
            pair-eq (write host path ("0x" <> hex_encode bs) (host.random_bytes w).1) wrote
              (ap (λ x. x.1) same);
      }

  write-reads :
      IsHost host path
      → (secret : String) (w w' : W) → write host path secret w ≡ (ok tt, w')
      → host.read_file path w' ≡ (present (secret <> "\n"), w')
  unfolding write
  write-reads laws secret w w' h =
      let (u1, made, rest) = >>=-eq-ok (wrap _ (host.make_parent path)) _ w h in
      let (u2, wrote, last) =
        >>=-eq-ok (wrap _ (host.write_file (path <> ".tmp") (secret <> "\n"))) _ _ rest in
      let w2 = (host.write_file (path <> ".tmp") (secret <> "\n") (host.make_parent path w).1).1 in
      let (renamed, same) =
        after_rename-ok (path <> ".tmp") (host.rename (path <> ".tmp") path w2).0 _ w' last in
      subst (λ v. host.read_file path v ≡ (present (secret <> "\n"), v)) same
        (laws.installed (secret <> "\n") w (map_err-ok _ _ made) (map_err-ok _ _ wrote) renamed)

  created-reads :
      IsHost host path
      → (w : W) {s : String} {b : Bool} {w' : W} → created host path w ≡ (ok (s, b), w')
      → ensure_exists host path w' ≡ (ok (s, false), w')
  unfolding created
  created-reads laws w {s = s} {b = b} {w' = w'} h =
      let (secret, made, rest) = >>=-eq-ok (generate host path) _ w h in
      let c =
        generate-Created w secret (generate host path w).1
          (pair-eq (generate host path w) made refl) in
      let (are_bytes, size) = laws.random w c.bytes c.are_random in
      let trimmed = trim_space-hex_encode c.bytes are_bytes in
      let valid = ap (validate host) trimmed ∙ validate-hex_encode host c.bytes are_bytes size in
      let reads =
        write-reads laws ("0x" <> hex_encode c.bytes) (host.random_bytes w).1
          (generate host path w).1 c.wrote in
      let named = trimmed ∙ sym c.encoded ∙ ap (λ x. x.0) (ok-inj (ap (λ x. x.0) rest)) in
      subst (λ v. ensure_exists host path v ≡ (ok (s, false), v)) (ap (λ x. x.1) rest)
        (reread (generate host path w).1 _ reads valid
          ∙ ap (λ t. (ok (t, false), (generate host path w).1)) named)

  ensured-again :
      IsHost host path
      → (c : Contents) (w w1 : W) {s : String} {b : Bool} {w' : W} → host.read_file path w ≡ (c, w1)
      → ensure host path (read_contents host path c) w1 ≡ (ok (s, b), w')
      → ensure_exists host path w' ≡ (ok (s, false), w')
  unfolding ensure
  ensured-again laws (present text) w w1 h k =
      let (valid, same, still) = ensured-present text (validate host (trim_space text)) w1 refl k in
      let reads = subst (λ x. host.read_file path x.1 ≡ x) h (laws.again w) in
      rw (still, same) (reread w1 text reads valid)
  ensured-again laws (absent e) w w1 h k = created-reads laws w1 k
  ensured-again laws (unreadable e) w w1 h k = cc

  -- Where `EnsureExists` succeeds, whether it has found the secret or has made it, a second call succeeds
  -- too, returns the same secret as one that was there, and leaves the host as it is: the text that
  -- `Generate` writes passes the checks of `Read`. The host's files keep what is written to them, and its random source gives 32 bytes.
  pub ensure_exists-again :
      IsHost host path
      → (w : W) {s : String} {b : Bool} {w' : W} → ensure_exists host path w ≡ (ok (s, b), w')
      → ensure_exists host path w' ≡ (ok (s, false), w')
  unfolding ensure_exists
  ensure_exists-again laws w h =
      ensured-again laws (host.read_file path w).0 w (host.read_file path w).1 refl h
