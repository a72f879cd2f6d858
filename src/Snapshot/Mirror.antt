-- ===== src/Snapshot/Mirror.antt =====
-- internal/snapshot/downloader.go and server.go: the downloader, pointed at the server.
use package.text.Mathlib.TextLemmas.{append_assoc}
use eth_node_operator.Common.{
  String, ◌<>◌, ◌≡◌, refl, ap, ◌∙◌, subst, true, false, Bool-cases, inl, inr, some, List, [], ◌∷◌,
  All, ◌==◌, eq_iff, ok, ok-inj, arith,
}
use eth_node_operator.Common.Text.{to_lower, trim_space}
use eth_node_operator.Common.Text.Trim.{trim_space-again}
use eth_node_operator.Snapshot.Segments.{is_segment, path_of, segment-Lacks}
use eth_node_operator.Common.Text.Cut.{Lacks, strip_prefix_self}
use eth_node_operator.Common.Text.Split.{split_n-three, split_n-four}
use eth_node_operator.Snapshot.Download.{
  Host, Answer, SnapshotInfo, clients, is_client, client_slug, latest_block, discover, info_of,
  archive_url,
}
use eth_node_operator.Snapshot.Serve.{
  Files, Served, text, archive, index, Reply, serve, handle_snapshot, handle_latest, handle_archive,
  networks, under_network, latest_path, archive_path, without_slash, serve_parts, has_prefix,
}

-- A reply as a text; the downloader never asks for the index.
abbrev pub body_of : Served → String
body_of (text s) = s
body_of (archive s) = s
body_of (index es) = "[]"

abbrev pub answer_of : Reply → Answer
answer_of r = record { code = r.code; body = ok (body_of r.body) }

-- Requests below the base address are answered by the server, which is on another host than the downloader, if their paths are
-- of plain segments, which `net/http` passes on as they are.
pub record IsServed {W : Type 0} (files : Files) (root host_name base : String) (h : Host W)
    : Type 0 where
  pub is_url :
      (segments : List String)
      → All (λ s. is_segment s ≡ true) segments
      → h.check_url (base <> path_of segments) ≡ ok tt
  pub gets :
      (segment : String) (segments : List String) (w : W)
      → All (λ s. is_segment s ≡ true) (segment ∷ segments)
      → h.get (base <> path_of (segment ∷ segments)) w
        ≡ (ok (answer_of (serve files root host_name (path_of (segment ∷ segments)))), w)

segment_of :
    (cs : List String) (name : String)
    → All (λ c. is_segment c ≡ true) cs
    → is_client cs name ≡ true
    → is_segment name ≡ true
segment_of [] name h k = cc
segment_of (c ∷ cs) name (e, h) k = elim (Bool-cases (c == name)) [
  | inl same ↦ subst (λ x. is_segment x ≡ true) ((eq_iff c name).0 same) e
  | inr other ↦ segment_of cs name h (ground (arith, other, k))
]

prefixed : (n rest : String) → has_prefix ("/" <> n <> "/") ("/" <> n <> "/" <> rest) ≡ true
prefixed n rest =
    let e : ("/" <> n <> "/") <> rest ≡ "/" <> n <> "/" <> rest =
      append_assoc "/" (n <> "/") rest ∙ ap (λ s. "/" <> s) (append_assoc n "/" rest) in
    subst (λ s. has_prefix ("/" <> n <> "/") s ≡ true) e
      (rw (has_prefix, strip_prefix_self ("/" <> n <> "/") rest) refl)

under_of :
    (ns : List String) (name rest : String)
    → is_client ns name ≡ true
    → under_network ns ("/" <> name <> "/" <> rest) ≡ true
under_of [] name rest h = cc
under_of (n ∷ ns) name rest h = elim (Bool-cases (n == name)) [
  | inl same ↦ rw ((eq_iff n name).0 same) (rw (prefixed name rest) refl)
  | inr other ↦ ground (arith, under_of ns name rest (ground (arith, other, h)))
]

without_slash_lem : (rest : String) → without_slash ("/" <> rest) ≡ rest
without_slash_lem rest = rw (without_slash, strip_prefix_self "/" rest) refl

is_segment-named : (s : String) → is_segment s ≡ true → (s == "") ≡ false
is_segment-named s h = ground (arith, h)

-- What a client's name is taken to is one of the clients.
client_slug-is_client :
    (supported client slug : String)
    → client_slug supported client ≡ ok slug
    → is_client clients slug ≡ true
unfolding client_slug
client_slug-is_client supported client slug h =
    elim (Bool-cases (is_client clients (to_lower client))) [
      | inl known ↦ subst (λ s. is_client clients s ≡ true) (ok-inj (rw known at h)) known
      | inr unknown ↦ cc (rw unknown at h)
    ]

network-is_segment :
    (network : String) → is_client networks network ≡ true → is_segment network ≡ true
network-is_segment network h = segment_of networks network (refl, (refl, (refl, (refl, tt)))) h

client-is_segment : (slug : String) → is_client clients slug ≡ true → is_segment slug ≡ true
client-is_segment slug h =
    segment_of clients slug
      (refl, (refl, (refl, (refl, (refl, (refl, (refl, (refl, (refl, (refl, tt)))))))))) h

module _ (files : Files) (root host_name : String) where
  serve-latest :
      (network slug : String)
      → is_client networks network ≡ true
      → is_client clients slug ≡ true
      → serve files root host_name ("/" <> network <> "/" <> slug <> "/latest")
        ≡ handle_latest files root network slug
  unfolding serve handle_snapshot
  serve-latest network slug n c = rw (under_of networks network (slug <> "/latest") n) (
      rw (without_slash_lem (network <> "/" <> slug <> "/latest")) (
        ap (serve_parts files root) (
          split_n-three network slug "latest" (segment-Lacks network (network-is_segment network n))
            (segment-Lacks slug (client-is_segment slug c)) (segment-Lacks "latest" refl))))

  serve-archive :
      (network slug block : String)
      → is_client networks network ≡ true
      → is_client clients slug ≡ true
      → Lacks b'/' block
      → serve files root host_name
          ("/" <> network <> "/" <> slug <> "/" <> block <> "/snapshot.tar.zst")
        ≡ handle_archive files root network slug block
  unfolding serve handle_snapshot
  serve-archive network slug block n c b =
      rw (under_of networks network (slug <> "/" <> block <> "/snapshot.tar.zst") n) (
        rw (without_slash_lem (network <> "/" <> slug <> "/" <> block <> "/snapshot.tar.zst")) (
          ap (serve_parts files root) (
            split_n-four network slug block "snapshot.tar.zst"
              (segment-Lacks network (network-is_segment network n))
              (segment-Lacks slug (client-is_segment slug c)) b
              (segment-Lacks "snapshot.tar.zst" refl))))

-- An archive of the latest block, with the file that names the block, of a client and network of the server.
pub record IsOffered (files : Files) (root network slug latest archive_bytes : String)
    : Type 0 where
  pub is_network : is_client networks network ≡ true
  pub names_block : files.read_file (latest_path files root network slug) ≡ some latest
  pub is_path : is_segment (trim_space latest) ≡ true
  pub holds :
      files.read_file (archive_path files root network slug (trim_space latest))
      ≡ some archive_bytes
  pub is_stable :
      files.stat_fails (archive_path files root network slug (trim_space latest)) ≡ false

module _ {W : Type 0} (files : Files) (root host_name base : String) (h : Host W)
    (served : IsServed files root host_name base h) where
  latest_block-Offered :
      (network slug latest archive_bytes : String) (w : W)
      → is_client clients slug ≡ true
      → IsOffered files root network slug latest archive_bytes
      → latest_block h base network slug w ≡ (ok (trim_space latest), w)
  unfolding latest_block handle_latest
  latest_block-Offered network slug latest archive_bytes w known o =
      let plain : All (λ s. is_segment s ≡ true) (network ∷ slug ∷ "latest" ∷ []) =
        (network-is_segment network o.is_network, (client-is_segment slug known, (refl, tt))) in
      rw (served.is_url (network ∷ slug ∷ "latest" ∷ []) plain) (
        rw (served.gets network (slug ∷ "latest" ∷ []) w plain) (
          rw (serve-latest files root host_name network slug o.is_network known) (
            rw o.names_block (
              rw (trim_space-again latest)
                (rw (is_segment-named (trim_space latest) o.is_path) refl)))))

  discover-Offered :
      (network client slug latest archive_bytes : String) (w : W)
      → client_slug h.supported_clients client ≡ ok slug
      → IsOffered files root network slug latest archive_bytes
      → discover h base network client w ≡ (ok (info_of h base network slug (trim_space latest)), w)
  unfolding discover
  discover-Offered network client slug latest archive_bytes w s o = rw s (
      rw
        (latest_block-Offered network slug latest archive_bytes w
          (client_slug-is_client h.supported_clients client slug s) o)
        refl)

  archive-Offered :
      (network slug latest archive_bytes : String) (w : W)
      → is_client clients slug ≡ true
      → IsOffered files root network slug latest archive_bytes
      → h.get (archive_url h base network slug (trim_space latest)) w
        ≡ (ok (record { code = 200; body = ok archive_bytes }), w)
  unfolding handle_archive
  archive-Offered network slug latest archive_bytes w known o =
      served.gets network (slug ∷ trim_space latest ∷ "snapshot.tar.zst" ∷ []) w (
        network-is_segment network o.is_network,
        (client-is_segment slug known, (o.is_path, (refl, tt))),
      )
      ∙ rw
          (serve-archive files root host_name network slug (trim_space latest) o.is_network known
            (segment-Lacks (trim_space latest) o.is_path))
          (rw o.holds (rw o.is_stable refl))

-- Pointed at the server, the downloader finds the block that the file `latest` of the network and client names, less the
-- spaces around it, and the address that it makes of it is answered with the bytes of that block's archive, if the server
-- has both files, the network is one of its four, the client is known, and the block's name is of letters, digits, `-`, `.`
-- and `_`, and is not empty, `.` or `..`.
pub discover-IsOffered :
    {W : Type 0} (files : Files) (root host_name base : String) (h : Host W)
    (network client slug latest archive_bytes : String) (w : W)
    → IsServed files root host_name base h
    → client_slug h.supported_clients client ≡ ok slug
    → IsOffered files root network slug latest archive_bytes
    → (info : SnapshotInfo) × (discover h base network client w ≡ (ok info, w))
      × (info.block_number ≡ trim_space latest)
      × (h.get info.download_url w ≡ (ok (record { code = 200; body = ok archive_bytes }), w))
discover-IsOffered files root host_name base h network client slug latest archive_bytes w served s
      o =
    (
      info_of h base network slug (trim_space latest),
      discover-Offered files root host_name base h served network client slug latest archive_bytes w
          s o,
      refl,
      archive-Offered files root host_name base h served network slug latest archive_bytes w
          (client_slug-is_client h.supported_clients client slug s) o,
    )
