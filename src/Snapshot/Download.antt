-- ===== src/Snapshot/Download.antt =====
-- internal/snapshot/downloader.go: the restore of a snapshot into an empty data directory. HTTP requests, the file system and
-- the two processes of the pipe are the fields of `Host`.
use eth_node_operator.Common.{
  ℕ, String, ◌<>◌, Bool, true, false, not, Option, none, some, List, [], ◌∷◌, if◌then◌else◌, ◌==◌,
  eqb, is_empty, Result, ok, err, Action, pure, wrap, ◌>>=◌, ◌>>◌,
}
use eth_node_operator.Common.Int.{pos, show_int}
use eth_node_operator.Common.Text.{to_lower, trim_space, fields}

-- What `os.ReadDir` finds.
pub data Listing : Type 0 where
  missing : Listing
  unreadable : String → Listing
  entries : List String → Listing

-- How the pipe of two processes ended: whether it could not be made, which process could not be started, or the errors of both.
pub data Piped : Type 0 where
  no_pipe no_curl no_tar : String → Piped
  ran : Option String → Option String → Piped

-- An answer, with the body if it could be read.
pub record Answer : Type 0 where
  pub code : ℕ
  pub body : Result String

pub record Host (W : Type 0) : Type 0 where
  -- `http.NewRequestWithContext` and the request.
  pub check_url : String → Result (Unit {0})
  pub get : String → Action W Answer
  pub read_dir : String → W → Listing × W
  pub make_dir : String → Action W (Unit {0})
  pub has_tool : String → W → Bool
  pub pipe : List String → List String → W → Piped × W
  pub write_file : String → String → W → W
  pub now : W → String
  -- The keys of the map of clients, as they are joined in the error.
  pub supported_clients : String

pub record SnapshotInfo : Type 0 where
  pub network : String
  pub client : String
  pub block_number : String
  pub download_url : String

abbrev pub clients : List String
clients =
    "geth" ∷ "nethermind" ∷ "besu" ∷ "reth" ∷ "erigon" ∷ "lighthouse" ∷ "teku" ∷ "prysm" ∷ "nimbus"
    ∷ "lodestar" ∷ []

abbrev pub is_client : List String → String → Bool
is_client [] name = false
is_client (c ∷ cs) name = if c == name then true else is_client cs name

-- The map takes each name to itself.
unfoldable pub client_slug : String → String → Result String
client_slug supported client =
    if is_client clients (to_lower client)
    then ok (to_lower client)
    else err ("client \"" <> client <> "\" has no ethpandaops snapshot — supported: " <> supported)

abbrev pub empty_listing : String → Listing → Result Bool
empty_listing dir missing = ok true
empty_listing dir (unreadable e) = err ("check datadir " <> dir <> ": " <> e)
empty_listing dir (entries names) = ok (is_empty names)

abbrev pub curl_args : String → List String
curl_args url =
    "curl" ∷ "--continue-at" ∷ "-" ∷ "--retry" ∷ "5" ∷ "--retry-connrefused" ∷ "--silent"
    ∷ "--show-error" ∷ "--" ∷ url ∷ []

abbrev pub tar_args : String → List String
tar_args dest =
    "tar" ∷ "--use-compress-program=zstd" ∷ "-xf" ∷ "-" ∷ "-C" ∷ dest ∷ "--no-absolute-filenames"
    ∷ "--no-overwrite-dir" ∷ "--strip-components=0" ∷ []

abbrev pub marker_text : SnapshotInfo → String → String
marker_text info now =
    "network=" <> info.network <> "\nclient=" <> info.client <> "\nblock=" <> info.block_number
    <> "\nrestoredAt=" <> now <> "\nsource=" <> info.download_url <> "\n"

abbrev pub of_block : SnapshotInfo → String
of_block info = info.network <> "/" <> info.client <> " block " <> info.block_number

abbrev pub piped_result : SnapshotInfo → Piped → Result (Unit {0})
piped_result info (no_pipe e) = err ("create pipe: " <> e)
piped_result info (no_curl e) = err ("start curl: " <> e)
piped_result info (no_tar e) = err ("start tar: " <> e)
piped_result info (ran (some e) tar) = err ("curl failed for " <> of_block info <> ": " <> e)
piped_result info (ran none (some e)) =
    err ("tar extraction failed for " <> of_block info <> ": " <> e)
piped_result info (ran none none) = ok tt

abbrev pub has_entries : Listing → Bool
has_entries missing = false
has_entries (unreadable e) = false
has_entries (entries names) = not (is_empty names)

-- An empty body has no first field, and the index panics.
abbrev pub sum_of : List String → Result (Unit {0})
sum_of [] = err "runtime error: index out of range"
sum_of (sum ∷ rest) = ok tt

abbrev pub body_text : Result String → String
body_text (ok s) = s
body_text (err e) = ""

abbrev pub sum_result : Result Answer → Result (Unit {0})
sum_result (err e) = ok tt
sum_result (ok a) =
    if eqb a.code 200 then sum_of (fields (trim_space (body_text a.body))) else ok tt

module _ {W : Type 0} (h : Host W) (base : String) where
  abbrev pub block_of : String → String → Answer → Result String
  block_of network slug a =
      if eqb a.code 200
      then elim a.body [
        | err e ↦ err ("read latest block: " <> e)
        | ok s ↦
            if trim_space s == ""
            then err ("empty block number from ethpandaops for " <> network <> "/" <> slug)
            else ok (trim_space s)
      ]
      else err (
          "ethpandaops returned "
          <> show_int (pos a.code)
          <> " for "
          <> network
          <> "/"
          <> slug
          <> "/latest")

  abbrev pub latest_url : String → String → String
  latest_url network slug = base <> "/" <> network <> "/" <> slug <> "/latest"

  abbrev pub archive_url : String → String → String → String
  archive_url network slug block =
      base <> "/" <> network <> "/" <> slug <> "/" <> block <> "/snapshot.tar.zst"

  unfoldable pub latest_block : String → String → Action W String
  latest_block network slug = do
    wrap (λ e. "build request: " <> e) (λ w. (h.check_url (latest_url network slug), w))
    a ←
        wrap (λ e. "fetch latest block for " <> network <> "/" <> slug <> ": " <> e)
          (h.get (latest_url network slug))
    λ w. (block_of network slug a, w)

  abbrev pub info_of : String → String → String → SnapshotInfo
  info_of network slug block = record {
    network = network;
    client = slug;
    block_number = block;
    download_url = archive_url network slug block;
  }

  unfoldable pub discover : String → String → Action W SnapshotInfo
  discover network client = do
    slug ← λ w. (client_slug h.supported_clients client, w)
    block ← latest_block network slug
    pure (info_of network slug block)

module _ {W : Type 0} (h : Host W) where
  unfoldable pub is_datadir_empty : String → Action W Bool
  is_datadir_empty dir w = let (l, w') = h.read_dir dir w in (empty_listing dir l, w')

  -- The first tool that is not there.
  unfoldable pub require_tools : List String → Action W (Unit {0})
  require_tools [] w = (ok tt, w)
  require_tools (tool ∷ tools) w =
      let rest = require_tools tools w in
      if h.has_tool tool w then rest else (
        err (
            "required tool \"" <> tool
            <> "\" not found — install it first (mainnet-base profile installs mdadm; ensure zstd is also installed)"),
        w,
      )

  -- The sum is not used, but the request is made.
  unfoldable pub fetch_checksum : String → Action W (Unit {0})
  fetch_checksum url w = elim (h.check_url url) [
    | err e ↦ (ok tt, w)
    | ok u ↦ let (a, w') = h.get url w in (sum_result a, w')
  ]

  abbrev pub require_entries : String → Action W (Unit {0})
  require_entries dest w =
      let (l, w') = h.read_dir dest w in
      (
        if has_entries l
            then ok tt
            else err "snapshot extraction produced empty datadir — archive may be corrupt",
        w',
      )

  -- An error of the write does not matter.
  abbrev pub mark : SnapshotInfo → String → Action W (Unit {0})
  mark info dest w =
      (ok tt, h.write_file (dest <> "/.snapshot-restored") (marker_text info (h.now w)) w)

  abbrev pub extract : SnapshotInfo → String → Action W (Unit {0})
  extract info dest w =
      let (p, w') = h.pipe (curl_args info.download_url) (tar_args dest) w in
      (piped_result info p, w')

  unfoldable pub restore : SnapshotInfo → String → Action W (Unit {0})
  unfolding require_tools fetch_checksum
  restore info dest = do
    wrap (λ e. "create dest dir " <> dest <> ": " <> e) (h.make_dir dest)
    require_tools ("curl" ∷ "tar" ∷ "zstd" ∷ [])
    fetch_checksum (info.download_url <> ".sha256")
    extract info dest
    require_entries dest
    mark info dest

module _ {W : Type 0} (h : Host W) (base : String) where
  abbrev pub restore_latest : String → String → String → String → Action W Bool
  restore_latest network client slug dest = do
    info ←
        wrap (λ e. "discover snapshot for " <> network <> "/" <> client <> ": " <> e)
          (discover h base network slug)
    restore h info dest
    pure true

  -- A client without snapshots is skipped.
  abbrev pub restore_client : String → String → String → Result String → Action W Bool
  restore_client network client dest (err e) = pure false
  restore_client network client dest (ok slug) = restore_latest network client slug dest

  abbrev pub into_empty : String → String → String → Bool → Action W Bool
  into_empty network client dest false = pure false
  into_empty network client dest true =
      restore_client network client dest (client_slug h.supported_clients client)

  unfoldable pub restore_if_empty : String → String → String → Action W Bool
  restore_if_empty network client dest = do
    empty ← is_datadir_empty h dest
    into_empty network client dest empty

-- `WasRestored`, with the test of a path's existence.
abbrev pub was_restored : {W : Type 0} → (String → W → Bool) → String → W → Bool
was_restored is_there dir w = is_there (dir <> "/.snapshot-restored") w
