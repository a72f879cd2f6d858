-- ===== src/Snapshot/Serve.antt =====
-- internal/snapshot/server.go: the server of snapshots, which the downloader can take in place of the public one. The mux has cleaned the
-- path of a request, and the root directory is written in the shortest form, so paths are joined by a slash. A request for
-- a part of an archive is answered by the library; here the whole archive is served.
use eth_node_operator.Common.{
  ℕ, String, ◌<>◌, Bool, true, false, Option, none, some, List, [], ◌∷◌, ◌++◌, if◌then◌else◌, ◌==◌,
}
use eth_node_operator.Common.Text.{strip_prefix, split_n, trim_space}
use eth_node_operator.Snapshot.{DirEntry}

-- The file system of the server, as it is while a request is answered.
pub record Files : Type 0 where
  pub read_dir : String → List DirEntry
  pub read_file : String → Option String
  -- The error of the second look at a file that was opened.
  pub stat_fails : String → Bool
  -- 0 if there is no such file.
  pub size : String → ℕ

-- An entry of the index, less its time.
pub record SnapshotEntry : Type 0 where
  pub network : String
  pub client : String
  pub block_number : String
  pub url : String
  pub size_bytes : ℕ

pub data Served : Type 0 where
  text archive : String → Served
  index : List SnapshotEntry → Served

pub record Reply : Type 0 where
  pub code : ℕ
  pub body : Served

abbrev pub say : ℕ → String → Reply
say code s = record { code = code; body = text s }

abbrev pub not_found : Reply
not_found = say 404 "404 page not found\n"

-- The path without its first slash.
abbrev pub without_slash : String → String
without_slash path = elim (strip_prefix "/" path) [ none ↦ path | some rest ↦ rest ]

abbrev pub or_localhost : String → String
or_localhost host = if host == "" then "localhost" else host

abbrev pub has_prefix : String → String → Bool
has_prefix p s = elim (strip_prefix p s) [ none ↦ false | some rest ↦ true ]

-- The networks of the mux.
abbrev pub networks : List String
networks = "mainnet" ∷ "sepolia" ∷ "hoodi" ∷ "holesky" ∷ []

abbrev pub under_network : List String → String → Bool
under_network [] path = false
under_network (n ∷ ns) path =
    if has_prefix ("/" <> n <> "/") path then true else under_network ns path

-- The root of a network's subtree without its last slash, to which the mux adds it.
abbrev pub is_root : List String → String → Bool
is_root [] path = false
is_root (n ∷ ns) path = if path == "/" <> n then true else is_root ns path

module _ (files : Files) (root : String) where
  abbrev pub latest_path : String → String → String
  latest_path network client = root <> "/" <> network <> "/" <> client <> "/latest"

  abbrev pub archive_path : String → String → String → String
  archive_path network client block =
      root <> "/" <> network <> "/" <> client <> "/" <> block <> "/snapshot.tar.zst"

  abbrev pub reply_latest : String → String → Option String → Reply
  reply_latest network client none =
      say 404 ("no snapshot available for " <> network <> "/" <> client <> "\n")
  reply_latest network client (some s) = say 200 (trim_space s)

  unfoldable pub handle_latest : String → String → Reply
  handle_latest network client =
      reply_latest network client (files.read_file (latest_path network client))

  abbrev pub reply_archive : String → String → String → Option String → Reply
  reply_archive network client block none =
      say 404 ("snapshot not found: " <> network <> "/" <> client <> "/" <> block <> "\n")
  reply_archive network client block (some s) =
      if files.stat_fails (archive_path network client block)
      then say 500 "stat error\n"
      else record { code = 200; body = archive s }

  unfoldable pub handle_archive : String → String → String → Reply
  handle_archive network client block =
      reply_archive network client block (files.read_file (archive_path network client block))

  abbrev pub serve_parts : List String → Reply
  serve_parts (network ∷ client ∷ last ∷ []) =
      if last == "latest" then handle_latest network client else not_found
  serve_parts (network ∷ client ∷ block ∷ last ∷ []) =
      if last == "snapshot.tar.zst" then handle_archive network client block else not_found
  serve_parts [] = not_found
  serve_parts (a ∷ []) = not_found
  serve_parts (a ∷ b ∷ []) = not_found
  serve_parts (a ∷ b ∷ c ∷ d ∷ e ∷ rest) = not_found

  unfoldable pub handle_snapshot : String → Reply
  unfolding handle_latest handle_archive
  handle_snapshot path = serve_parts (split_n (without_slash path) b'/' 4)

  abbrev pub entry_of : String → String → String → String → SnapshotEntry
  entry_of host network client block = record {
    network = network;
    client = client;
    block_number = block;
    url =
        "http://"
        <> or_localhost host
        <> "/"
        <> network
        <> "/"
        <> client
        <> "/"
        <> block
        <> "/snapshot.tar.zst";
    size_bytes = files.size (archive_path network client block);
  }

  abbrev pub add_entry :
      String → String → String → Option String → List SnapshotEntry → List SnapshotEntry
  add_entry host network client none rest = rest
  add_entry host network client (some s) rest = entry_of host network client (trim_space s) ∷ rest

  unfoldable pub client_entries : String → String → List DirEntry → List SnapshotEntry
  client_entries host network [] = []
  client_entries host network (d ∷ ds) =
      let rest = client_entries host network ds in
      if d.is_dir
      then add_entry host network d.name (files.read_file (latest_path network d.name)) rest
      else rest

  unfoldable pub network_entries : String → List DirEntry → List SnapshotEntry
  unfolding client_entries
  network_entries host [] = []
  network_entries host (d ∷ ds) =
      let rest = network_entries host ds in
      if d.is_dir
      then client_entries host d.name (files.read_dir (root <> "/" <> d.name)) ++ rest
      else rest

  unfoldable pub handle_index : String → String → Reply
  unfolding network_entries
  handle_index host path =
      if path == "/"
      then record { code = 200; body = index (network_entries host (files.read_dir root)) }
      else not_found

  -- The patterns of the mux; no path has two of them but "/", which all have.
  unfoldable pub serve : String → String → Reply
  unfolding handle_snapshot handle_index
  serve host path =
      if under_network networks path
      then handle_snapshot path
      else if path == "/healthz"
      then say 200 "ok"
      else if is_root networks path
      then say 301 ("<a href=\"" <> path <> "/\">Moved Permanently</a>.\n\n")
      else handle_index host path
