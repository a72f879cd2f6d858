-- ===== src/Snapshot/DownloadTests.antt =====
-- internal/snapshot: the theorems on the downloader, with a server that has a snapshot of geth on mainnet. The world is whether the
-- archive was extracted.
use eth_node_operator.Common.{
  String, ◌<>◌, ◌≡◌, ◌≢◌, refl, Bool, true, false, Option, none, some, List, [], ◌∷◌, if◌then◌else◌,
  ◌==◌, Result, ok, err, ap,
}
use eth_node_operator.Common.Text.{strip_prefix}
use eth_node_operator.Common.Text.Cut.{Lacks, strip_prefix_self}
use eth_node_operator.Snapshot.Download.{
  Host, Answer, Listing, missing, entries, Piped, ran, SnapshotInfo, client_slug, discover,
  restore_if_empty,
}
use eth_node_operator.Snapshot.Serve.{Files, serve}
use eth_node_operator.Snapshot.Segments.{path_of}
use eth_node_operator.Snapshot.Mirror.{IsServed, IsOffered, answer_of, discover-IsOffered}
use eth_node_operator.Snapshot.Restored.{IsRestored, restore_if_empty-IsRestored}

abbrev files : Files
files = record {
  read_dir = λ path. [];
  read_file = λ path.
      if path == "/srv/mainnet/geth/latest"
      then some "19000000\n"
      else if path == "/srv/mainnet/geth/19000000/snapshot.tar.zst"
      then some "zst"
      else none;
  stat_fails = λ path. false;
  size = λ path. 3;
}

abbrev base : String
base = "http://s:8080"

abbrev host : Host Bool
host = record {
  check_url = λ url. ok tt;
  get = λ url w. (
    elim (strip_prefix base url) [
      | none ↦ err "no such host"
      | some path ↦ ok (answer_of (serve files "/srv" "s:8080" path))
    ],
    w,
  );
  read_dir = λ dir w. (if w then entries ("geth" ∷ []) else missing, w);
  make_dir = λ dir w. (ok tt, w);
  has_tool = λ tool w. true;
  pipe = λ curl tar w. (ran none none, true);
  write_file = λ path contents w. w;
  now = λ w. "2024-01-01T00:00:00Z";
  supported_clients = "geth";
}

host-IsServed : IsServed files "/srv" "s:8080" base host
host-IsServed = record {
  is_url = λ segments plain. refl;
  gets =
      λ segment segments w plain. rw (strip_prefix_self base (path_of (segment ∷ segments))) refl;
}

known : client_slug "geth" "Geth" ≡ ok "geth"
unfolding client_slug eth_node_operator.Common.Text.to_lower
known = refl

offered : IsOffered files "/srv" "mainnet" "geth" "19000000\n" "zst"
unfolding eth_node_operator.Common.Text.trim_space Lacks
offered = record {
  is_network = refl;
  names_block = refl;
  is_path = refl;
  holds = refl;
  is_stable = refl;
}

discover-IsOffered_example :
    (info : SnapshotInfo) × (discover host base "mainnet" "Geth" false ≡ (ok info, false))
    × (info.block_number ≡ eth_node_operator.Common.Text.trim_space "19000000\n")
    × (host.get info.download_url false ≡ (ok (record { code = 200; body = ok "zst" }), false))
discover-IsOffered_example =
    discover-IsOffered files "/srv" "s:8080" base host "mainnet" "Geth" "geth" "19000000\n" "zst"
      false host-IsServed known offered

restored : restore_if_empty host base "mainnet" "Geth" "/data" false ≡ (ok true, true)
unfolding restore_if_empty eth_node_operator.Snapshot.Download.is_datadir_empty client_slug discover
    eth_node_operator.Snapshot.Download.latest_block eth_node_operator.Snapshot.Download.restore
    eth_node_operator.Common.Text.to_lower serve eth_node_operator.Common.Text.trim_space
    eth_node_operator.Common.Text.split_n
restored = refl

restore_if_empty-IsRestored_example : IsRestored host base "mainnet" "Geth" "/data" false true
restore_if_empty-IsRestored_example =
    restore_if_empty-IsRestored host base "mainnet" "Geth" "/data" false true restored
