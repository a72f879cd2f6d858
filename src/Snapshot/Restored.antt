-- ===== src/Snapshot/Restored.antt =====
-- internal/snapshot/downloader.go: what a restore that is reported has done, and what a failed one leaves.
use eth_node_operator.Common.{
  String, ◌<>◌, ◌≡◌, if◌then◌else◌, refl, sym, ap, ◌∙◌, Bool, true, false, none, some, [], ◌∷◌,
  Result, ok, err, pure, wrap, continue, ◌>>◌, >>=-eq-ok, map_err-ok,
}
use eth_node_operator.Snapshot.Download.{
  Host, Piped, ran, no_pipe, no_curl, no_tar, SnapshotInfo, client_slug, empty_listing, curl_args,
  tar_args, marker_text, piped_result, has_entries, discover, is_datadir_empty, restore,
  restore_client, into_empty, restore_if_empty, require_tools, fetch_checksum, extract,
  require_entries, mark,
}

module _ {W : Type 0} (h : Host W) where
  -- The archive was extracted without an error, from the state `from`, into a directory that has entries then; the mark is the
  -- last write.
  pub record IsExtracted (info : SnapshotInfo) (dest : String) (w' : W) : Type 0 where
    pub from : W
    pub after : W
    pub piped : h.pipe (curl_args info.download_url) (tar_args dest) from ≡ (ran none none, after)
    pub filled : has_entries (h.read_dir dest after).0 ≡ true
    pub marked :
        w'
        ≡ h.write_file
            (dest <> "/.snapshot-restored")
            (marker_text info (h.now (h.read_dir dest after).1))
            (h.read_dir dest after).1

  piped-ok :
      (info : SnapshotInfo) (p : Piped) {u : Unit {0}}
      → piped_result info p ≡ ok u
      → p ≡ ran none none
  piped-ok info (no_pipe e) k = cc
  piped-ok info (no_curl e) k = cc
  piped-ok info (no_tar e) k = cc
  piped-ok info (ran (some e) tar) k = cc
  piped-ok info (ran none (some e)) k = cc
  piped-ok info (ran none none) k = refl

  filled-ok :
      (b : Bool) (e : String) {u : Unit {0}} → (if b then ok tt else err e) ≡ ok u → b ≡ true
  filled-ok true e k = refl
  filled-ok false e k = cc

  extracted :
      (info : SnapshotInfo) (dest : String) (w w' : W)
      → (extract h info dest >> (require_entries h dest >> mark h info dest)) w ≡ (ok tt, w')
      → IsExtracted info dest w'
  extracted info dest w w' e =
      let (_, p, e1) = >>=-eq-ok (extract h info dest) _ w e in
      let (_, f, e2) = >>=-eq-ok (require_entries h dest) _ _ e1 in
      record {
        from = w;
        after = (h.pipe (curl_args info.download_url) (tar_args dest) w).1;
        piped =
            ap (λ r. (r, (h.pipe (curl_args info.download_url) (tar_args dest) w).1))
              (piped-ok info (h.pipe (curl_args info.download_url) (tar_args dest) w).0 p);
        filled = filled-ok _ _ f;
        marked = sym (ap (λ x. x.1) e2);
      }

  restore-IsExtracted :
      (info : SnapshotInfo) (dest : String) (w w' : W)
      → restore h info dest w ≡ (ok tt, w')
      → IsExtracted info dest w'
  unfolding restore
  restore-IsExtracted info dest w w' e =
      let (_, _, e1) = >>=-eq-ok (wrap _ (h.make_dir dest)) _ w e in
      let (_, _, e2) = >>=-eq-ok (require_tools h ("curl" ∷ "tar" ∷ "zstd" ∷ [])) _ _ e1 in
      let (_, _, e3) = >>=-eq-ok (fetch_checksum h (info.download_url <> ".sha256")) _ _ e2 in
      extracted info dest _ w' e3

  -- The directory was empty or missing, the client is known, and the snapshot that was found for it was extracted.
  pub record IsRestored (base network client dest : String) (w w' : W) : Type 0 where
    pub was_empty : empty_listing dest (h.read_dir dest w).0 ≡ ok true
    pub slug : String
    pub known : client_slug h.supported_clients client ≡ ok slug
    pub info : SnapshotInfo
    pub found : (discover h base network slug (h.read_dir dest w).1).0 ≡ ok info
    pub extracted : IsExtracted info dest w'

  ran_through :
      (x : Result (Unit {0}) × W) {w' : W}
      → (continue x.0 (λ _. pure true) x.1) ≡ (ok true, w')
      → x ≡ (ok tt, w')
  ran_through (ok u, w) k = cc
  ran_through (err e, w) k = cc

  client_cases :
      (base network client dest : String) (r : Result String) (w1 w' : W)
      → restore_client h base network client dest r w1 ≡ (ok true, w')
      → (slug : String) × (r ≡ ok slug)
        × (info : SnapshotInfo) × ((discover h base network slug w1).0 ≡ ok info)
        × IsExtracted info dest w'
  client_cases base network client dest (err e) w1 w' k = cc
  client_cases base network client dest (ok slug) w1 w' k =
      let (info, d, k1) = >>=-eq-ok (wrap _ (discover h base network slug)) _ w1 k in
      (slug, refl, info, map_err-ok _ _ d, restore-IsExtracted info dest _ w' (ran_through _ k1))

  empty_cases :
      (b : Bool) (base network client dest : String) (w1 w' : W)
      → into_empty h base network client dest b w1 ≡ (ok true, w')
      → (b ≡ true)
        × (restore_client h base network client dest (client_slug h.supported_clients client) w1
            ≡ (ok true, w'))
  empty_cases true base network client dest w1 w' k = (refl, k)
  empty_cases false base network client dest w1 w' k = cc

  -- If `RestoreIfEmpty` reports that it restored a snapshot, then the directory was empty or missing, the client is known, the snapshot
  -- is the one that was found for it, `curl` and `tar` took it from its address to the directory without an error, the directory
  -- had entries then, and the marker with the snapshot's data is the last that was written.
  pub restore_if_empty-IsRestored :
      (base network client dest : String) (w w' : W)
      → restore_if_empty h base network client dest w ≡ (ok true, w')
      → IsRestored base network client dest w w'
  unfolding restore_if_empty is_datadir_empty
  restore_if_empty-IsRestored base network client dest w w' k =
      let (b, e, k1) = >>=-eq-ok (is_datadir_empty h dest) _ w k in
      let (is_true, k2) = empty_cases b base network client dest _ w' k1 in
      let (slug, known, info, found, x) =
        client_cases base network client dest (client_slug h.supported_clients client) _ w' k2 in
      record {
        was_empty = e ∙ ap ok is_true;
        slug = slug;
        known = known;
        info = info;
        found = found;
        extracted = x;
      }
