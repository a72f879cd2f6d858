-- ===== src/Cli/Spared.antt =====
-- cli/commands/commands.go: the steps of `ethctl dns cleanup` that leave the record of an expected name alone.
use text.Mathlib.TextLemmas.{append_cancel_left, append_cancel_right}
use eth_node_operator.Common.{
  String, ◌≡◌, ◌≢◌, subst, ap, Bool, true, false, ◌||◌, List, [], ◌∷◌, All, if◌then◌else◌, ◌==◌,
  is_empty, Result, ok, err, wrap, >>=-eq-ok, ok-inj, exec,
}
use eth_node_operator.Common.Preserves.{
  Preserves, Preserves-bind, Preserves-if, Preserves-wrap, Preserves-answer, Ensures, Ensures-wrap,
  Preserves-bind_ensured,
}
use eth_node_operator.Types.{Cluster}
use eth_node_operator.Dns.Records.{
  Host, ZoneRecord, delete, delete_current, current_record, current_args, change_args, delete_batch,
}
use eth_node_operator.Dns.Zone.{
  AwsRecord, list_zone_records, audit, stale_of, is_expected, list_args,
}
use eth_node_operator.Cli.{Shell, say}
use eth_node_operator.Cli.Dns.{
  names_of_clusters, expected_hostnames, confirmed, delete_each, delete_confirmed, deletion_line,
  require_aws, dns_cleanup_cmd,
}
use eth_node_operator.Cli.Expected.{stale_of-All}

paired : {A W : Type 0} (x : Result A × W) {a : A} → x.0 ≡ ok a → x ≡ (ok a, x.1)
paired x e = cc

nth : List String → String
nth (a ∷ b ∷ c ∷ d ∷ e ∷ q ∷ rest) = q
nth others = ""

current_args-inj : (zone_id a b : String) → current_args zone_id a ≡ current_args zone_id b → a ≡ b
unfolding nth
current_args-inj zone_id a b e =
    append_cancel_right a b ".' && Type=='A'].ResourceRecords[0].Value"
      (append_cancel_left "ResourceRecordSets[?Name=='" _ _ (ap nth e))

-- How the terminal, the inventory and `aws` show in the commands of `aws` that were run, the newest first.
pub record IsLogged {W : Type 0} (shell : Shell W) (host : Host W) (ran : W → List (List String))
    : Type 0 where
  pub aws_logs : (args : List String) (w : W) → ran (host.aws args w).1 ≡ args ∷ ran w
  pub print_quiet : (s : String) (w : W) → ran (shell.print s w) ≡ ran w
  pub read_quiet : (w : W) → ran (shell.read_line w).1 ≡ ran w
  pub load_quiet : (w : W) → ran (shell.load_all w).1 ≡ ran w
  pub clusters_quiet : (w : W) → ran (shell.load_all_clusters w).1 ≡ ran w

module _ {W : Type 0} (shell : Shell W) (host : Host W)
    (parse_list : String → Result (List AwsRecord)) (configured : W → Bool)
    (ran : W → List (List String)) (logged : IsLogged shell host ran) (zone_id name : String) where
  -- The record of the name has not been looked up, as `delete` does first.
  abbrev pub Spared : W → Type 0
  Spared w = All (λ args. args ≢ current_args zone_id name) (ran w)

  aws-Spared :
      (args : List String) (w : W)
      → args ≢ current_args zone_id name
      → Spared w
      → Spared (host.aws args w).1
  aws-Spared args w n h = rw (logged.aws_logs args w) (n, h)

  exec-Spared :
      (args : List String)
      → args ≢ current_args zone_id name
      → Preserves Spared (exec host.aws args)
  exec-Spared args n = record { at = λ w h. aws-Spared args w n h }

  change_not : (batch : String) → change_args zone_id batch ≢ current_args zone_id name
  change_not batch e = cc

  list_not : list_args zone_id ≢ current_args zone_id name
  list_not e = cc

  current-Spared :
      (other : String) → other ≢ name → Preserves Spared (current_record host zone_id other)
  unfolding current_record
  current-Spared other n =
      Preserves-bind (exec host.aws (current_args zone_id other)) _
        (exec-Spared (current_args zone_id other) (λ e. n (current_args-inj zone_id other name e)))
        (λ out. Preserves-answer _)

  deleted-Spared :
      (other : String) (x : Result String × W)
      → Spared x.1
      → Spared (delete_current host other zone_id x).1
  unfolding delete_current
  deleted-Spared other (err e, w) h = h
  deleted-Spared other (ok ip, w) h =
      aws-Spared (change_args zone_id (delete_batch other ip)) w
        (change_not (delete_batch other ip)) h

  delete-Spared : (other : String) → other ≢ name → Preserves Spared (delete host other zone_id)
  unfolding delete
  delete-Spared other n = record {
    at = λ w h.
        deleted-Spared other (current_record host zone_id other w)
          ((current-Spared other n).at w h);
  }

  print-Spared : (s : String) (w : W) → Spared w → Spared (shell.print s w)
  print-Spared s w h = rw (logged.print_quiet s w) h

  say-Spared : (s : String) → Preserves Spared (say shell s)
  say-Spared s = record { at = print-Spared s }

  ne_of_unexpected :
      (expected : List String) (other : String)
      → is_expected expected name ≡ true
      → is_expected expected other ≡ false
      → other ≢ name
  ne_of_unexpected expected other h k e = cc (h, k, ap (is_expected expected) e)

  delete_each-Spared :
      (expected : List String) (rs : List ZoneRecord) (w : W)
      → is_expected expected name ≡ true
      → All (λ r. is_expected expected r.hostname ≡ false) rs
      → Spared w
      → Spared (delete_each shell host parse_list configured zone_id rs w).1
  unfolding delete_each
  delete_each-Spared expected [] w known stale h = h
  delete_each-Spared expected (r ∷ rs) w known (s, stale) h =
      let (d, w1) = delete host r.hostname zone_id w in
      delete_each-Spared expected rs _ known stale (
        print-Spared (deletion_line shell host parse_list configured r.hostname d) w1
          ((delete-Spared r.hostname (ne_of_unexpected expected r.hostname known s)).at w h))

  answered :
      (b : Bool) (w : W)
      → Spared w
      → Spared
          (if b
            then (let r : Result Bool × W = (ok true, w) in r)
            else (ok false, shell.print "Aborted.\n" w)).1
  answered true w h = h
  answered false w h = print-Spared "Aborted.\n" w h

  confirmed-Spared :
      (is_sure : Bool) (question : String)
      → Preserves Spared (confirmed shell host parse_list configured is_sure question)
  unfolding confirmed
  confirmed-Spared true question = record { at = λ w h. h }
  confirmed-Spared false question = record {
    at = λ w h.
        answered
          ((shell.read_line (shell.print question w)).0 == "y"
            || (shell.read_line (shell.print question w)).0 == "Y")
          (shell.read_line (shell.print question w)).1
          (rw (logged.read_quiet (shell.print question w)) (print-Spared question w h));
  }

  confirmed_delete-Spared :
      (expected : List String) (rs : List ZoneRecord) (go : Bool)
      → is_expected expected name ≡ true
      → All (λ r. is_expected expected r.hostname ≡ false) rs
      → Preserves Spared (delete_confirmed shell host parse_list configured zone_id rs go)
  confirmed_delete-Spared expected rs true known stale = record {
    at = λ w h. delete_each-Spared expected rs w known stale h;
  }
  confirmed_delete-Spared expected rs false known stale = record { at = λ w h. h }

  audited :
      (zone : String) (expected : List String) (w : W) (stale : List ZoneRecord)
      → (audit host.aws parse_list zone_id zone expected w).0 ≡ ok stale
      → All (λ r. is_expected expected r.hostname ≡ false) stale
  unfolding audit
  audited zone expected w stale e =
      let (records, got, same) =
        >>=-eq-ok (list_zone_records host.aws parse_list zone_id zone)
          (λ records w. (ok (stale_of expected records), w)) w (paired _ e) in
      subst (All (λ r. is_expected expected r.hostname ≡ false)) (ok-inj (ap (λ x. x.0) same))
        (stale_of-All expected records)

  audit-Spared :
      (zone : String) (expected : List String)
      → Ensures Spared
          (All (λ r. is_expected expected r.hostname ≡ false))
          (audit host.aws parse_list zone_id zone expected)
  unfolding audit list_zone_records
  audit-Spared zone expected = record {
    keeps =
        Preserves-bind (list_zone_records host.aws parse_list zone_id zone) _
          (Preserves-bind (wrap _ (exec host.aws (list_args zone_id))) _
            (Preserves-wrap _ _ (exec-Spared (list_args zone_id) list_not))
            (λ out.
              Preserves-bind (wrap _ (λ w. (parse_list out, w))) _
                (Preserves-wrap _ _ (Preserves-answer _)) (λ sets. Preserves-answer _)))
          (λ records. Preserves-answer _);
    gives = λ w stale e. audited zone expected w stale e;
  }

  required :
      (b : Bool) (message : String) (w : W)
      → Spared w
      → Spared (if b then (let r : Result (Unit {0}) × W = (ok tt, w) in r) else (err message, w)).1
  required true message w h = h
  required false message w h = h

  require-Spared :
      (message : String) → Preserves Spared (require_aws shell host parse_list configured message)
  require-Spared message = record { at = λ w h. required (configured w) message w h }

  expected-Spared :
      (zone : String) (clusters : List Cluster)
      → ((w : W) → (shell.load_all_clusters w).0 ≡ ok clusters)
      → is_expected (names_of_clusters zone clusters) name ≡ true
      → Ensures Spared
          (λ expected. is_expected expected name ≡ true)
          (expected_hostnames shell zone)
  unfolding expected_hostnames
  expected-Spared zone clusters reads known = record {
    keeps = record { at = λ w h. rw (reads w) (rw (logged.clusters_quiet w) h) };
    gives = λ w expected e.
        subst (λ (l : List String). is_expected l name ≡ true) (ok-inj (rw (reads w) at e)) known;
  }

  pub cleanup-Spared :
      (is_sure : Bool) (zone : String) (clusters : List Cluster)
      → ((w : W) → (shell.load_all_clusters w).0 ≡ ok clusters)
      → is_expected (names_of_clusters zone clusters) name ≡ true
      → Preserves Spared (dns_cleanup_cmd shell host parse_list configured is_sure zone_id zone)
  unfolding dns_cleanup_cmd
  cleanup-Spared is_sure zone clusters reads known =
      Preserves-bind (require_aws shell host parse_list configured "aws CLI not configured") _
        (require-Spared _)
        (λ _.
          Preserves-bind_ensured (λ expected. is_expected expected name ≡ true)
            (wrap _ (expected_hostnames shell zone)) _
            (Ensures-wrap Spared (λ expected. is_expected expected name ≡ true) _ _
              (expected-Spared zone clusters reads known))
            (λ expected k.
              Preserves-bind_ensured (All (λ r. is_expected expected r.hostname ≡ false))
                (audit host.aws parse_list zone_id zone expected) _ (audit-Spared zone expected)
                (λ stale all_stale. Preserves-if (is_empty stale) _ _ (say-Spared _) (
                  Preserves-bind (say shell _) _ (say-Spared _) (λ _.
                    Preserves-bind
                      (confirmed shell host parse_list configured is_sure "\nProceed? [y/N] ") _
                      (confirmed-Spared is_sure _)
                      (λ go. confirmed_delete-Spared expected stale go k all_stale))))))
