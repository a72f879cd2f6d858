-- ===== src/Cli/Serial.antt =====
-- cli/commands/commands.go: the calls that `ethctl upgrade` makes to the agents of all its nodes.
use eth_node_operator.Common.{
  ℕ, ◌+◌, String, ◌<>◌, ◌≡◌, refl, Bool, true, false, Option, none, some, List, [], ◌∷◌, length,
  Result, ok, err, Action, arith, Bool-cases, eq_refl, if◌then◌else◌, ◌==◌, inl, inr, ltb, continue,
  ◌>>=◌, ◌>>◌, map_err,
}
use eth_node_operator.Common.Dict.{Dict, lookup}
use eth_node_operator.Types.{EthereumNode, ReconcileResult}
use eth_node_operator.Upgrade.{NodeClient}
use eth_node_operator.Upgrade.Calls.{
  Call, asked_status, uncordoned, reconciled, diffed, cordoned, succeeded,
}
use eth_node_operator.Cli.Upgrade.{
  Flags, Rollout, preflight, after_reconcile, release, upgrade_cordoned, cordon_and_upgrade,
  upgrade_one, rest_before_next, upgrade_named, upgrade_each, upgrade_nodes, node_map, targets,
}

-- A call, with the name of the node whose agent it went to.
abbrev pub NamedCall : Type 0
NamedCall = String × Call

abbrev pub freed : String → Option String → Option String
freed name none = none
freed name (some other) = if other == name then none else some other

-- The node that is held after the calls, the newest first: the last that was cordoned, until it is asked to uncordon.
abbrev pub holder : List NamedCall → Option String
holder [] = none
holder ((name, cordoned true) ∷ calls) = some name
holder ((name, cordoned false) ∷ calls) = holder calls
holder ((name, uncordoned b) ∷ calls) = freed name (holder calls)
holder ((name, asked_status) ∷ calls) = holder calls
holder ((name, reconciled) ∷ calls) = holder calls
holder ((name, diffed) ∷ calls) = holder calls

-- A node was asked to reconcile only while it was held, and asked to cordon only while none was.
abbrev pub IsSerial : List NamedCall → Type 0
IsSerial [] = Unit
IsSerial ((name, cordoned b) ∷ calls) = (holder calls ≡ none) × IsSerial calls
IsSerial ((name, reconciled) ∷ calls) = (holder calls ≡ some name) × IsSerial calls
IsSerial ((name, uncordoned b) ∷ calls) = IsSerial calls
IsSerial ((name, asked_status) ∷ calls) = IsSerial calls
IsSerial ((name, diffed) ∷ calls) = IsSerial calls

abbrev pub log_named :
    {W A : Type 0} → String → (Result A → Call) → Action W A → Action (W × List NamedCall) A
log_named name call act (w, calls) = let (r, w') = act w in (r, (w', (name, call r) ∷ calls))

-- The client of a node, over a world that also keeps the calls.
abbrev pub watched_at : {W : Type 0} → String → NodeClient W → NodeClient (W × List NamedCall)
watched_at name client = record {
  get_status = log_named name (λ _. asked_status) client.get_status;
  cordon = λ reason. log_named name (λ r. cordoned (succeeded r)) (client.cordon reason);
  uncordon = log_named name (λ r. uncordoned (succeeded r)) client.uncordon;
  trigger_reconcile = log_named name (λ _. reconciled) client.trigger_reconcile;
  get_diff = log_named name (λ _. diffed) client.get_diff;
}

-- The same rollout, over a world that also keeps the calls to all agents.
abbrev pub watched_rollout : {W : Type 0} → Rollout W → Rollout (W × List NamedCall)
watched_rollout rollout = record {
  reach = λ node. watched_at node.name (rollout.reach node);
  print = λ s (w, calls). (rollout.print s w, calls);
  pause = λ (w, calls). (rollout.pause w, calls);
}

-- No node is held, and the calls so far were in order.
pub record IsClear (calls : List NamedCall) : Type 0 where
  pub free : holder calls ≡ none
  pub serial : IsSerial calls

freed_self : (name : String) → freed name (some name) ≡ none
freed_self name = rw (eq_refl name) refl

module _ {W : Type 0} (rollout : Rollout W) where
  preflight-IsClear :
      (skip : Bool) (name n : String) (client : NodeClient W) (w : W) (calls : List NamedCall)
      → IsClear calls
      → IsClear (preflight (watched_rollout rollout) skip name (watched_at n client) (w, calls)).1.1
  unfolding preflight
  preflight-IsClear skip name n client w calls c = ground arith

  continued :
      {A B : Type 0} (x : Result A × (W × List NamedCall)) (f : A → Action (W × List NamedCall) B)
      → ((a : A) (w : W) (calls : List NamedCall) → IsClear calls → IsClear (f a (w, calls)).1.1)
      → IsClear x.1.1
      → IsClear (continue x.0 f x.1).1.1
  continued (ok a, (w, calls)) f k c = k a w calls c
  continued (err e, (w, calls)) f k c = c

  abbrev Keeps : {A : Type 0} → Action (W × List NamedCall) A → Type 0
  Keeps m = (w : W) (calls : List NamedCall) → IsClear calls → IsClear (m (w, calls)).1.1

  >>=-Keeps :
      {A B : Type 0} (m : Action (W × List NamedCall) A) (f : A → Action (W × List NamedCall) B)
      → Keeps m
      → ((a : A) → Keeps (f a))
      → Keeps (m >>= f)
  >>=-Keeps m f km kf w calls c = continued (m (w, calls)) f kf (km w calls c)

  -- The calls that a cordoned node's upgrade leaves.
  reconciled-IsClear :
      (name n : String) (client : NodeClient W) (r : Result ReconcileResult) (w : W)
      (calls : List NamedCall)
      → IsClear calls
      → IsClear
          ((after_reconcile (watched_rollout rollout) name (watched_at n client) r
              >> release (watched_rollout rollout) name (watched_at n client))
            (w, (n, reconciled) ∷ (n, cordoned true) ∷ calls)).1.1
  reconciled-IsClear name n client (err e) w calls c = record {
    free = freed_self n;
    serial = (refl, (c.free, c.serial));
  }
  reconciled-IsClear name n client (ok result) w calls c = record {
    free = freed_self n;
    serial = (refl, (c.free, c.serial));
  }

  cordon_cases :
      (name n : String) (client : NodeClient W) (x : Result (Unit {0}) × W) (calls : List NamedCall)
      → IsClear calls
      → IsClear
          (continue
            (map_err (λ e. "cordon " <> name <> ": " <> e) x.0)
            (λ _. upgrade_cordoned (watched_rollout rollout) name (watched_at n client))
            (x.1, (n, cordoned (succeeded x.0)) ∷ calls)).1.1
  cordon_cases name n client (ok u, w) calls c =
      let (r, w') = client.trigger_reconcile (rollout.print "  ✓ cordoned\n" w) in
      reconciled-IsClear name n client r w' calls c
  cordon_cases name n client (err e, w) calls c = record {
    free = c.free;
    serial = (c.free, c.serial);
  }

  cordon_and_upgrade-Keeps :
      (name n : String) (client : NodeClient W)
      → Keeps (cordon_and_upgrade (watched_rollout rollout) name (watched_at n client))
  unfolding cordon_and_upgrade
  cordon_and_upgrade-Keeps name n client w calls c =
      cordon_cases name n client (client.cordon "rolling upgrade" w) calls c

  upgrade_one-Keeps :
      (skip : Bool) (name n : String) (client : NodeClient W)
      → Keeps (upgrade_one (watched_rollout rollout) skip name (watched_at n client))
  unfolding upgrade_one
  upgrade_one-Keeps skip name n client =
      >>=-Keeps (preflight (watched_rollout rollout) skip name (watched_at n client))
        (λ _. cordon_and_upgrade (watched_rollout rollout) name (watched_at n client))
        (preflight-IsClear skip name n client) (λ _. cordon_and_upgrade-Keeps name n client)

  rest-Keeps : (i total : ℕ) → Keeps (rest_before_next (watched_rollout rollout) i total)
  rest-Keeps i total w calls c = elim (Bool-cases (ltb (i + 1) total)) [
    | inl more ↦ rw more c
    | inr last ↦ rw last c
  ]

  upgrade_named-Keeps :
      (skip : Bool) (i total : ℕ) (name : String) (o : Option EthereumNode)
      → Keeps (upgrade_named (watched_rollout rollout) skip i total name o)
  upgrade_named-Keeps skip i total name none w calls c = c
  upgrade_named-Keeps skip i total name (some node) w calls c =
      >>=-Keeps
        (upgrade_one (watched_rollout rollout) skip name
          (watched_at node.name (rollout.reach node)))
        (λ _. rest_before_next (watched_rollout rollout) i total)
        (upgrade_one-Keeps skip name node.name (rollout.reach node)) (λ _. rest-Keeps i total) _
        calls c

  upgrade_each-Keeps :
      (skip : Bool) (nodes : Dict EthereumNode) (i total : ℕ) (names : List String)
      → Keeps (upgrade_each (watched_rollout rollout) skip nodes i total names)
  unfolding upgrade_each
  upgrade_each-Keeps skip nodes i total [] w calls c = c
  upgrade_each-Keeps skip nodes i total (name ∷ names) w calls c =
      >>=-Keeps (upgrade_named (watched_rollout rollout) skip i total name (lookup name nodes))
        (λ _. upgrade_each (watched_rollout rollout) skip nodes (i + 1) total names)
        (upgrade_named-Keeps skip i total name (lookup name nodes))
        (λ _. upgrade_each-Keeps skip nodes (i + 1) total names) w calls c

  -- Whatever agents answer, when `ethctl upgrade` ends, with or without an error, no node is held, and the calls that it made are
  -- such that a node was asked to reconcile only while it was held, and asked to cordon only while no node was. A node is held
  -- from a successful call of cordon to the next call of uncordon to it, successful or not.
  pub upgrade_nodes-IsClear :
      (flags : Flags) (args : List String) (nodes : List EthereumNode) (w : W)
      → IsClear (upgrade_nodes (watched_rollout rollout) flags args nodes (w, [])).1.1
  unfolding upgrade_nodes
  upgrade_nodes-IsClear flags args nodes w =
      >>=-Keeps
        (upgrade_each (watched_rollout rollout) flags.skip_preflight (node_map nodes) 0
          (length (targets args nodes)) (targets args nodes))
        _
        (upgrade_each-Keeps flags.skip_preflight (node_map nodes) 0 (length (targets args nodes))
          (targets args nodes))
        (λ _ w calls c. c) _ [] (record { free = refl; serial = tt })
