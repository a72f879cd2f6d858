-- ===== src/Lib.antt =====
-- The operator of Ethereum nodes: an agent on each host, which moves the host towards a desired
-- state, and the tools that make that state and roll out upgrades.
--
-- The parts, and how they work together. An inventory (pkg/inventory) and profiles (pkg/profile) make the
-- desired state of a node, a `NodeSpec` of pkg/types. The agent (internal/agent) reads it and
-- runs a pass of the reconciler (internal/reconciler) in a loop and on request; the reconciler calls the
-- clients of Docker (pkg/dockerclient), of the firewall (internal/ufw), of DNS (internal/dns), and the managers
-- of disks, snapshots and observability. An orchestrator (internal/upgrade) upgrades the nodes of a group over the HTTP
-- interface of their agents, and so do the commands of `ethctl` (cli/commands), by the same client (cli/agentclient); other commands
-- audit the DNS records of a zone. A node finds out about itself (internal/discover), and asks its clients for
-- their state (pkg/ethclient). Snapshots (internal/snapshot) are served by a server of the operator or by a public one.
--
-- The files:
-- - Common and its children: Go's texts, integers, maps, slices and results. `Effects` has the calls on the
--   world outside the program, as functions from a world to a result and the world that follows; `Plan` has the
--   sequences of commands that they follow, and `Keeps` the views of the world that they do not change.
-- - Types: pkg/types/types.go. A Go `int` is a ℤ, a map is a list of pairs read by key, a nil slice is
--   the empty list.
-- - Ufw: internal/ufw/manager.go, all operations over a runner of `ufw` commands.
-- - Docker: pkg/dockerclient/client.go, the operations on containers over a runner of `docker` commands.
-- - Dns: internal/dns/route53.go, `Hostname`; `Records` has `Register` and `Delete`, `Zone` has `ListZoneRecords` and `Audit`.
-- - Reconciler: internal/reconciler/reconciler.go; the pass (`Pass`), `Diff` (`Diff`) and `PreflightChecks`
--   (`Preflight`), over a record of the managers.
-- - Upgrade: internal/upgrade/orchestrator.go, `upgradeNode` and `waitForSync`; `Upgrade.Rolling` is
--   `RollingUpgrade`, as a step relation over schedules of the main goroutine and the goroutines of the upgrades.
-- - Profiles: pkg/profile/merger.go; `Indexed` is the loop of `mergePackages` and `mergeFirewallRules`, `Spec` is
--   `mergeSpecs` and `Merge`.
-- - Inventory: pkg/inventory/loader.go and cluster.go; `Files` has the loops over directories, the profile
--   loader's too. The room that the decoder of YAML leaves behind the profiles of a cluster is a parameter, since
--   `append` may write there.
-- - Maintenance: internal/maintenance/window.go. A time has the clock of its location, as a function of the minutes in UTC.
-- - Disk: internal/disk/manager.go; `Pass` is `Reconcile`, and what it calls is in `Disk` itself.
-- - Snapshot: internal/snapshot/maker.go, `PruneOld`; `Sorting` is about its sort. `Download` is downloader.go and `Serve` is
--   server.go, and `Mirror` is about the downloader on top of the server; `Segments` has the
--   paths that net/http passes on as they are. Paths are joined to directories that are written in the shortest form.
-- - Obs: internal/obs/manager.go, over a runner of commands.
-- - EthClient: pkg/ethclient/client.go; `Sscan` has the formats of `fmt.Sscanf` that it uses.
-- - Jwt: internal/jwt/manager.go, all operations; `Hex` is what it uses of encoding/hex.
-- - Agent: internal/agent/server.go and auth.go; `Status` is the report of a node's status, `Routes` the routes of `Start` and
--   the handlers that only read, and `Key` is `loadOrCreateAPIKey`.
-- - Discover: internal/discover/discover.go; `Snippet` is `YAMLSnippet`.
-- - AgentClient: cli/agentclient/client.go, over a transport of requests. `Loopback` is about a transport that ends in the
--   handlers of an agent, `Lost` about one that may fail, and `Holding` about the orchestrator on top of that.
-- - Cli: cli/commands/commands.go, the commands on one node; `Nodes` lists the nodes, `Upgrade` is the rolling upgrade, `Dns` has
--   the commands on DNS records, and `Discover` makes the snippet from an agent's answer.
--
-- The world is a parameter of the models: what commands print, what agents answer and what files hold are
-- functions of it, and a hypothesis that one of the theorems has about it is a record of named laws. An error is its message; `%q` is
-- written as the text between quotes, which is what it prints for texts without quotes and control characters. Logs are
-- left out, but for a round of the agent's loop, and so are durations and time stamps.
--
-- Fuel and bounds: the wait for a node to be in sync takes fuel for its ticks, and 42 are enough for its ten minutes.
-- `NextOpen` searches 10080 minutes, as the code does. The sort of `PruneOld` runs as many rounds as there are directories,
-- which `Sorting` shows to be enough. All other loops are on the structure of a list or a text.
--
-- Not modelled: the making of a snapshot's archive, the streamed logs and the compose update of Docker, the measured sizes of disks, the ticker of the agent's loop, the collector of the host's figures, the command
-- `nodes describe`, which prints such figures, the flags and the main functions. Of these the modelled parts take what they
-- call as parameters. YAML and JSON decoders are parameters too. Vendored packages, tests,
-- deployment files and inventory data are left out.
pub mod Common
pub mod Types
pub mod Ufw
pub mod Docker
pub mod Dns
pub mod Reconciler
pub mod Upgrade
pub mod Profiles
pub mod Maintenance
pub mod Inventory
pub mod Agent
pub mod Disk
pub mod Snapshot
pub mod Jwt
pub mod Discover
pub mod Obs
pub mod EthClient
pub mod AgentClient
pub mod Cli
