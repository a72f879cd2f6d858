-- ===== src/Obs.antt =====
-- internal/obs/manager.go: the stack of containers for observability. Commands run through the runner with the directory they run in
-- and their name first; the file system is the other fields of `Host`. The runner trims what it gives.
mod Plan
mod Tests
use eth_node_operator.Common.{
  String, ◌<>◌, Bool, true, false, not, ◌||◌, Option, none, some, List, [], ◌∷◌, ◌++◌,
  if◌then◌else◌, ◌==◌, Result, ok, err, Action, pure, wrap, continue, ◌>>=◌, ◌>>◌, Output, Runner,
  exec,
}
use eth_node_operator.Common.Dict.{Dict, insert}
use eth_node_operator.Common.Text.{to_lower, contains, trim_space, split, split_n}

pub record Host (W : Type 0) : Type 0 where
  pub run : Runner W
  -- Whether `os.Stat` says that a path does not exist.
  pub is_missing : String → W → Bool
  pub make_dir : String → Action W (Unit {0})
  pub create_file : String → Action W (Unit {0})

pub record Manager : Type 0 where
  pub stack_dir : String
  pub env_file : String

unfoldable pub new : String → String → Manager
new stack_dir env_file =
    let dir = if stack_dir == "" then "/opt/eth-observability" else stack_dir in
    record { stack_dir = dir; env_file = if env_file == "" then dir <> "/.env" else env_file }

abbrev pub compose : List String → List String
compose args = "docker" ∷ "compose" ∷ "-f" ∷ "docker-compose.observability.yml" ∷ args

abbrev pub pull_note : Output → List String
pull_note (out, some e) = ("obs: image pull warning: " <> out) ∷ []
pull_note (out, none) = if trim_space out == "" then [] else "obs: pulled updated images" ∷ []

abbrev pub says_changed : String → Bool
says_changed out = contains out "Started" || contains out "Recreated" || contains out "Created"

abbrev pub up_report : List String → Output → List String × Option String
up_report actions (out, some e) = (actions, some ("obs stack up: " <> out <> ": " <> e))
up_report actions (out, none) = (
  if says_changed out
      then actions ++ ("obs: stack reconciled: " <> trim_space out) ∷ []
      else actions,
  none,
)

-- A line with a tab gives the status of a container, which a later line with the same name replaces.
abbrev pub add_parts : List String → Dict String → Dict String
add_parts (name ∷ status ∷ []) m = insert name status m
add_parts [] m = m
add_parts (name ∷ []) m = m
add_parts (a ∷ b ∷ c ∷ rest) m = m

abbrev pub add_line : String → Dict String → Dict String
add_line line m = if line == "" then m else add_parts (split_n line b'\t' 2) m

unfoldable pub add_lines : List String → Dict String → Dict String
add_lines [] m = m
add_lines (line ∷ lines) m = add_lines lines (add_line (trim_space line) m)

abbrev pub is_up : String → Bool
is_up s = contains (to_lower s) "up" || contains (to_lower s) "running"

-- The loop over the map, whose order does not matter.
abbrev pub any_up : Dict String → Bool
any_up [] = false
any_up ((name, s) ∷ m) = if is_up s then true else any_up m

module _ {W : Type 0} (h : Host W) (m : Manager) where
  -- `m.runner.Run` in the directory of the stack.
  abbrev pub in_stack : List String → W → Output × W
  in_stack args = h.run (m.stack_dir ∷ compose args)

  abbrev pub bring_up : W → (List String × Option String) × W
  bring_up w =
      let (pulled, w1) = in_stack ("pull" ∷ "--quiet" ∷ []) w in
      let (up, w2) = in_stack ("up" ∷ "-d" ∷ "--remove-orphans" ∷ "--quiet-pull" ∷ []) w1 in
      (up_report (pull_note pulled) up, w2)

  unfoldable pub reconcile : W → (List String × Option String) × W
  reconcile w =
      if h.is_missing m.stack_dir w
      then (
        (
          [],
          some (
              "observability stack dir " <> m.stack_dir
              <> " does not exist — run ethctl obs install first"),
        ),
        w,
      )
      else if h.is_missing m.env_file w
      then (
        (
          [],
          some (
              "observability .env not found at " <> m.env_file
              <> " — copy .env.example and fill in credentials"),
        ),
        w,
      )
      else bring_up w

  unfoldable pub status : Action W (Dict String)
  unfolding add_lines
  status = do
    out ←
        wrap (λ e. "obs status: " <> e)
          (exec h.run (m.stack_dir ∷ compose ("ps" ∷ "--format" ∷ "{{.Name}}\t{{.Status}}" ∷ [])))
    λ w. (ok (add_lines (split out b'\n') []), w)

  unfoldable pub is_running : Action W Bool
  unfolding status
  is_running = do containers ← status; pure (any_up containers)

  abbrev pub acme_dir : String
  acme_dir = m.stack_dir <> "/traefik/acme"

  abbrev pub create_if_missing : String → Action W (Unit {0})
  create_if_missing path w = if h.is_missing path w then h.create_file path w else (ok tt, w)

  unfoldable pub install : String → Action W (Unit {0})
  install source_dir = do
    wrap (λ e. "create stack dir: " <> e) (h.make_dir m.stack_dir)
    wrap (λ e. "copy stack files: " <> e)
        (exec h.run ("" ∷ "cp" ∷ "-r" ∷ (source_dir <> "/.") ∷ (m.stack_dir <> "/") ∷ []))
    wrap (λ e. "create acme dir: " <> e) (h.make_dir acme_dir)
    wrap (λ e. "create acme.json: " <> e) (create_if_missing (acme_dir <> "/acme.json"))
