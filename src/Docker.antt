-- ===== src/Docker.antt =====
-- pkg/dockerclient/client.go: the client of the local Docker daemon, over the `Commander` that runs
-- `docker` with the given arguments. The start time of a container is only passed on, and left out.
use eth_node_operator.Common.{
  String, ◌<>◌, Bool, false, List, [], ◌∷◌, if◌then◌else◌, ◌==◌, Result, ok, err, Action, pure,
  wrap, ◌>>=◌, ◌>>◌, Runner, exec,
}
use eth_node_operator.Common.Text.{to_lower, split, split_n}
use eth_node_operator.Common.Dict.{Dict, insert}
use eth_node_operator.Types.{NodeSpec}

pub record ContainerInfo : Type 0 where
  pub name : String
  pub running : Bool
  pub image : String
  pub version : String

-- The tag of an image such as ethereum/client-go:v1.14.8, given its parts round the first colon.
version_of : List String → String
version_of (repository ∷ tag ∷ []) = tag
version_of _ = "unknown"

unfoldable pub extract_version : String → String
unfolding version_of split_n
extract_version image = version_of (split_n image b':' 2)

-- What `docker inspect` printed, cut at the first two bars.
unfoldable pub parse_info : String → String → List String → Result ContainerInfo
parse_info name out (running ∷ image ∷ started ∷ []) = ok (record {
  name = name;
  running = running == "true";
  image = image;
  version = extract_version image;
})
parse_info name out _ = err ("unexpected inspect output: \"" <> out <> "\"")

abbrev pub inspect_args : String → List String
inspect_args name =
    "inspect" ∷ name ∷ "--format" ∷ "{{.State.Running}}|{{.Config.Image}}|{{.State.StartedAt}}" ∷ []

unfoldable pub container_name : String → String
container_name client =
    let c = to_lower client in
    if c == "geth"
    then "execution"
    else if c == "nethermind"
    then "execution"
    else if c == "besu"
    then "execution"
    else if c == "lighthouse"
    then "consensus"
    else if c == "teku"
    then "consensus"
    else if c == "prysm"
    then "consensus"
    else client

unfoldable pub container_names : NodeSpec → Dict String
unfolding container_name
container_names spec =
    ("el", container_name spec.execution.client)
    ∷ ("cl", container_name spec.consensus.client)
    ∷ ("mev", "mev-boost")
    ∷ []

module _ {W : Type 0} (run : Runner W) where
  unfoldable pub inspect : String → Action W ContainerInfo
  unfolding parse_info
  inspect name = do
    out ← wrap (λ e. "inspect " <> name <> ": " <> e) (exec run (inspect_args name))
    λ w. (parse_info name out (split_n out b'|' 3), w)

  unfoldable pub pull : String → Action W Unit
  pull image = do
    wrap (λ e. "pull " <> image <> ": " <> e) (exec run ("pull" ∷ image ∷ []))
    pure tt

  unfoldable pub stop : String → Action W Unit
  stop name = do wrap (λ e. "stop " <> name <> ": " <> e) (exec run ("stop" ∷ name ∷ [])); pure tt

  unfoldable pub start : String → Action W Unit
  start name = do
    wrap (λ e. "start " <> name <> ": " <> e) (exec run ("start" ∷ name ∷ []))
    pure tt

  unfoldable pub restart : String → Action W Unit
  restart name = do
    wrap (λ e. "restart " <> name <> ": " <> e) (exec run ("restart" ∷ name ∷ []))
    pure tt

  unfoldable pub update_image : String → String → Action W Unit
  unfolding pull stop
  update_image name new_image = do
    pull new_image
    stop name
    wrap (λ e. "recreate " <> name <> " with " <> new_image <> ": " <> e)
        (exec run ("run" ∷ "-d" ∷ "--name" ∷ name ∷ new_image ∷ []))
    pure tt

  unfoldable pub list_running : Action W (List String)
  list_running = do
    out ← wrap (λ e. "list containers: " <> e) (exec run ("ps" ∷ "--format" ∷ "{{.Names}}" ∷ []))
    pure (if out == "" then [] else split out 10)

  -- The body of the loop of `InspectAll`: a container that cannot be inspected is reported as stopped.
  info_or_stopped : String → Result ContainerInfo → ContainerInfo
  info_or_stopped name (ok info) = info
  info_or_stopped name (err e) = record { name = name; running = false; image = ""; version = "" }

  inspect_each : Dict ContainerInfo → List String → W → Dict ContainerInfo × W
  unfolding inspect info_or_stopped insert
  inspect_each found [] w = (found, w)
  inspect_each found (name ∷ names) w =
      let (info, w') = inspect name w in
      inspect_each (insert name (info_or_stopped name info) found) names w'

  unfoldable pub inspect_all : List String → W → Dict ContainerInfo × W
  unfolding inspect_each
  inspect_all names w = inspect_each [] names w
