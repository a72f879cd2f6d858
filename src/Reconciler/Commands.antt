-- ===== src/Reconciler/Commands.antt =====
-- internal/reconciler/reconciler.go: which `docker` commands reconcile a client container.
use eth_node_operator.Common.{
  String, ◌≡◌, ◌≢◌, true, Bool-cases, inl, inr, none, List, [], ◌∷◌, ◌++◌, if◌then◌else◌, ◌==◌,
  eq_iff, ok, Runner, recorded,
}
use eth_node_operator.Common.Plan.{
  Command, is_ok, Follows, Follows-pure, Follows-wrap, Follows-exec, Follows-bind,
}
use eth_node_operator.Types.{ClientSpec}
use eth_node_operator.Common.Text.{split_n}
use eth_node_operator.Docker.{ContainerInfo, inspect, parse_info, pull, stop, start, inspect_args}
use eth_node_operator.Reconciler.{
  Managers, bring_up, replace_image, start_stopped, reconcile_client,
}

-- The commands that bring a container that was found as `info` to the desired image.
pub bring_up_plan : String → String → ContainerInfo → List Command
bring_up_plan name image info =
    if info.image == image
    then (if info.running then [] else ("start" ∷ name ∷ []) ∷ [])
    else ("pull" ∷ image ∷ []) ∷ ("stop" ∷ name ∷ []) ∷ ("start" ∷ name ∷ []) ∷ []

-- The same managers, with a runner of `docker` that keeps the commands that were run.
abbrev pub watched :
    {W : Type 0} → Runner W → Managers (W × List Command) → Managers (W × List Command)
watched run m = record m { docker = recorded run }

module _ {W : Type 0} (run : Runner W) (m : Managers (W × List Command)) where
  pull-Follows : (i : String) → Follows (("pull" ∷ i ∷ []) ∷ []) (pull (recorded run) i)
  unfolding pull
  pull-Follows i =
      Follows-bind _ _ _ _ (Follows-wrap _ _ _ (Follows-exec run _)) (λ _. Follows-pure tt)

  stop-Follows : (c : String) → Follows (("stop" ∷ c ∷ []) ∷ []) (stop (recorded run) c)
  unfolding stop
  stop-Follows c =
      Follows-bind _ _ _ _ (Follows-wrap _ _ _ (Follows-exec run _)) (λ _. Follows-pure tt)

  start-Follows : (c : String) → Follows (("start" ∷ c ∷ []) ∷ []) (start (recorded run) c)
  unfolding start
  start-Follows c =
      Follows-bind _ _ _ _ (Follows-wrap _ _ _ (Follows-exec run _)) (λ _. Follows-pure tt)

  replace-Follows :
      (c current i : String)
      → Follows
          (("pull" ∷ i ∷ []) ∷ ("stop" ∷ c ∷ []) ∷ ("start" ∷ c ∷ []) ∷ [])
          (replace_image (watched run m) c current i)
  unfolding replace_image
  replace-Follows c current i = Follows-bind _ _ _ _ (Follows-wrap _ _ _ (pull-Follows i)) (λ _.
      Follows-bind _ _ _ _ (Follows-wrap _ _ _ (stop-Follows c))
        (λ _. Follows-bind _ _ _ _ (Follows-wrap _ _ _ (start-Follows c)) (λ _. Follows-pure _)))

  start_stopped-Follows :
      (c : String) → Follows (("start" ∷ c ∷ []) ∷ []) (start_stopped (watched run m) c)
  unfolding start_stopped
  start_stopped-Follows c =
      Follows-bind _ _ _ _ (Follows-wrap _ _ _ (start-Follows c)) (λ _. Follows-pure _)

  bring_up-Follows :
      (c i : String) (info : ContainerInfo)
      → Follows (bring_up_plan c i info) (bring_up (watched run m) c i info)
  unfolding bring_up bring_up_plan
  bring_up-Follows c i info = elim (Bool-cases (info.image == i)) [
    | inl same ↦ elim (Bool-cases info.running) [
      | inl up ↦ rw (same, up) (Follows-pure _)
      | inr down ↦ rw (same, down) (start_stopped-Follows c)
    ]
    | inr other ↦ rw other (replace-Follows c info.image i)
  ]

  found-eq-bring_up :
      (c : String) (desired : ClientSpec) (w w1 : W) (out : String) (info : ContainerInfo)
      → desired.image ≢ ""
      → run (inspect_args c) w ≡ ((out, none), w1)
      → parse_info c out (split_n out b'|' 3) ≡ ok info
      → reconcile_client (watched run m) c desired (w, [])
        ≡ bring_up (watched run m) c desired.image info (w1, inspect_args c ∷ [])
  unfolding reconcile_client inspect
  found-eq-bring_up c desired w w1 out info image ran parsed =
      elim (Bool-cases (desired.image == "")) [
        | inl missing ↦ absurd (image ((eq_iff desired.image "").0 missing))
        | inr given ↦ rw (given, ran) (rw parsed)
      ]

  -- Once the container has been inspected, the `docker` commands of `reconcileClient` are those of its plan,
  -- in order: all of them if it succeeds, an initial part if it fails. They are none where the
  -- container runs the desired image, a start where it is stopped, and a pull, a stop and a start
  -- where its image is another.
  pub reconcile_client-Ran :
      (c : String) (desired : ClientSpec) (w w1 : W) (out : String) (info : ContainerInfo)
      → desired.image ≢ ""
      → run (inspect_args c) w ≡ ((out, none), w1)
      → parse_info c out (split_n out b'|' 3) ≡ ok info
      → let res = reconcile_client (watched run m) c desired (w, []) in
        (rest : List Command) × (res.1.1 ++ rest
          ≡ inspect_args c ∷ bring_up_plan c desired.image info)
        × (is_ok res.0 ≡ true → rest ≡ [])
  reconcile_client-Ran c desired w w1 out info image ran parsed =
      rw (found-eq-bring_up c desired w w1 out info image ran parsed)
        ((bring_up-Follows c desired.image info).at w1 (inspect_args c ∷ []))
