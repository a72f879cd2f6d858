-- ===== src/Reconciler/Images.antt =====
-- internal/reconciler/reconciler.go: the image of a container under `reconcileClient` and
-- `reconcileMEV`. Docker is not part of the program; what its manual says is a hypothesis.
use eth_node_operator.Common.{String, ◌≡◌, ◌≢◌, refl, sym, ◌∙◌, [], ◌∷◌, ok, Runner}
use eth_node_operator.Common.Keeps.{
  Keeps, Keeps-pure, Keeps-wrap, Keeps-bind, Keeps-exec, Keeps-if, keeps_rules,
}
use eth_node_operator.Types.{ClientSpec}
use eth_node_operator.Docker.{ContainerInfo, inspect, pull, stop, start, inspect_args}
use eth_node_operator.Reconciler.{
  Managers, bring_up, replace_image, start_stopped, reconcile_client,
}

-- The manual of Docker: the image of a container is fixed when the container is created. To inspect, to pull an
-- image, to stop and to start a container change it for no container.
pub record DockerLaws {W : Type 0} (run : Runner W) (image_of : W → String → String) : Type 0 where
  pub inspect_keeps :
      (w : W) (c name : String) → image_of (run (inspect_args c) w).1 name ≡ image_of w name
  pub pull_keeps :
      (w : W) (i name : String) → image_of (run ("pull" ∷ i ∷ []) w).1 name ≡ image_of w name
  pub stop_keeps :
      (w : W) (c name : String) → image_of (run ("stop" ∷ c ∷ []) w).1 name ≡ image_of w name
  pub start_keeps :
      (w : W) (c name : String) → image_of (run ("start" ∷ c ∷ []) w).1 name ≡ image_of w name
  pub inspect_reads :
      (w : W) (c : String) (info : ContainerInfo)
      → (inspect run c w).0 ≡ ok info
      → info.image ≡ image_of w c

module _ {W : Type 0} (m : Managers W) (image_of : W → String → String)
    (laws : DockerLaws m.docker image_of) (name : String) where
  abbrev view : W → String
  view w = image_of w name

  inspect-Keeps : (c : String) → Keeps view (inspect m.docker c)
  unfolding inspect
  inspect-Keeps c =
      Keeps-bind _ _
        (Keeps-wrap _ _ (Keeps-exec view m.docker _ (λ w. laws.inspect_keeps w c name)))
        (λ out. record { at = λ w. refl })

  pull-Keeps : (i : String) → Keeps view (pull m.docker i)
  unfolding pull
  pull-Keeps i =
      Keeps-bind _ _ (Keeps-wrap _ _ (Keeps-exec view m.docker _ (λ w. laws.pull_keeps w i name)))
        (λ _. Keeps-pure tt)

  stop-Keeps : (c : String) → Keeps view (stop m.docker c)
  unfolding stop
  stop-Keeps c =
      Keeps-bind _ _ (Keeps-wrap _ _ (Keeps-exec view m.docker _ (λ w. laws.stop_keeps w c name)))
        (λ _. Keeps-pure tt)

  start-Keeps : (c : String) → Keeps view (start m.docker c)
  unfolding start
  start-Keeps c =
      Keeps-bind _ _ (Keeps-wrap _ _ (Keeps-exec view m.docker _ (λ w. laws.start_keeps w c name)))
        (λ _. Keeps-pure tt)

  ruleset image_rules = (keeps_rules, inspect-Keeps, pull-Keeps, stop-Keeps, start-Keeps)

  replace-Keeps : (c current i : String) → Keeps view (replace_image m c current i)
  unfolding replace_image
  replace-Keeps c current i =
      Keeps-bind _ _ (Keeps-wrap _ _ (pull-Keeps i))
        (λ _. Keeps-bind _ _ (Keeps-wrap _ _ (stop-Keeps c)) (λ _. search image_rules))

  start_stopped-Keeps : (c : String) → Keeps view (start_stopped m c)
  unfolding start_stopped
  start_stopped-Keeps c = Keeps-bind _ _ (Keeps-wrap _ _ (start-Keeps c)) (λ _. Keeps-pure _)

  bring_up-Keeps : (c i : String) (info : ContainerInfo) → Keeps view (bring_up m c i info)
  unfolding bring_up
  bring_up-Keeps c i info =
      Keeps-if _ _ _ (replace-Keeps c info.image i)
        (Keeps-if _ _ _ (start_stopped-Keeps c) (Keeps-pure _))

  client-Keeps : (c : String) (desired : ClientSpec) → Keeps view (reconcile_client m c desired)
  unfolding reconcile_client
  client-Keeps c desired =
      Keeps-if _ _ _ (Keeps-pure _)
        (Keeps-bind _ _ (Keeps-wrap _ _ (inspect-Keeps c)) (λ info. bring_up-Keeps c _ info))

  -- Reconciling a client leaves the image of every container as it was, whatever the desired image is and
  -- whatever is reported.
  reconcile_client-image_of :
      (c : String) (desired : ClientSpec) (w : W)
      → image_of (reconcile_client m c desired w).1 name ≡ image_of w name
  reconcile_client-image_of c desired w = (client-Keeps c desired).at w

-- Image drift stays: where a container runs another image than the desired one, an inspection after
-- `reconcileClient` still finds another image, also when the pass has reported the update.
pub image_drift_stays :
    {W : Type 0} (m : Managers W) (image_of : W → String → String)
    (laws : DockerLaws m.docker image_of) (c : String) (desired : ClientSpec) (w : W)
    (before after : ContainerInfo)
    → (inspect m.docker c w).0 ≡ ok before
    → before.image ≢ desired.image
    → (inspect m.docker c (reconcile_client m c desired w).1).0 ≡ ok after
    → after.image ≢ desired.image
image_drift_stays m image_of laws c desired w before after seen drift seen' same = drift (
    laws.inspect_reads w c before seen
    ∙ sym (reconcile_client-image_of m image_of laws c c desired w)
    ∙ sym (laws.inspect_reads _ c after seen')
    ∙ same)
