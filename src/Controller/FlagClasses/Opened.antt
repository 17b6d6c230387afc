-- ===== src/Controller/FlagClasses/Opened.antt =====
-- internal/controller/memgraphdbcluster_controller.go, `classifyFlags`: the connections it leaves open.
use kubernetes_operator.Prelude.{
  ℕ, String, ◌≡◌, ◌∙◌, inl, inr, not, ◌||◌, Option, none, some, List, [], ◌∷◌, ◌==◌, Bool-cases,
}
use kubernetes_operator.Prelude.Map.{Map}
use kubernetes_operator.Prelude.Ranges.{Entries}
use kubernetes_operator.Rollout.Roles.{Pod}
use kubernetes_operator.Topology.{Endpoint}
use kubernetes_operator.Controller.Applying.{Instances, Read}
use kubernetes_operator.Controller.Applying.Opened.{Opens, read_instance-opened}
use kubernetes_operator.Controller.FlagClasses.{
  RolloutRoles, on_template, config_answer, config_of_pod, or_else, config_of_pods, or_leader,
  show_config, classify_flags,
}

module _ {S Connection : Type 0} (instances : Instances S Connection) (opened : S → ℕ)
    (opens : Opens instances opened) (leader_config leader_settings : S → Read × S)
    (config_keeps : (s : S) → opened (leader_config s).1 ≡ opened s)
    (settings_keep : (s : S) → opened (leader_settings s).1 ≡ opened s) where
  config_answer-opened :
      (o : Read × S) (next : S → Option (Map String) × S) (n : ℕ)
      → ((s : S) → opened s ≡ n → opened (next s).1 ≡ n)
      → opened o.1 ≡ n
      → opened (config_answer instances leader_config leader_settings o next).1 ≡ n
  unfolding config_answer
  config_answer-opened (inl e, s) next n after h = after s h
  config_answer-opened (inr [], s) next n after h = after s h
  config_answer-opened (inr (e ∷ config), s) next n after h = h

  config_of_pod-opened :
      (name : String) (es : List Endpoint) (n : ℕ) (s : S)
      → opened s ≡ n
      → opened (config_of_pod instances leader_config leader_settings name es s).1 ≡ n
  unfolding config_of_pod
  config_of_pod-opened name [] n s h = h
  config_of_pod-opened name (e ∷ es) n s h = elim (Bool-cases (e.pod == name)) [
    | inl same ↦ rw same (
        config_answer-opened _ _ n (config_of_pod-opened name es n) (
          read_instance-opened instances opened opens instances.show_config e s n opens.shows_config
            h))
    | inr other ↦ rw other (config_of_pod-opened name es n s h)
  ]

  or_else-opened :
      (o : Option (Map String) × S) (next : S → Option (Map String) × S) (n : ℕ)
      → ((s : S) → opened s ≡ n → opened (next s).1 ≡ n)
      → opened o.1 ≡ n
      → opened (or_else instances leader_config leader_settings o next).1 ≡ n
  unfolding or_else
  or_else-opened (none, s) next n after h = after s h
  or_else-opened (some config, s) next n after h = h

  config_of_pods-opened :
      (templates : Map String) (template : String) (es : List Endpoint) (ps : List Pod) (n : ℕ)
      (s : S)
      → opened s ≡ n
      → opened (config_of_pods instances leader_config leader_settings templates template es ps s).1
        ≡ n
  unfolding config_of_pods
  config_of_pods-opened templates template es [] n s h = h
  config_of_pods-opened templates template es (p ∷ ps) n s h =
      elim (Bool-cases (not p.ready || not (on_template templates p.name template))) [
        | inl skipped ↦ rw skipped (config_of_pods-opened templates template es ps n s h)
        | inr asked ↦ rw asked (
            or_else-opened _ _ n (config_of_pods-opened templates template es ps n)
              (config_of_pod-opened p.name es n s h))
      ]

  or_leader-opened :
      (o : Option (Map String) × S) (n : ℕ)
      → opened o.1 ≡ n
      → opened (or_leader instances leader_config leader_settings o).1 ≡ n
  unfolding or_leader
  or_leader-opened (none, s) n h = config_keeps s ∙ h
  or_leader-opened (some config, s) n h = h

  pub classify_flags-opened :
      (roles : RolloutRoles) (data_role coordinators : List Endpoint)
      (coordinators_spec data_spec : Entries String) (s : S) (n : ℕ)
      → opened s ≡ n
      → opened
          (classify_flags instances leader_config leader_settings roles data_role coordinators
            coordinators_spec data_spec s).1
        ≡ n
  unfolding classify_flags show_config
  classify_flags-opened roles data_role coordinators coordinators_spec data_spec s n h =
      settings_keep _
      ∙ or_leader-opened _ n (
          or_else-opened _ _ n
            (config_of_pods-opened roles.pod_templates roles.coordinator_template coordinators
              roles.coordinators.pods n)
            (config_of_pods-opened roles.pod_templates roles.data_template data_role
              roles.data_role.pods n s h))
