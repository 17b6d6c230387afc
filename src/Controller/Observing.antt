-- ===== src/Controller/Observing.antt =====
-- internal/controller/memgraphdbcluster_controller.go: `observeRollout`, what the rolling restart sees of both
-- roles. What the API server answers to a list of pods is an argument. Ordinals and generations are
-- never negative.
pub mod Seen
use kubernetes_operator.Prelude.{
  ℕ, zero, suc, String, ◌⊎◌, inl, inr, Bool, false, not, ◌&&◌, ◌||◌, Option, none, some, List, [],
  ◌∷◌, ltb, eqb, ◌==◌, if◌then◌else◌, concat,
}
use kubernetes_operator.Prelude.Map.{Map, lookup, insert, index_into}
use kubernetes_operator.Rollout.Roles.{Pod, Role}
use kubernetes_operator.Topology.{Cluster, pod_name, coordinator_instance_name, data_instance_name}
use kubernetes_operator.Controller.FlagClasses.{RolloutRoles}

-- What is read of a pod: its conditions as their types and statuses, and its label and its two
-- annotations, each empty where the pod lacks it.
pub record PodRead : Type 0 where
  pub name : String
  pub uid : String
  pub is_deleting : Bool
  pub conditions : List (String × String)
  pub revision : String
  pub flags : String
  pub template : String

-- What is read of a StatefulSet, with the two annotations of its template.
pub record SetRead : Type 0 where
  pub update_revision : String
  pub generation : ℕ
  pub observed_generation : ℕ
  pub flags : String
  pub template : String

-- `observedRole`
pub record ObservedRole : Type 0 where
  pub role : Role
  pub flags : String
  pub pod_flags : Map String
  pub template : String
  pub pod_templates : Map String

-- `podReady`
unfoldable pub pod_ready : List (String × String) → Bool
pod_ready [] = false
pod_ready ((condition_type, status) ∷ conditions) =
    let rest = pod_ready conditions in if condition_type == "Ready" then status == "True" else rest

-- One turn of the loop over the ordinals, of what it finds under the name, before the turns that follow.
unfoldable pub or_absent : ℕ → Option PodRead → List (ℕ × PodRead) → List (ℕ × PodRead)
or_absent ordinal none rest = rest
or_absent ordinal (some p) rest = (ordinal, p) ∷ rest

-- The pods that the loop finds, each with its ordinal.
unfoldable pub found_from : String → Map PodRead → ℕ → ℕ → List (ℕ × PodRead)
unfolding or_absent pod_name lookup
found_from set by_name start zero = []
found_from set by_name start (suc count) =
    or_absent start (lookup (pod_name set start) by_name) (found_from set by_name (suc start) count)

-- What the loop appends to `Pods`.
unfoldable pub pod_seen : (ℕ → String) → ℕ → PodRead → Pod
unfolding pod_ready
pod_seen instance_name ordinal p = record {
  name = p.name;
  uid = p.uid;
  instance_name = instance_name ordinal;
  ordinal = ordinal;
  revision_hash = p.revision;
  current = false;
  ready = not p.is_deleting && pod_ready p.conditions;
}

unfoldable pub pods_seen : (ℕ → String) → List (ℕ × PodRead) → List Pod
unfolding pod_seen
pods_seen instance_name [] = []
pods_seen instance_name ((n, p) ∷ found) =
    pod_seen instance_name n p ∷ pods_seen instance_name found

-- What it writes to a map by the pods' names.
unfoldable pub noted : (PodRead → String) → List (ℕ × PodRead) → Map String → Map String
unfolding insert
noted note [] m = m
noted note ((n, p) ∷ found) m = noted note found (insert p.name (note p) m)

-- The status of the StatefulSet does not describe the template that was applied.
unfoldable pub is_stale : SetRead → ℕ → Bool
is_stale sts applied_generation =
    ltb sts.generation applied_generation || not (eqb sts.observed_generation sts.generation)

unfoldable pub role_of_pods : String → ℕ → SetRead → (ℕ → String) → ℕ → List PodRead → ObservedRole
unfolding found_from pods_seen noted is_stale index_into
role_of_pods name applied sts instance_name applied_generation pods =
    let found = found_from name (index_into (λ (p : PodRead). p.name) pods []) 0 applied in
    record {
      role = record {
        replicas = applied;
        update_revision = sts.update_revision;
        stale = is_stale sts applied_generation;
        pods = pods_seen instance_name found;
      };
      flags = sts.flags;
      pod_flags = noted (λ p. p.flags) found [];
      template = sts.template;
      pod_templates = noted (λ p. p.template) found [];
    }

-- `observeRolloutRole`
unfoldable pub observe_rollout_role :
    String → ℕ → Option SetRead → (ℕ → String) → ℕ → (String ⊎ List PodRead) → String ⊎ ObservedRole
unfolding role_of_pods concat
observe_rollout_role name applied none instance_name applied_generation answer = inr (record {
  role = record { replicas = applied; update_revision = ""; stale = false; pods = [] };
  flags = "";
  pod_flags = [];
  template = "";
  pod_templates = [];
})
observe_rollout_role name applied (some sts) instance_name applied_generation (inl e) =
    inl (concat ("listing pods of StatefulSet " ∷ name ∷ ": " ∷ e ∷ []))
observe_rollout_role name applied (some sts) instance_name applied_generation (inr pods) =
    inr (role_of_pods name applied sts instance_name applied_generation pods)

-- `maps.Copy`
unfoldable pub copy_into : Map String → Map String → Map String
unfolding insert
copy_into m [] = m
copy_into m ((k, v) ∷ entries) = copy_into (insert k v m) entries

unfoldable pub both_seen : String ⊎ ObservedRole → String ⊎ ObservedRole → String ⊎ RolloutRoles
unfolding copy_into
both_seen (inl e) data_role = inl e
both_seen (inr coordinators) (inl e) = inl e
both_seen (inr coordinators) (inr data_role) = inr (record {
  data_role = data_role.role;
  coordinators = coordinators.role;
  data_flags = data_role.flags;
  coordinator_flags = coordinators.flags;
  pod_flags = copy_into (copy_into [] coordinators.pod_flags) data_role.pod_flags;
  data_template = data_role.template;
  coordinator_template = coordinators.template;
  pod_templates = copy_into (copy_into [] coordinators.pod_templates) data_role.pod_templates;
})

-- One role as the pass reads it: its name, the count applied, the StatefulSet, the generation that the
-- apply returned, and the answer to the list of its pods.
pub record RoleRead : Type 0 where
  pub name : String
  pub applied : ℕ
  pub stateful_set : Option SetRead
  pub applied_generation : ℕ
  pub answer : String ⊎ List PodRead

-- `observeRollout`
unfoldable pub observe_rollout : RoleRead → RoleRead → String ⊎ RolloutRoles
unfolding both_seen observe_rollout_role coordinator_instance_name data_instance_name
observe_rollout c d =
    both_seen
      (observe_rollout_role c.name c.applied c.stateful_set coordinator_instance_name
        c.applied_generation c.answer)
      (observe_rollout_role d.name d.applied d.stateful_set data_instance_name d.applied_generation
        d.answer)
