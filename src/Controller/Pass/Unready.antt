-- ===== src/Controller/Pass/Unready.antt =====
-- internal/controller/memgraphdbcluster_controller.go, `reconcileRegistration`: the ends that leave Ready not
-- True, since they set Converged to False.
use kubernetes_operator.Prelude.{ℕ, String, ◌≢◌, refl, Option, none, some, List, [], ◌∷◌}
use kubernetes_operator.Prelude.Map.{Map}
use kubernetes_operator.Prelude.Ranges.{Entries}
use kubernetes_operator.Memgraph.{Instance}
use kubernetes_operator.Planner.Commands.{Command}
use kubernetes_operator.Rollout.{Range, next}
use kubernetes_operator.Expectations.{StatefulSets}
use kubernetes_operator.Controller.Conditions.{condition, truncate_message}
use kubernetes_operator.Controller.Events.{Event, Failure}
use kubernetes_operator.Controller.Replicas.{RoleReplicas}
use kubernetes_operator.Controller.Status.{
  Conditions, AreConditions, Status, set_status, not_serving, serving_or_not,
}
use kubernetes_operator.Controller.Status.Found.{IsReady}
use kubernetes_operator.Controller.Pass.{returns, unobserved_end, shed_end, registered_end}
use kubernetes_operator.Controller.Pass.Parts.{
  Inputs, topology_of, PassEnd, latest, not_yet, in_progress,
}
use kubernetes_operator.Controller.Pass.Calls.{
  World, not_owned, not_applied, applied, ApplyAnswer, ShedEnd, all_shed, owner_error, apply_error,
  Shed, shed_answered, shed_roles,
}
use kubernetes_operator.Controller.Pass.Verdicts.{serving_or_not-type, not_converged-unready}

module _ {S Connection C : Type 0} (world : World S Connection) (conditions : Conditions C)
    (quote : String → String) (range : Map String → Entries String) (order : Range) (p : Inputs)
    (laws : AreConditions conditions) (shrinks : StatefulSets) (status : Status C) where
  -- Ready is True after an end.
  abbrev Ready : PassEnd S C → Type 0
  Ready e = IsReady conditions p.generation e.status

  pub not_yet-unready :
      (rows : List Instance) (before : Status C) (reason message : String)
      → IsReady conditions p.generation (
          set_status conditions p.generation (latest p rows) (not_yet p rows reason message) before)
      → ⊥
  unfolding not_yet
  not_yet-unready rows before reason message h =
      not_converged-unready conditions laws p.generation (latest p rows) before
        (serving_or_not (latest p rows).main) reason message
        (serving_or_not-type (latest p rows).main) h

  pub unobserved-unready :
      (reason message : String) (s : S)
      → Ready (unobserved_end world conditions quote range order p shrinks status reason message s)
      → ⊥
  unfolding unobserved_end returns not_serving
  unobserved-unready reason message s h =
      not_converged-unready conditions laws p.generation _ status (not_serving reason message)
        reason message (unfold condition in refl) h

  pub registered_end-unready :
      (rows : List Instance) (commands : List Command) (o : Option Failure × (S × List Event))
      → Ready (registered_end world conditions quote range order p shrinks status rows commands o)
      → ⊥
  unfolding registered_end returns not_yet
  registered_end-unready rows commands (none, (s, events)) h = not_yet-unready rows status _ _ h
  registered_end-unready rows commands (some (c, e), (s, events)) h =
      not_yet-unready rows
        (set_status conditions p.generation (latest p rows)
          (not_yet p rows (in_progress (topology_of p) commands).0
            (in_progress (topology_of p) commands).1)
          status)
        _ _ h

  module _
      (owned : (name : String) (n : ℕ) (s : S) (e : String)
        → (world.apply name n s).0 ≢ not_owned e) where
    -- Shedding does not fail for an owner reference.
    abbrev IsOwned : ShedEnd → Type 0
    IsOwned all_shed = Unit
    IsOwned (owner_error e) = ⊥
    IsOwned (apply_error e) = Unit

    shed_answered-IsOwned :
        (r : RoleReplicas) (shrinks : StatefulSets) (x : ApplyAnswer × S)
        (next : StatefulSets → S → Shed S)
        → ((e : String) → x.0 ≢ not_owned e)
        → ((later : StatefulSets) (s : S) → IsOwned (next later s).ending)
        → IsOwned (shed_answered world p.cluster r shrinks x next).ending
    unfolding shed_answered
    shed_answered-IsOwned r shrinks (not_owned e, s) next h k = absurd (h e refl)
    shed_answered-IsOwned r shrinks (not_applied e, s) next h k = tt
    shed_answered-IsOwned r shrinks (applied w, s) next h k = k _ s

    pub shed_roles-IsOwned :
        (rs : List RoleReplicas) (shrinks : StatefulSets) (s : S)
        → IsOwned (shed_roles world p.cluster rs shrinks s).ending
    unfolding shed_roles
    shed_roles-IsOwned [] shrinks s = tt
    shed_roles-IsOwned (r ∷ rs) shrinks s =
        shed_answered-IsOwned r shrinks (world.apply r.name r.declared s)
          (shed_roles world p.cluster rs) (owned r.name r.declared s)
          (λ later t. shed_roles-IsOwned rs later t)

    pub shed_end-unready :
        (rows : List Instance) (ending : ShedEnd) (shed : Shed S)
        → IsOwned ending
        → Ready (shed_end world conditions quote range order p shrinks status rows ending shed)
        → ⊥
    unfolding shed_end returns
    shed_end-unready rows all_shed shed ok h = not_yet-unready rows status _ _ h
    shed_end-unready rows (owner_error e) shed ok h = ok
    shed_end-unready rows (apply_error e) shed ok h =
        not_converged-unready conditions laws p.generation _ status
          (not_serving "ApplyFailed" (truncate_message e)) _ _
          (unfold not_serving in unfold condition in refl) h
