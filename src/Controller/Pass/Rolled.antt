-- ===== src/Controller/Pass/Rolled.antt =====
-- internal/controller/memgraphdbcluster_controller.go, `reconcileRegistration`: what Ready says where the
-- registration has converged.
use kubernetes_operator.Prelude.{
  String, ◌≡◌, ◌≢◌, refl, sym, subst, ◌↔◌, Option, none, some, List, [], ◌∷◌,
}
use kubernetes_operator.Prelude.Map.{Map}
use kubernetes_operator.Prelude.Ranges.{Entries}
use kubernetes_operator.Memgraph.{Instance, ReplicationLag}
use kubernetes_operator.Rollout.{Range, next}
use kubernetes_operator.Rollout.Roles.{Pod, done}
use kubernetes_operator.Expectations.{StatefulSets}
use kubernetes_operator.Controller.Conditions.{Condition}
use kubernetes_operator.Controller.Convergence.{Ending, converged_condition}
use kubernetes_operator.Controller.Convergence.Complete.{IsComplete, converged_iff}
use kubernetes_operator.Controller.Events.{Event}
use kubernetes_operator.Controller.Registration.{observed_main}
use kubernetes_operator.Controller.Status.{
  Conditions, AreConditions, Observation, Status, observe_view, exposed_at, set_status,
  serving_or_not,
}
use kubernetes_operator.Controller.Status.Found.{Holds, IsReady}
use kubernetes_operator.Controller.Pass.{returns, deleted_end, roll_end, settled_pass}
use kubernetes_operator.Controller.Pass.Parts.{
  Inputs, topology_of, Settled, PassEnd, settled_end, latest,
}
use kubernetes_operator.Controller.Pass.Calls.{World, restart_pod}
use kubernetes_operator.Controller.Pass.Verdicts.{
  serving_or_not-type, serving_or_not_iff, converged_condition-type, settled_ending-type,
  settled_ending_iff, three_iff,
}

module _ {S : Type 0} (order : Range) (p : Inputs) where
  -- The MAIN is reachable, the roll is done, and nothing else that the spec asks for is left.
  abbrev pub IsRolled : List Instance → List ReplicationLag → Settled S → Type 0
  IsRolled rows lag d =
      (observed_main rows ≢ "")
      × (d.unclassified ≡ [])
      × (next order d.roles.data_role d.roles.coordinators rows lag ≡ done)
      × IsComplete p.exposure p.monitor_failure d.owed p.claims

module _ {S Connection C : Type 0} (world : World S Connection) (conditions : Conditions C)
    (quote : String → String) (range : Map String → Entries String) (order : Range) (p : Inputs)
    (laws : AreConditions conditions) (shrinks : StatefulSets) (status : Status C) where
  -- Ready is True after an end.
  abbrev Ready : PassEnd S C → Type 0
  Ready e = IsReady conditions p.generation e.status

  abbrev License : Type 0
  License = Holds p.generation (conditions.find status.conditions "LicenseApplied")

  roll_end-status :
      (new : List Condition) (e : Ending) (o : Observation) (victim : Option Pod)
      (events : List Event) (s : S)
      → (roll_end world conditions quote range order p shrinks status new e o victim events
          s).status
        ≡ set_status conditions p.generation o new status
  unfolding roll_end returns
  roll_end-status new e o none events s = refl
  roll_end-status new e o (some victim) events s = deleted (restart_pod world p.cluster victim s)
    where
      deleted :
          (answer : Option String × S)
          → (deleted_end world conditions quote range order p shrinks status new e o victim events
              answer).status
            ≡ set_status conditions p.generation o new status
      deleted (none, s) = unfold deleted_end in refl
      deleted (some err, s) = unfold deleted_end in refl

  pub settled_pass_iff :
      (rows : List Instance) (lag : List ReplicationLag) (d : Settled S)
      → Ready (settled_pass world conditions quote range order p shrinks status rows lag d)
        ↔ (License × IsRolled order p rows lag d)
  unfolding settled_pass settled_end latest observe_view exposed_at
  settled_pass_iff rows lag d =
      let e = settled_end order p rows lag d in
      let converged =
        converged_condition (topology_of p) p.exposure p.monitor_failure d.owed p.claims in
      let kept =
        roll_end-status (serving_or_not (observed_main rows) ∷ converged ∷ e.updated ∷ []) e
          (latest p rows) e.deleted d.events d.state in
      let both =
        three_iff conditions laws p.generation (latest p rows) status
          (serving_or_not (observed_main rows)) converged e.updated
          (serving_or_not-type (observed_main rows))
          (converged_condition-type (topology_of p) p.exposure p.monitor_failure d.owed p.claims)
          (settled_ending-type _ _ _ _) in
      let ended = settled_ending_iff d.unclassified _ d.owed p.claims in
      let complete = converged_iff (topology_of p) p.exposure p.monitor_failure d.owed p.claims in
      (
        λ h.
            let (serves, license, sound, updated) =
              both.0 (subst (IsReady conditions p.generation) kept h) in
            let (keys, rolled) = ended.0 updated in
            (
              license,
              ((serving_or_not_iff (observed_main rows)).0 serves, keys, rolled, complete.0 sound),
            ),
        λ (license, (main, keys, rolled, whole)).
            subst (IsReady conditions p.generation) (sym kept) (
              both.1 (
                (serving_or_not_iff (observed_main rows)).1 main,
                license,
                complete.1 whole,
                ended.1 (keys, rolled),
              )),
      )
