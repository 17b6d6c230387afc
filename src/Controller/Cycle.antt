-- ===== src/Controller/Cycle.antt =====
-- internal/controller/memgraphdbcluster_controller.go: the end of `reconcileCluster`, from the license on, and
-- `summarizeReady` as `Reconcile` calls it after that.
pub mod Ready
use kubernetes_operator.Prelude.{String, List, [], ◌∷◌, ◌++◌}
use kubernetes_operator.Prelude.Map.{Map}
use kubernetes_operator.Prelude.Ranges.{Entries}
use kubernetes_operator.Rollout.{Range}
use kubernetes_operator.Expectations.{StatefulSets}
use kubernetes_operator.Controller.Applying.{Reads}
use kubernetes_operator.Controller.Secrets.{LicenseSecret, SecretRead, Licensing, reconcile_license}
use kubernetes_operator.Controller.Settling.{data_part, coordinator_part}
use kubernetes_operator.Controller.Status.{
  Conditions, Status, last_observed, set_status, summarize_ready,
}
use kubernetes_operator.Controller.Pass.{reconcile_registration}
use kubernetes_operator.Controller.Pass.Calls.{World}
use kubernetes_operator.Controller.Pass.Parts.{Inputs, PassEnd}

module _ {S Connection : Type 0} (world : World S Connection) (quote : String → String)
    (p : Inputs) where
  -- The license of a pass, over no reads yet.
  unfoldable pub license_of : LicenseSecret → SecretRead → S → Licensing S
  unfolding reconcile_license
  license_of ref read s =
      reconcile_license world.instances quote ref read
        (data_part p.cluster p.data_instances.applied p.roles.data_role.pods)
        (coordinator_part p.cluster p.coordinators.applied p.roles.coordinators.pods) [] s

module _ {S Connection C : Type 0} (world : World S Connection) (conditions : Conditions C)
    (quote : String → String) (range : Map String → Entries String) (order : Range) (p : Inputs)
    (shrinks : StatefulSets) (status : Status C) where
  -- The registration of the pass, once the condition of the license is set.
  unfoldable pub registration_after : Licensing S → PassEnd S C
  unfolding reconcile_registration set_status last_observed
  registration_after license =
      reconcile_registration world conditions quote range order p shrinks
        (set_status conditions p.generation (last_observed status) (license.condition ∷ []) status)
        license.reads license.state

  -- The license and the registration, and the status that `Reconcile` writes.
  unfoldable pub finish_pass : LicenseSecret → SecretRead → S → PassEnd S C
  unfolding license_of registration_after summarize_ready
  finish_pass ref read s =
      let license = license_of world quote p ref read s in
      let e = registration_after license in
      record e {
        status = summarize_ready conditions p.generation e.status;
        events = license.events ++ e.events;
      }
