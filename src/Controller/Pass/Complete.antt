-- ===== src/Controller/Pass/Complete.antt =====
-- internal/controller/memgraphdbcluster_controller.go, `reconcileRegistration` and `summarizeReady`: what
-- Ready says of a whole pass.
use kubernetes_operator.Prelude.{
  ℕ, String, ◌≡◌, ◌≢◌, refl, ◌↔◌, inl, inr, true, List, [], Bool-cases,
}
use kubernetes_operator.Prelude.Map.{Map}
use kubernetes_operator.Prelude.Ranges.{Entries}
use kubernetes_operator.Memgraph.{Instance, ReplicationLag}
use kubernetes_operator.Planner.{plan}
use kubernetes_operator.Rollout.{Range}
use kubernetes_operator.Topology.{coordinator_endpoints}
use kubernetes_operator.Expectations.{StatefulSets}
use kubernetes_operator.Controller.Applying.{Reads}
use kubernetes_operator.Controller.Leader.{Sighting, found, no_leader, no_answer, observe_cluster}
use kubernetes_operator.Controller.Registration.{
  Pass, waits_for_workloads, waits_for_leader, waits_for_survivor, sheds, settles, registers,
  pass_commands,
}
use kubernetes_operator.Controller.Replicas.{workloads_ready}
use kubernetes_operator.Controller.Shedding.{settles_iff}
use kubernetes_operator.Controller.Status.{Conditions, AreConditions, Status}
use kubernetes_operator.Controller.Status.Found.{Holds, IsReady}
use kubernetes_operator.Controller.Pass.{
  returns, waiting_for_workloads, go, closing, sighted, reconcile_registration,
}
use kubernetes_operator.Controller.Pass.Parts.{Inputs, topology_of, PassEnd, lag_or_none, settle}
use kubernetes_operator.Controller.Pass.Calls.{World, not_owned}
use kubernetes_operator.Controller.Pass.Unready.{
  not_yet-unready, unobserved-unready, registered_end-unready, shed_roles-IsOwned, shed_end-unready,
}
use kubernetes_operator.Controller.Pass.Rolled.{IsRolled, settled_pass_iff}

module _ {S Connection C : Type 0} (world : World S Connection) (conditions : Conditions C)
    (quote : String → String) (range : Map String → Entries String) (order : Range)
    (p : Inputs) where
  -- What the pass reads of the lag, over the leader's connection.
  abbrev pub lag_over : Connection → S → List ReplicationLag
  lag_over c s = lag_or_none (world.show_replication_lag c s).0

  -- The leader's view leaves nothing to do.
  abbrev pub IsSettled : Reads → Connection → List Instance → S → Type 0
  IsSettled reads c rows s =
      (plan (topology_of p) rows (lag_over c s) ≡ [])
      × ((topology_of p).retiring_coordinators ≡ [])
      × ((topology_of p).retiring_data_instances ≡ [])
      × IsRolled order p rows (lag_over c s)
          (settle world quote range p c rows reads (world.show_replication_lag c s).1)

  -- A coordinator that leads was found, and its view leaves nothing to do.
  abbrev pub SettledAt : Reads → Sighting Connection × S → Type 0
  SettledAt reads (no_leader e, s) = ⊥
  SettledAt reads (no_answer e, s) = ⊥
  SettledAt reads (found c rows, s) = IsSettled reads c rows s

  module _ (laws : AreConditions conditions) (shrinks : StatefulSets) (status : Status C) where
    -- Ready is True after an end.
    abbrev Ready : PassEnd S C → Type 0
    Ready e = IsReady conditions p.generation e.status

    abbrev License : Type 0
    License = Holds p.generation (conditions.find status.conditions "LicenseApplied")

    module _
        (owned : (name : String) (n : ℕ) (s : S) (e : String)
          → (world.apply name n s).0 ≢ not_owned e) where
      go_iff :
          (c : Connection) (rows : List Instance) (lag : List ReplicationLag) (reads : Reads)
          (way : Pass) (s : S)
          → Ready (go world conditions quote range order p shrinks status c rows lag reads way s)
            ↔ ((way ≡ settles)
                × License
                × IsRolled order p rows lag (settle world quote range p c rows reads s))
      unfolding go waiting_for_workloads returns
      go_iff c rows lag reads waits_for_workloads s = (
        λ h.
            absurd
              (unobserved-unready world conditions quote range order p laws shrinks status _ _ s h),
        λ h. cc,
      )
      go_iff c rows lag reads waits_for_leader s = (
        λ h.
            absurd
              (unobserved-unready world conditions quote range order p laws shrinks status _ _ s h),
        λ h. cc,
      )
      go_iff c rows lag reads waits_for_survivor s = (
        λ h. absurd (
            not_yet-unready world conditions quote range order p laws shrinks status rows status _ _
              h),
        λ h. cc,
      )
      go_iff c rows lag reads (sheds sets) s = (
        λ h. absurd (
            shed_end-unready world conditions quote range order p laws shrinks status owned rows _ _
              (shed_roles-IsOwned world conditions quote range order p laws shrinks status owned _
                shrinks s)
              h),
        λ h. cc,
      )
      go_iff c rows lag reads settles s =
          let both =
            settled_pass_iff world conditions quote range order p laws shrinks status rows lag
              (settle world quote range p c rows reads s) in
          (
            λ h. let (license, rolled) = both.0 h in (refl, license, rolled),
            λ (_, license, rolled). both.1 (license, rolled),
          )
      go_iff c rows lag reads (registers commands) s = (
        λ h. absurd (
            registered_end-unready world conditions quote range order p laws shrinks status rows
              commands _ h),
        λ h. cc,
      )

      way_iff :
          (reads : Reads) (c : Connection) (rows : List Instance) (s : S)
          → Ready
              (sighted world conditions quote range order p shrinks status reads (found c rows, s))
            ↔ (License × IsSettled reads c rows s)
      unfolding sighted closing
      way_iff reads c rows s =
          let lag = lag_over c s in
          let after = (world.show_replication_lag c s).1 in
          let ends =
            go_iff c rows lag reads
              (pass_commands (plan (topology_of p) rows lag) (topology_of p) rows
                p.coordinators.name p.data_instances.name)
              after in
          let way =
            settles_iff (topology_of p) lag p.coordinators.name p.data_instances.name rows in
          (
            λ h.
                let (settled, license, rolled) = ends.0 h in
                let (nothing, coordinators, data_instances) = way.0 settled in
                (license, (nothing, coordinators, data_instances, rolled)),
            λ (license, (nothing, coordinators, data_instances, rolled)).
                ends.1 (way.1 (nothing, coordinators, data_instances), license, rolled),
          )

      sighted_iff :
          (reads : Reads) (x : Sighting Connection × S)
          → Ready (sighted world conditions quote range order p shrinks status reads x)
            ↔ (License × SettledAt reads x)
      unfolding sighted
      sighted_iff reads (no_leader e, s) = (
        λ h.
            absurd
              (unobserved-unready world conditions quote range order p laws shrinks status _ _ s h),
        λ (_, none_found). absurd none_found,
      )
      sighted_iff reads (no_answer e, s) = (
        λ h.
            absurd
              (unobserved-unready world conditions quote range order p laws shrinks status _ _ s h),
        λ (_, none_found). absurd none_found,
      )
      sighted_iff reads (found c rows, s) = way_iff reads c rows s

      -- After a pass Ready is True exactly if the license is applied for this generation, the workloads
      -- are ready, and a leading coordinator was found whose view leaves nothing to plan, with no
      -- member that retires, a MAIN that is reachable, no key of the flags unclassified, the roll
      -- done, and nothing else left that the spec asks for. No owner reference fails, and the list
      -- of conditions is as Kubernetes' is.
      pub Ready-pass_iff :
          (reads : Reads) (s : S)
          → Ready
              (reconcile_registration world conditions quote range order p shrinks status reads s)
            ↔ (License
                × (workloads_ready p.coordinators p.data_instances p.roles.coordinators
                      p.roles.data_role
                    ≡ true)
                × SettledAt reads (
                    observe_cluster world.connector
                      (coordinator_endpoints p.cluster p.coordinators.applied)
                      s))
      unfolding reconcile_registration
      Ready-pass_iff reads s =
          elim (Bool-cases (
            workloads_ready p.coordinators p.data_instances p.roles.coordinators
              p.roles.data_role)) [
                | inl ready ↦
                    let both = sighted_iff reads (
                      observe_cluster world.connector
                        (coordinator_endpoints p.cluster p.coordinators.applied) s) in
                    rw ready (
                      λ h. let (license, settled) = both.0 h in (license, refl, settled),
                      λ (license, _, settled). both.1 (license, settled),
                    )
                | inr waits ↦ rw waits (
                  λ h. absurd (
                      unobserved-unready world conditions quote range order p laws shrinks status _
                        _ s (unfold waiting_for_workloads in h)),
                  λ (_, ready, _). cc,
                )
              ]
