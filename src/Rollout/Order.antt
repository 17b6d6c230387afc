-- ===== src/Rollout/Order.antt =====
-- internal/rollout/rollout.go: the order of a roll, who is restarted last.
use kubernetes_operator.Prelude.{
  String, ◌≡◌, ◌≢◌, subst, ◌⊎◌, inl, inr, true, List, [], In, eq_iff, arith,
}
use kubernetes_operator.Memgraph.{Instance, ReplicationLag, is_up, is_caught_up}
use kubernetes_operator.Planner.View.{index}
use kubernetes_operator.Planner.Observed.{registered_up_row, lag_caught_up_row}
use kubernetes_operator.Rollout.Roles.{Pod, Role, Decision, outdated, updated}
use kubernetes_operator.Rollout.{Range, main_instance, leader_instance, next}
use kubernetes_operator.Rollout.Choice.{AllPresent}
use kubernetes_operator.Rollout.Restarts.{CoordinatorRestart, next-Deletes}
use kubernetes_operator.Rollout.Restarts.DataRole.{Deletes}

-- A row of the observed view says that the leader reaches the instance.
abbrev pub UpRow : List Instance → String → Type 0
UpRow o k = (i : Instance) × In i o × (i.name ≡ k) × (is_up i ≡ true)

-- A row of the lag view says that the instance holds every transaction of MAIN.
abbrev pub CaughtUpRow : List ReplicationLag → String → Type 0
CaughtUpRow lag k =
    (l : ReplicationLag) × In l lag × (l.instance_name ≡ k) × (is_caught_up l ≡ true)

module _ (range : Range) (data_role coordinators : Role) (o : List Instance)
    (lag : List ReplicationLag) where
  abbrev decision : Decision
  decision = next range data_role coordinators o lag

  abbrev main : String
  main = main_instance range (index o)

  coordinator_restart :
      (p : Pod)
      → outdated data_role ≡ []
      → Deletes decision p
      → CoordinatorRestart range coordinators (outdated coordinators) (index o) p
  coordinator_restart p nothing h = elim (next-Deletes range data_role coordinators o lag p h).2 [
    | inl (_, _, inl replica) ↦ absurd (subst (In p) nothing replica.0.0)
    | inl (_, _, inr last) ↦ absurd (subst (In p) nothing last.0)
    | inr (_, _, why) ↦ why
  ]

  -- A decision deletes only an outdated pod, a coordinator's only once no data pod is outdated, and
  -- nothing unless each data pod exists and is ready.
  pub Deletes-outdated :
      (p : Pod)
      → Deletes decision p
      → AllPresent data_role
        × (In p (outdated data_role)
            ⊎ ((outdated data_role ≡ []) × AllPresent coordinators × In p (outdated coordinators)))
  Deletes-outdated p h = elim (next-Deletes range data_role coordinators o lag p h).2 [
    | inl (all, _, inl replica) ↦ (all, inl replica.0.0)
    | inl (all, _, inr last) ↦ (all, inl last.0)
    | inr (nothing, all, (here, _, _, inl top)) ↦ (all, inr (nothing, here, top.0))
    | inr (nothing, all, (here, _, _, inr last)) ↦ (all, inr (nothing, here, last.0))
  ]

  -- While a data pod is outdated, the MAIN's pod is deleted only if it runs on each outdated data
  -- pod, and only if the role has one replica, or the leader reaches MAIN and another pod's instance
  -- that holds every transaction of MAIN.
  pub main_last :
      (p : Pod)
      → outdated data_role ≢ []
      → p.instance_name ≡ main
      → Deletes decision p
      → ((q : Pod) → In q (outdated data_role) → q.instance_name ≡ main)
        × ((data_role.replicas ≡ 1)
            ⊎ (UpRow o main
                × ((q : Pod) × In q data_role.pods
                    × (q.instance_name ≢ main)
                    × UpRow o q.instance_name
                    × CaughtUpRow lag q.instance_name)))
  main_last p some_left e h = elim (next-Deletes range data_role coordinators o lag p h).2 [
    | inl (all, _, inl replica) ↦ absurd (replica.0.1 e)
    | inl (all, _, inr (_, only, inl one)) ↦ (only, inl one)
    | inl (all, _, inr (_, only, inr (up, (q, i, n, u, c)))) ↦ (
      only,
      inr (
        registered_up_row o main up,
        (q, i, n, registered_up_row o q.instance_name u, lag_caught_up_row lag q.instance_name c),
      ),
    )
    | inr (nothing, _, _) ↦ absurd (some_left nothing)
  ]

  -- While a data pod is outdated, another pod than MAIN's is deleted only if the instance of each
  -- data pod that is up to date is reached and holds every transaction of MAIN.
  pub replicas_back :
      (p : Pod)
      → outdated data_role ≢ []
      → p.instance_name ≢ main
      → Deletes decision p
      → (q : Pod) → In q (updated data_role)
      → UpRow o q.instance_name × CaughtUpRow lag q.instance_name
  replicas_back p some_left n h q i = elim (next-Deletes range data_role coordinators o lag p h).2 [
    | inl (_, _, inl replica) ↦ (
      registered_up_row o q.instance_name (replica.1 q i).0,
      lag_caught_up_row lag q.instance_name (replica.1 q i).1,
    )
    | inl (_, _, inr last) ↦ absurd (n (last.1 p last.0))
    | inr (nothing, _, _) ↦ absurd (some_left nothing)
  ]

  -- Once no data pod is outdated, a coordinator's pod is deleted only if a leader is known, and each
  -- coordinator that is up to date is reached.
  pub coordinators_one_by_one :
      (p : Pod)
      → outdated data_role ≡ []
      → Deletes decision p
      → (leader_instance range (index o) ≢ "")
        × ((q : Pod) → In q (updated coordinators) → UpRow o q.instance_name)
  coordinators_one_by_one p nothing h =
      let (_, back, named, _) = coordinator_restart p nothing h in
      (
        λ e. ground (arith, named, (eq_iff (leader_instance range (index o)) "").1 e),
        λ q i. registered_up_row o q.instance_name (back q i),
      )

  -- Once no data pod is outdated, the Raft leader's pod is deleted only if each outdated coordinator
  -- pod runs the leader.
  pub leader_last :
      (p : Pod)
      → outdated data_role ≡ []
      → p.instance_name ≡ leader_instance range (index o)
      → Deletes decision p
      → (q : Pod) → In q (outdated coordinators)
      → q.instance_name ≡ leader_instance range (index o)
  leader_last p nothing e h q i = elim (coordinator_restart p nothing h).3 [
    | inl top ↦ absurd (top.1 e)
    | inr last ↦ last.1 q i
  ]
