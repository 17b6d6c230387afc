-- ===== src/Rollout/Restarts/DataRole.antt =====
-- internal/rollout/rollout.go: which pod of the data role is deleted, a replica or the MAIN, and the
-- guards of each.
use kubernetes_operator.Prelude.{
  String, ◌≡◌, ◌≢◌, refl, ◌⊎◌, inl, inr, true, ◌&&◌, Option, none, some, List, [], ◌∷◌, In, eqb,
  eqb_iff, ◌==◌, eq_iff, Bool-cases, arith,
}
use kubernetes_operator.Prelude.Map.{Map}
use kubernetes_operator.Memgraph.{Instance, ReplicationLag}
use kubernetes_operator.Planner.View.{registered_up, lag_caught_up}
use kubernetes_operator.Rollout.Roles.{Pod, Role, Decision, done, wait, delete, updated, or_go}
use kubernetes_operator.Rollout.{replicating, survivor_loop, restart_main, restart_replica}
use kubernetes_operator.Rollout.Choice.{Waits, Highest, replicating_cases}

-- The pod that a decision deletes.
abbrev pub Deletes : Decision → Pod → Type 0
Deletes done p = ⊥
Deletes (wait reason message) p = ⊥
Deletes (delete q reason message) p = q ≡ p

-- Where the whole deletes, there was nothing to wait for.
pub pass : (o : Option Decision) (d : Decision) (p : Pod) → Waits o → Deletes (or_go o d) p → ⊥
pass none d p w h = w
pass (some done) d p w h = w
pass (some (wait reason message)) d p w h = h
pass (some (delete q reason message)) d p w h = w

-- Another pod whose instance the leader reaches and that holds all of MAIN's transactions.
abbrev pub Survivor : List Pod → String → Map Instance → Map ReplicationLag → Type 0
Survivor ps main instances lags =
    (q : Pod) × In q ps
    × (q.instance_name ≢ main)
    × (registered_up instances q.instance_name ≡ true)
    × (lag_caught_up lags q.instance_name ≡ true)

survivor_loop-Deletes :
    (ps : List Pod) (main : String) (m p : Pod) (instances : Map Instance)
    (lags : Map ReplicationLag)
    → Deletes (survivor_loop ps main m instances lags) p
    → (m ≡ p) × Survivor ps main instances lags
unfolding survivor_loop
survivor_loop-Deletes [] main m p instances lags h = absurd h
survivor_loop-Deletes (x ∷ ps) main m p instances lags h =
    elim (Bool-cases (x.instance_name == main)) [
      | inl skip ↦
          let (e, (q, i, n, u, c)) =
            survivor_loop-Deletes ps main m p instances lags (rw skip at h) in
          (e, (q, inr i, n, u, c))
      | inr other ↦
          elim (Bool-cases
            (registered_up instances x.instance_name && lag_caught_up lags x.instance_name)) [
              | inl fit ↦ (
                rw (other, fit) at h,
                (
                  x,
                  inl refl,
                  λ e. ground (arith, other, (eq_iff x.instance_name main).1 e),
                  ground arith,
                  ground arith,
                ),
              )
              | inr unfit ↦
                  let (e, (q, i, n, u, c)) =
                    survivor_loop-Deletes ps main m p instances lags (rw (other, unfit) at h) in
                  (e, (q, inr i, n, u, c))
            ]
    ]

-- A pod that is not MAIN may go: it is the highest such, and each restarted pod is back.
abbrev pub Replica : Role → List Pod → String → Map Instance → Map ReplicationLag → Pod → Type 0
Replica r pending main instances lags p =
    Highest main (λ q. In q pending) (some p)
    × ((q : Pod)
        → In q (updated r)
        → (registered_up instances q.instance_name ≡ true)
          × (lag_caught_up lags q.instance_name ≡ true))

-- The MAIN may go: nothing else is left, and it is alone or can be replaced.
abbrev pub LastMain : Role → List Pod → String → Map Instance → Map ReplicationLag → Pod → Type 0
LastMain r pending main instances lags p =
    In p pending
    × ((q : Pod) → In q pending → q.instance_name ≡ main)
    × ((r.replicas ≡ 1)
        ⊎ ((registered_up instances main ≡ true) × Survivor r.pods main instances lags))

pub restart_main-Deletes :
    (r : Role) (main : String) (m p : Pod) (instances : Map Instance) (lags : Map ReplicationLag)
    → Deletes (restart_main r main m instances lags) p
    → (m ≡ p)
      × ((r.replicas ≡ 1)
          ⊎ ((registered_up instances main ≡ true) × Survivor r.pods main instances lags))
unfolding restart_main
restart_main-Deletes r main m p instances lags h = elim (Bool-cases (eqb r.replicas 1)) [
  | inl one ↦ (rw one at h, inl ((eqb_iff r.replicas 1).0 one))
  | inr more ↦ elim (Bool-cases (registered_up instances main)) [
    | inr down ↦ absurd (rw (more, down) at h)
    | inl up ↦
        let (e, s) = survivor_loop-Deletes r.pods main m p instances lags (rw (more, up) at h) in
        (e, inr (up, s))
  ]
]

pub restart_replica-Deletes :
    (r : Role) (m p : Pod) (instances : Map Instance) (lags : Map ReplicationLag)
    → Deletes (restart_replica r m instances lags) p
    → (m ≡ p)
      × ((q : Pod)
          → In q (updated r)
          → (registered_up instances q.instance_name ≡ true)
            × (lag_caught_up lags q.instance_name ≡ true))
unfolding restart_replica
restart_replica-Deletes r m p instances lags h =
    elim (replicating_cases (updated r) instances lags) [
      | inr w ↦ absurd (pass (replicating (updated r) instances lags) _ p w h)
      | inl (e, back) ↦ (rw e at h, back)
    ]
