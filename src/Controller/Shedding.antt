-- ===== src/Controller/Shedding.antt =====
-- internal/controller/memgraphdbcluster_controller.go, `reconcileRegistration`: what stands behind
-- a pass that sheds pods, and behind one that goes on.
use Prim.Native.String as Text
use text.Mathlib.TextLemmas.{append-eq-nil_iff}
use kubernetes_operator.Prelude.{
  String, ◌≡◌, ◌≢◌, ◌↔◌, refl, sym, subst, inl, inr, Bool, true, false, Option, none, some, List,
  [], ◌∷◌, ◌++◌, map, In, ◌==◌, eq_iff, Bool-cases, concat, join,
}
use kubernetes_operator.Memgraph.{
  Instance, CoordinatorSpec, DataInstanceSpec, ReplicationLag, coordinator_name,
}
use kubernetes_operator.Planner.Commands.{Command}
use kubernetes_operator.Planner.View.{Topology, index, coordinator_registered}
use kubernetes_operator.Planner.{plan, retired}
use kubernetes_operator.Planner.Observed.{row_instance_registered}
use kubernetes_operator.Planner.Retirement.{retired_instance, retired_coordinator}
use kubernetes_operator.Controller.Registration.{
  retiring_part, retiring_text, retirement_message, Pass, waits_for_workloads, waits_for_leader,
  waits_for_survivor, sheds, settles, registers, pass_without_commands, pass_commands,
  pass_observed, registration_pass,
}

-- The pass sheds.
abbrev pub Sheds : Pass → Type 0
Sheds waits_for_workloads = ⊥
Sheds waits_for_leader = ⊥
Sheds waits_for_survivor = ⊥
Sheds (sheds sets) = Unit
Sheds settles = ⊥
Sheds (registers commands) = ⊥

-- The pass goes on to the settings and the rolling restart.
abbrev pub Settles : Pass → Type 0
Settles waits_for_workloads = ⊥
Settles waits_for_leader = ⊥
Settles waits_for_survivor = ⊥
Settles (sheds sets) = ⊥
Settles settles = Unit
Settles (registers commands) = ⊥

begun_empty : (s : String) → Text.◌++◌ "Retiring " s ≡ "" → ⊥
begun_empty s e =
    let blank : "Retiring " ≡ "" = (append-eq-nil_iff.0 e).0 in
    let test : ("Retiring " == "") ≡ true = (eq_iff "Retiring " "").1 blank in cc

retiring_text_some : (r : String) (rs : List String) → (retiring_text (r ∷ rs) == "") ≡ false
unfolding retiring_text concat
retiring_text_some r rs = elim (Bool-cases (retiring_text (r ∷ rs) == "")) [
  | inr f ↦ f
  | inl t ↦ absurd (
      begun_empty (Text.◌++◌ (join " and " (r ∷ rs)) (Text.◌++◌ " before their pods are shed" ""))
        ((eq_iff (retiring_text (r ∷ rs)) "").0 t))
]

-- The message is empty only if no member retires.
parts_empty :
    (cs : List CoordinatorSpec) (ds : List DataInstanceSpec)
    → (retiring_text (
          retiring_part "coordinator(s) " (map coordinator_name cs)
          ++ retiring_part "data instance(s) " (map (λ (d : DataInstanceSpec). d.name) ds))
        == "")
      ≡ true
    → (cs ≡ []) × (ds ≡ [])
unfolding retiring_part
parts_empty [] [] h = (refl, refl)
parts_empty [] (d ∷ ds) h = absurd (clash (retiring_text_some _ []) h)
  where
    clash : {b : Bool} → b ≡ false → b ≡ true → ⊥
    clash p q = cc
parts_empty (c ∷ cs) ds h = absurd (clash (retiring_text_some _ _) h)
  where
    clash : {b : Bool} → b ≡ false → b ≡ true → ⊥
    clash p q = cc

no_commands-Sheds :
    (t : Topology) (rows : List Instance) (cset dset : String)
    → Sheds (pass_without_commands t rows cset dset)
    → retired t rows ≡ true
unfolding pass_without_commands
no_commands-Sheds t rows cset dset h = elim (Bool-cases (retirement_message t == "")) [
  | inl none_retire ↦ absurd (rw none_retire at h)
  | inr retiring ↦ elim (Bool-cases (retired t rows)) [
    | inl gone ↦ gone
    | inr left ↦ absurd (rw (retiring, left) at h)
  ]
]

no_commands-Settles :
    (t : Topology) (rows : List Instance) (cset dset : String)
    → Settles (pass_without_commands t rows cset dset)
    → (t.retiring_coordinators ≡ []) × (t.retiring_data_instances ≡ [])
unfolding pass_without_commands retirement_message
no_commands-Settles t rows cset dset h = elim (Bool-cases (retirement_message t == "")) [
  | inl none_retire ↦ parts_empty t.retiring_coordinators t.retiring_data_instances none_retire
  | inr retiring ↦ elim (Bool-cases (retired t rows)) [
    | inl gone ↦ absurd (rw (retiring, gone) at h)
    | inr left ↦ absurd (rw (retiring, left) at h)
  ]
]

module _ (t : Topology) (lag : List ReplicationLag) (coordinator_set data_set : String) where
  -- The pass, once its reads were made.
  abbrev pub pass : Bool → Option (List Instance) → Pass
  pass ready o = registration_pass ready t o lag coordinator_set data_set

  pub planned-Sheds :
      (rows : List Instance) (cs : List Command)
      → plan t rows lag ≡ cs
      → Sheds (pass_commands cs t rows coordinator_set data_set)
      → (plan t rows lag ≡ []) × (retired t rows ≡ true)
  unfolding pass_commands
  planned-Sheds rows [] e h = (e, no_commands-Sheds t rows coordinator_set data_set h)
  planned-Sheds rows (c ∷ cs) e h = absurd h

  planned-Settles :
      (rows : List Instance) (cs : List Command)
      → plan t rows lag ≡ cs
      → Settles (pass_commands cs t rows coordinator_set data_set)
      → (plan t rows lag ≡ []) × (t.retiring_coordinators ≡ []) × (t.retiring_data_instances ≡ [])
  unfolding pass_commands
  planned-Settles rows [] e h =
      let (coordinators, data_instances) = no_commands-Settles t rows coordinator_set data_set h in
      (e, coordinators, data_instances)
  planned-Settles rows (c ∷ cs) e h = absurd h

  -- A pass sheds pods only if the workloads are ready, the leader's view was read, nothing is left to
  -- plan against it, and the retirement is done.
  pub Sheds-retired :
      (ready : Bool) (o : Option (List Instance))
      → Sheds (pass ready o)
      → (ready ≡ true)
        × ((rows : List Instance) × (o ≡ some rows)
            × (plan t rows lag ≡ [])
            × (retired t rows ≡ true))
  unfolding registration_pass pass_observed
  Sheds-retired false o h = absurd h
  Sheds-retired true none h = absurd h
  Sheds-retired true (some rows) h =
      let (nothing, gone) = planned-Sheds rows (plan t rows lag) refl h in
      (refl, (rows, refl, nothing, gone))

  -- Where a pass sheds pods, no row of the view that it read is named like a data instance that retires.
  pub shed_instance_gone :
      (ready : Bool) (rows : List Instance) (d : DataInstanceSpec) (i : Instance)
      → Sheds (pass ready (some rows))
      → In d t.retiring_data_instances
      → In i rows
      → i.name ≢ d.name
  shed_instance_gone ready rows d i h j k named =
      let (_, (others, same, _, gone)) = Sheds-retired ready (some rows) h in
      let rows_same : others ≡ rows = cc in
      let done : retired t rows ≡ true = subst (λ r. retired t r ≡ true) rows_same gone in
      let absent = retired_instance t rows done d j in
      let here = row_instance_registered rows d.name i k named in cc

  -- Where a pass sheds pods, no coordinator that retires is registered.
  pub shed_coordinator_gone :
      (ready : Bool) (rows : List Instance) (c : CoordinatorSpec)
      → Sheds (pass ready (some rows))
      → In c t.retiring_coordinators
      → coordinator_registered (index rows) c ≡ false
  shed_coordinator_gone ready rows c h j =
      let (_, (others, same, _, gone)) = Sheds-retired ready (some rows) h in
      let rows_same : others ≡ rows = cc in
      retired_coordinator t rows (subst (λ r. retired t r ≡ true) rows_same gone) c j

  -- A pass goes on to a rolling restart only if the workloads are ready, the leader's view was read,
  -- nothing is left to plan against it, and no member retires.
  pub Settles-converged :
      (ready : Bool) (o : Option (List Instance))
      → Settles (pass ready o)
      → (ready ≡ true)
        × ((rows : List Instance) × (o ≡ some rows) × (plan t rows lag ≡ []))
        × (t.retiring_coordinators ≡ [])
        × (t.retiring_data_instances ≡ [])
  unfolding registration_pass pass_observed
  Settles-converged false o h = absurd h
  Settles-converged true none h = absurd h
  Settles-converged true (some rows) h =
      let (nothing, coordinators, data_instances) = planned-Settles rows (plan t rows lag) refl h in
      (refl, (rows, refl, nothing), coordinators, data_instances)

  -- Once there is a view, a pass goes on exactly if nothing is left to plan and no member retires.
  pub settles_iff :
      (rows : List Instance)
      → (pass_commands (plan t rows lag) t rows coordinator_set data_set ≡ settles) ↔ (
          (plan t rows lag ≡ [])
          × (t.retiring_coordinators ≡ [])
          × (t.retiring_data_instances ≡ []))
  unfolding pass_commands pass_without_commands retirement_message retiring_part retiring_text
  settles_iff rows = (
    λ h. planned-Settles rows (plan t rows lag) refl (subst Settles (sym h) tt),
    λ (nothing, coordinators, data_instances). rw (nothing, coordinators, data_instances) refl,
  )
