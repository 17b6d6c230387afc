-- ===== src/Controller/Applying/Settled.antt =====
-- internal/controller/memgraphdbcluster_controller.go, `applySettings`: the settings of a pod once all
-- its changes landed.
use kubernetes_operator.Prelude.{
  String, ◌≡◌, ◌≢◌, refl, ap, ◌∙◌, ◌⊎◌, inl, inr, Option, none, some, List, [], ◌∷◌, ◌==◌, eq_iff,
  Bool-cases,
}
use kubernetes_operator.Prelude.Map.{Map, lookup, insert, lookup-insert}
use kubernetes_operator.Settings.{Change}
use kubernetes_operator.Settings.Diffs.{applied}
use kubernetes_operator.Topology.{Endpoint}
use kubernetes_operator.Controller.Applying.{
  Instances, Read, Reads, landed, Setting, kept_read, observed_settings, set_next, set_changes,
  apply_over, apply_planned, apply_read, apply_settings,
}
use kubernetes_operator.Controller.Applying.Once.{observed_entry}

lookup_self :
    (name : String) (r : Read) (reads : Reads) → lookup name (insert name r reads) ≡ some r
lookup_self name r reads = lookup-insert name name r reads ∙ rw ((eq_iff name name).1 refl) refl

lookup_other :
    (name other : String) (r : Read) (reads : Reads)
    → other ≢ name
    → lookup name (insert other r reads) ≡ lookup name reads
lookup_other name other r reads n = elim (Bool-cases (other == name)) [
  | inl t ↦ absurd (n ((eq_iff other name).0 t))
  | inr f ↦ lookup-insert other name r reads ∙ rw f refl
]

module _ {S Connection : Type 0} (instances : Instances S Connection)
    (describe : Change → String) where
  next_landed :
      (x : Change) (xs : List Change) (known : Map String) (o : Option String × S)
      (next : Map String → S → Setting S)
      → ((m : Map String) (s : S) → (next m s).ending ≡ landed → (next m s).known ≡ applied xs m)
      → (set_next instances describe x known o next).ending ≡ landed
      → (set_next instances describe x known o next).known ≡ applied (x ∷ xs) known
  unfolding set_next applied
  next_landed x xs known (some e, s) next same h = cc
  next_landed x xs known (none, s) next same h = same _ s h

  set_changes_landed :
      (c : Connection) (xs : List Change) (known : Map String) (s : S)
      → (set_changes instances describe c xs known s).ending ≡ landed
      → (set_changes instances describe c xs known s).known ≡ applied xs known
  unfolding set_changes applied
  set_changes_landed c [] known s h = refl
  set_changes_landed c (x ∷ xs) known s h =
      next_landed x xs known (instances.set_setting c x.setting x.value s)
        (set_changes instances describe c xs) (λ m s'. set_changes_landed c xs m s') h

  module _ (action : String) (e : Endpoint) (plan : Map String → List Change) where
    -- The pod's settings are known, and nothing is left to change.
    abbrev pub InLine : Reads → Type 0
    InLine reads = (m : Map String) × (lookup e.pod reads ≡ some (inr m)) × (plan m ≡ [])

    over_landed :
        (cs : List Change) (known : Map String) (reads : Reads) (o : (String ⊎ Connection) × S)
        → plan (applied cs known) ≡ []
        → (apply_over instances describe action e cs known reads o).ending ≡ landed
        → InLine (apply_over instances describe action e cs known reads o).reads
    unfolding apply_over
    over_landed cs known reads (inl err, s) settled h = cc
    over_landed cs known reads (inr c, s) settled h = (
      (set_changes instances describe c cs known s).known,
      lookup_self e.pod _ reads,
      ap plan (set_changes_landed c cs known s h) ∙ settled,
    )

    planned_landed :
        (cs : List Change) (known : Map String) (reads : Reads) (s : S)
        → plan known ≡ cs
        → plan (applied cs known) ≡ []
        → lookup e.pod reads ≡ some (inr known)
        → (apply_planned instances describe action e cs known reads s).ending ≡ landed
        → InLine (apply_planned instances describe action e cs known reads s).reads
    unfolding apply_planned
    planned_landed [] known reads s none_left settled here h = (known, here, none_left)
    planned_landed (x ∷ xs) known reads s planned settled here h =
        over_landed (x ∷ xs) known reads (instances.connect e.address e.tls s) settled h

    read_landed :
        (o : Read × Reads × S)
        → ((m : Map String) → plan (applied (plan m) m) ≡ [])
        → lookup e.pod o.1 ≡ some o.0
        → (apply_read instances describe action e plan o).ending ≡ landed
        → InLine (apply_read instances describe action e plan o).reads
    unfolding apply_read
    read_landed (inl err, reads, s) settles here h = cc
    read_landed (inr known, reads, s) settles here h =
        planned_landed (plan known) known reads s refl (settles known) here h

    -- Where all the changes land, the pod is in line, if the changes that are planned leave nothing to
    -- plan once they are made.
    pub apply_settings-InLine :
        (reads : Reads) (s : S)
        → ((m : Map String) → plan (applied (plan m) m) ≡ [])
        → (apply_settings instances describe action e plan reads s).ending ≡ landed
        → InLine (apply_settings instances describe action e plan reads s).reads
    unfolding apply_settings
    apply_settings-InLine reads s settles h =
        read_landed (observed_settings instances e reads s) settles
          (observed_entry instances e reads s) h

    over_others :
        (cs : List Change) (known : Map String) (reads : Reads) (o : (String ⊎ Connection) × S)
        (name : String)
        → e.pod ≢ name
        → lookup name (apply_over instances describe action e cs known reads o).reads
          ≡ lookup name reads
    unfolding apply_over
    over_others cs known reads (inl err, s) name n = refl
    over_others cs known reads (inr c, s) name n = lookup_other name e.pod _ reads n

    planned_others :
        (cs : List Change) (known : Map String) (reads : Reads) (s : S) (name : String)
        → e.pod ≢ name
        → lookup name (apply_planned instances describe action e cs known reads s).reads
          ≡ lookup name reads
    unfolding apply_planned
    planned_others [] known reads s name n = refl
    planned_others (x ∷ xs) known reads s name n =
        over_others (x ∷ xs) known reads (instances.connect e.address e.tls s) name n

    read_others :
        (o : Read × Reads × S) (name : String)
        → e.pod ≢ name
        → lookup name (apply_read instances describe action e plan o).reads ≡ lookup name o.1
    unfolding apply_read
    read_others (inl err, reads, s) name n = refl
    read_others (inr known, reads, s) name n = planned_others (plan known) known reads s name n

    -- What is known of the other pods stays.
    pub apply_settings_others :
        (reads : Reads) (s : S) (name : String)
        → e.pod ≢ name
        → lookup name (apply_settings instances describe action e plan reads s).reads
          ≡ lookup name reads
    unfolding apply_settings observed_settings
    apply_settings_others reads s name n =
        read_others (observed_settings instances e reads s) name n ∙ observed (lookup e.pod reads)
      where
        observed :
            (o : Option Read) → lookup name (kept_read instances e o reads s).1 ≡ lookup name reads
        observed (some r) = refl
        observed none = lookup_other name e.pod _ reads n
