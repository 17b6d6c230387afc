-- ===== src/Controller/Applying/Opened.antt =====
-- internal/controller/memgraphdbcluster_controller.go, `readInstance` and `applySettings`: the connections
-- to pods that they leave open, and the loops over them.
use kubernetes_operator.Prelude.{
  ℕ, suc, ◌-◌, String, ◌≡◌, ap, ◌∙◌, Bool, ◌⊎◌, inl, inr, Option, none, some, List, [], ◌∷◌, ◌==◌,
  Bool-cases, arith,
}
use kubernetes_operator.Prelude.Map.{Map, lookup}
use kubernetes_operator.Prelude.Ranges.{Entries}
use kubernetes_operator.Settings.{Change}
use kubernetes_operator.Topology.{Endpoint}
use kubernetes_operator.Controller.Leader.Connections.{connected}
use kubernetes_operator.Controller.Applying.{
  Instances, Read, Reads, Setting, read_over, read_instance, kept_read, observed_settings, set_next,
  set_changes, apply_over, apply_planned, apply_read, apply_settings,
}
use kubernetes_operator.Controller.Settling.{swept, sweep, is_ready, Part, both, reconcile_settings}
use kubernetes_operator.Controller.Secrets.{SecretRead, settle_aws, reconcile_aws}

-- How the operations of the pods' connections change the number of the open ones.
pub record Opens {S Connection : Type 0} (instances : Instances S Connection) (opened : S → ℕ)
    : Type 0 where
  pub connects :
      (address : String) (tls : Bool) (s : S)
      → opened (instances.connect address tls s).1
        ≡ connected (instances.connect address tls s).0 (opened s)
  pub shows_settings : (c : Connection) (s : S) → opened (instances.show_settings c s).1 ≡ opened s
  pub shows_config : (c : Connection) (s : S) → opened (instances.show_config c s).1 ≡ opened s
  pub sets :
      (c : Connection) (k v : String) (s : S) → opened (instances.set_setting c k v s).1 ≡ opened s
  pub closes : (c : Connection) (s : S) → opened (instances.close c s).1 ≡ opened s - 1

module _ {S Connection : Type 0} (instances : Instances S Connection) (opened : S → ℕ)
    (opens : Opens instances opened) where
  connects_count :
      (e : Endpoint) (s : S) (n : ℕ)
      → opened s ≡ n
      → opened (instances.connect e.address e.tls s).1
        ≡ connected (instances.connect e.address e.tls s).0 n
  connects_count e s n h =
      opens.connects e.address e.tls s ∙ ap (connected (instances.connect e.address e.tls s).0) h

  closes_one :
      (c : Connection) (s : S) (n : ℕ) → opened s ≡ suc n → opened (instances.close c s).1 ≡ n
  closes_one c s n h = omega (arith, opens.closes c s, h)

  read_over-opened :
      (query : Connection → S → Read × S) (o : (String ⊎ Connection) × S) (n : ℕ)
      → ((c : Connection) (s : S) → opened (query c s).1 ≡ opened s)
      → opened o.1 ≡ connected o.0 n
      → opened (read_over instances query o).1 ≡ n
  unfolding read_over
  read_over-opened query (inl e, s) n keeps h = h
  read_over-opened query (inr c, s) n keeps h = closes_one c (query c s).1 n (keeps c s ∙ h)

  pub read_instance-opened :
      (query : Connection → S → Read × S) (e : Endpoint) (s : S) (n : ℕ)
      → ((c : Connection) (s : S) → opened (query c s).1 ≡ opened s)
      → opened s ≡ n
      → opened (read_instance instances query e s).1 ≡ n
  unfolding read_instance
  read_instance-opened query e s n keeps h =
      read_over-opened query (instances.connect e.address e.tls s) n keeps (connects_count e s n h)

  kept_read-opened :
      (e : Endpoint) (o : Option Read) (reads : Reads) (s : S) (n : ℕ)
      → opened s ≡ n
      → opened (kept_read instances e o reads s).2 ≡ n
  unfolding kept_read
  kept_read-opened e (some r) reads s n h = h
  kept_read-opened e none reads s n h =
      read_instance-opened instances.show_settings e s n opens.shows_settings h

  module _ (describe : Change → String) where
    set_next-opened :
        (c : Change) (known : Map String) (o : Option String × S)
        (next : Map String → S → Setting S) (n : ℕ)
        → ((m : Map String) (s : S) → opened s ≡ n → opened (next m s).state ≡ n)
        → opened o.1 ≡ n
        → opened (set_next instances describe c known o next).state ≡ n
    unfolding set_next
    set_next-opened c known (some e, s) next n after h = h
    set_next-opened c known (none, s) next n after h = after _ s h

    set_changes-opened :
        (c : Connection) (xs : List Change) (n : ℕ) (known : Map String) (s : S)
        → opened s ≡ n
        → opened (set_changes instances describe c xs known s).state ≡ n
    unfolding set_changes
    set_changes-opened c [] n known s h = h
    set_changes-opened c (x ∷ xs) n known s h =
        set_next-opened x known (instances.set_setting c x.setting x.value s)
          (set_changes instances describe c xs) n (set_changes-opened c xs n)
          (opens.sets c x.setting x.value s ∙ h)

    apply_over-opened :
        (action : String) (e : Endpoint) (changes : List Change) (known : Map String)
        (reads : Reads) (o : (String ⊎ Connection) × S) (n : ℕ)
        → opened o.1 ≡ connected o.0 n
        → opened (apply_over instances describe action e changes known reads o).state ≡ n
    unfolding apply_over
    apply_over-opened action e changes known reads (inl err, s) n h = h
    apply_over-opened action e changes known reads (inr c, s) n h =
        closes_one c (set_changes instances describe c changes known s).state n
          (set_changes-opened c changes (suc n) known s h)

    apply_read-opened :
        (action : String) (e : Endpoint) (plan : Map String → List Change) (o : Read × Reads × S)
        (n : ℕ)
        → opened o.2 ≡ n
        → opened (apply_read instances describe action e plan o).state ≡ n
    unfolding apply_read
    apply_read-opened action e plan (inl err, reads, s) n h = h
    apply_read-opened action e plan (inr known, reads, s) n h = planned (plan known)
      where
        planned :
            (changes : List Change)
            → opened (apply_planned instances describe action e changes known reads s).state ≡ n
        planned [] = unfold apply_planned in h
        planned (x ∷ xs) =
            unfold apply_planned in
            apply_over-opened action e (x ∷ xs) known reads (instances.connect e.address e.tls s) n
              (connects_count e s n h)

    pub apply_settings-opened :
        (action : String) (e : Endpoint) (plan : Map String → List Change) (reads : Reads) (s : S)
        (n : ℕ)
        → opened s ≡ n
        → opened (apply_settings instances describe action e plan reads s).state ≡ n
    unfolding apply_settings observed_settings
    apply_settings-opened action e plan reads s n h =
        apply_read-opened action e plan _ n (kept_read-opened e (lookup e.pod reads) reads s n h)

    pub sweep-opened :
        (action : String) (plan : Map String → List Change) (ready : Map Bool) (es : List Endpoint)
        (n : ℕ) (reads : Reads) (s : S)
        → opened s ≡ n
        → opened (sweep instances describe action plan ready es reads s).state ≡ n
    unfolding sweep swept
    sweep-opened action plan ready [] n reads s h = h
    sweep-opened action plan ready (e ∷ es) n reads s h = elim (Bool-cases (is_ready ready e.pod)) [
      | inl up ↦ rw up (
          sweep-opened action plan ready es n _ _ (apply_settings-opened action e plan reads s n h))
      | inr down ↦ rw down (sweep-opened action plan ready es n reads s h)
    ]

  module _ (quote : String → String) (range : Map String → Entries String) where
    pub reconcile_settings-opened :
        (data_role coordinators : Part) (data_flags coordinator_flags : Map String) (reads : Reads)
        (s : S) (n : ℕ)
        → opened s ≡ n
        → opened
            (reconcile_settings instances quote range data_role coordinators data_flags
              coordinator_flags reads s).state
          ≡ n
    unfolding reconcile_settings both
    reconcile_settings-opened data_role coordinators data_flags coordinator_flags reads s n h =
        sweep-opened _ _ _ _ coordinators.endpoints n _ _
          (sweep-opened _ _ _ _ data_role.endpoints n reads s h)

    pub reconcile_aws-opened :
        (name : String) (read : SecretRead) (part : Part) (reads : Reads) (s : S) (n : ℕ)
        → opened s ≡ n
        → opened (reconcile_aws instances quote range name read part reads s).state ≡ n
    unfolding reconcile_aws
    reconcile_aws-opened name read part reads s n h = elim (Bool-cases (name == "")) [
      | inl t ↦ rw t h
      | inr f ↦ rw f (settled _)
    ]
      where
        settled :
            (desired : String ⊎ Map String)
            → opened (settle_aws instances quote range part desired reads s).state ≡ n
        settled (inl e) = unfold settle_aws in h
        settled (inr desired) = unfold settle_aws in sweep-opened _ _ _ _ part.endpoints n reads s h
