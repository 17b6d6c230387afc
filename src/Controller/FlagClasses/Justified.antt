-- ===== src/Controller/FlagClasses/Justified.antt =====
-- internal/controller/memgraphdbcluster_controller.go and internal/rollout/rollout.go: the roll that
-- follows `exemptCurrentPods`, and what a pod is restarted for.
use kubernetes_operator.Prelude.{
  String, ◌≡◌, refl, sym, ap, ◌∙◌, subst, ◌⊎◌, inl, inr, true, false, not, ◌||◌, List, [], ◌∷◌, In,
  In_of_In-filter, append_nil_iff, ◌==◌, Bool-cases, arith,
}
use kubernetes_operator.Prelude.Map.{Map}
use kubernetes_operator.Prelude.Ranges.{Entries}
use kubernetes_operator.Prelude.Sorted.{sort_by, In-sort_by}
use kubernetes_operator.Memgraph.{Instance, ReplicationLag}
use kubernetes_operator.Planner.View.{is_empty}
use kubernetes_operator.Rollout.{Range, next}
use kubernetes_operator.Rollout.Roles.{Pod, Role, is_outdated, outdated}
use kubernetes_operator.Rollout.Restarts.DataRole.{Deletes}
use kubernetes_operator.Rollout.Order.{Deletes-outdated}
use kubernetes_operator.Settings.{classify, setting_value}
use kubernetes_operator.Settings.Classes.{Named, is_flag, classify_iff}
use kubernetes_operator.Flags.{changed_flags}
use kubernetes_operator.Controller.FlagClasses.{RolloutRoles, FlagClasses, on_template}
use kubernetes_operator.Controller.FlagClasses.Exempting.{
  exempt_changed, exempt_pod, exempt_pods, exempt_role, compact, exempt_current_pods,
}

sorted_nil : (ks : List String) → sort_by (λ s. s) ks ≡ [] → ks ≡ []
sorted_nil [] h = refl
sorted_nil (k ∷ ks) h =
    let i = (In-sort_by (λ s. s) k (k ∷ ks)).1 (inl refl) in
    absurd (subst (λ (l : List String). In k l) h i)

compact_nil : (ks : List String) → compact ks ≡ [] → ks ≡ []
unfolding compact
compact_nil [] h = refl
compact_nil (k ∷ ks) h = cc

module _ (range : Map String → Entries String) (roles : RolloutRoles) (classes : FlagClasses) where
  -- What a pod is restarted for: its template differs from the role's in more than the flags, or its
  -- flags differ in no key at all, or in one that the running Memgraph has as a flag.
  abbrev pub Reason : String → String → Pod → Type 0
  Reason flags template p =
      (on_template roles.pod_templates p.name template ≡ false)
      ⊎ ((changed_flags range (setting_value roles.pod_flags p.name) flags ≡ [])
          ⊎ ((n : String) × Named (changed_flags range (setting_value roles.pod_flags p.name) flags)
                n
              × (is_flag classes.config classes.coordinator_settings n ≡ true)))

  some_flag :
      (keys : List String)
      → is_empty (classify keys classes.config classes.coordinator_settings).flags ≡ false
      → (n : String) × Named keys n × (is_flag classes.config classes.coordinator_settings n ≡ true)
  unfolding is_empty
  some_flag keys h =
      from (classify keys classes.config classes.coordinator_settings).flags
        (λ n. ((classify_iff classes.config classes.coordinator_settings keys n).0).0) h
    where
      from :
          (flags : List String)
          → ((n : String)
              → In n flags
              → Named keys n × (is_flag classes.config classes.coordinator_settings n ≡ true))
          → is_empty flags ≡ false
          → (n : String) × Named keys n
            × (is_flag classes.config classes.coordinator_settings n ≡ true)
      from [] sorted h = cc
      from (n ∷ ns) sorted h = let (named, flag) = sorted n (inl refl) in (n, named, flag)

  changed_reason :
      (p : Pod) (ks : List String)
      → (exempt_changed range roles classes p ks).1 ≡ []
      → (exempt_changed range roles classes p ks).0.current ≡ false
      → (ks ≡ [])
        ⊎ ((n : String) × Named ks n
            × (is_flag classes.config classes.coordinator_settings n ≡ true))
  unfolding exempt_changed
  changed_reason p [] settled h = inl refl
  changed_reason p (k ∷ ks) settled h = elim (Bool-cases classes.config_known) [
    | inr unknown ↦ let never : k ∷ ks ≡ [] = rw unknown at settled in cc
    | inl known ↦ elim (Bool-cases classes.coordinator_settings_known) [
      | inr unknown ↦ let never : k ∷ ks ≡ [] = rw (known, unknown) at settled in cc
      | inl both ↦ inr (some_flag (k ∷ ks) (rw (known, both) at h))
    ]
  ]

  exempt_changed-name :
      (p : Pod) (ks : List String)
      → ((exempt_changed range roles classes p ks).0.name ≡ p.name)
        × ((exempt_changed range roles classes p ks).0.revision_hash ≡ p.revision_hash)
  unfolding exempt_changed
  exempt_changed-name p [] = (refl, refl)
  exempt_changed-name p (k ∷ ks) =
      elim (Bool-cases (not classes.config_known || not classes.coordinator_settings_known)) [
        | inl t ↦ rw t (refl, refl)
        | inr f ↦ rw f (refl, refl)
      ]

  pod-Reason :
      (flags template revision : String) (p : Pod)
      → (exempt_pod range roles classes flags template revision p).1 ≡ []
      → (exempt_pod range roles classes flags template revision p).0.current ≡ false
      → ((exempt_pod range roles classes flags template revision p).0.revision_hash == "") ≡ false
      → ((exempt_pod range roles classes flags template revision p).0.revision_hash == revision)
        ≡ false
      → Reason flags template (exempt_pod range roles classes flags template revision p).0
  unfolding exempt_pod
  pod-Reason flags template revision p =
      elim (Bool-cases (p.revision_hash == "" || (p.revision_hash == revision))) [
        | inl settled ↦ rw settled (λ none_left stale full other. ground arith)
        | inr open_ ↦ elim (Bool-cases (on_template roles.pod_templates p.name template)) [
          | inr off ↦ rw (open_, off) (λ none_left stale full other. inl off)
          | inl on ↦
              rw (open_, on)
                (λ none_left stale full other.
                  let keys = changed_flags range (setting_value roles.pod_flags p.name) flags in
                  let (name, _) = exempt_changed-name p keys in
                  subst
                    (λ n.
                      (on_template roles.pod_templates n template ≡ false)
                      ⊎ ((changed_flags range (setting_value roles.pod_flags n) flags ≡ [])
                          ⊎ ((m : String) × Named
                                (changed_flags range (setting_value roles.pod_flags n) flags) m
                              × (is_flag classes.config classes.coordinator_settings m ≡ true))))
                    (sym name) (inr (changed_reason p keys none_left stale)))
        ]
      ]

  exempted_from :
      (flags template revision : String) (ps : List Pod) (q : Pod)
      → In q (exempt_pods range roles classes flags template revision ps).0
      → (exempt_pods range roles classes flags template revision ps).1 ≡ []
      → (p : Pod) × ((exempt_pod range roles classes flags template revision p).0 ≡ q)
        × ((exempt_pod range roles classes flags template revision p).1 ≡ [])
  unfolding exempt_pods
  exempted_from flags template revision [] q i h = absurd i
  exempted_from flags template revision (p ∷ ps) q i h =
      let (here, later) =
        (append_nil_iff (exempt_pod range roles classes flags template revision p).1
            (exempt_pods range roles classes flags template revision ps).1).0
          h in
      elim i [ inl e ↦ (p, e, here) | inr j ↦ exempted_from flags template revision ps q j later ]

  role-Reason :
      (flags template : String) (r : Role) (q : Pod)
      → (exempt_role range roles classes flags template r).1 ≡ []
      → In q (outdated (exempt_role range roles classes flags template r).0)
      → Reason flags template q
  unfolding exempt_role outdated is_outdated
  role-Reason flags template r q settled i = elim (Bool-cases (r.update_revision == "")) [
    | inl t ↦ absurd (rw t at i)
    | inr f ↦
        let (there, stale) = In_of_In-filter _ q _ (rw f at i) in
        let (p, same, here) =
          exempted_from flags template r.update_revision r.pods q there settled in
        subst (Reason flags template) same (
          pod-Reason flags template r.update_revision p here
            (ap (λ (x : Pod). x.current) same ∙ ground arith)
            (ap (λ (x : Pod). x.revision_hash == "") same ∙ ground arith)
            (ap (λ (x : Pod). x.revision_hash == r.update_revision) same ∙ ground arith))
  ]

  -- Where the roll goes on after `exemptCurrentPods`, which then leaves no key to wait for, the pod that
  -- it deletes is outdated and there is a reason: its template differs from its role's in more than the
  -- flags, or its flags differ in no key, or in one that SHOW CONFIG has or hides. It is never deleted
  -- for coordinator settings and names that Memgraph does not have alone.
  pub restart_justified :
      (order : Range) (observed : List Instance) (lag : List ReplicationLag) (p : Pod)
      → (exempt_current_pods range roles classes).1 ≡ []
      → Deletes
          (next order
            (exempt_current_pods range roles classes).0.data_role
            (exempt_current_pods range roles classes).0.coordinators
            observed
            lag)
          p
      → (In p (outdated (exempt_current_pods range roles classes).0.data_role)
          × Reason roles.data_flags roles.data_template p)
        ⊎ (In p (outdated (exempt_current_pods range roles classes).0.coordinators)
            × Reason roles.coordinator_flags roles.coordinator_template p)
  unfolding exempt_current_pods
  restart_justified order observed lag p settled h =
      let (first, second) = (append_nil_iff _ _).0 (sorted_nil _ (compact_nil _ settled)) in
      elim (Deletes-outdated order _ _ observed lag p h).1 [
        | inl i ↦
            inl (i, role-Reason roles.data_flags roles.data_template roles.data_role p first i)
        | inr (_, _, i) ↦ inr (
          i,
          role-Reason roles.coordinator_flags roles.coordinator_template roles.coordinators p second
              i,
        )
      ]
