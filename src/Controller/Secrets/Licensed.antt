-- ===== src/Controller/Secrets/Licensed.antt =====
-- internal/controller/memgraphdbcluster_controller.go, `reconcileLicense`: what its condition promises.
use kubernetes_operator.Prelude.{
  ℕ, String, ◌≡◌, ◌≢◌, refl, sym, ◌∙◌, ◌⊎◌, inl, inr, true, some, List, [], ◌∷◌, In, eq_iff, arith,
}
use kubernetes_operator.Prelude.Map.{Map, lookup}
use kubernetes_operator.Prelude.Sorted.{Distinct}
use kubernetes_operator.Settings.{
  Change, license_setting, organization_setting, setting_value, license_changes,
}
use kubernetes_operator.Settings.Diffs.{applied}
use kubernetes_operator.Settings.Licenses.{license_changes_nil, license_changes-applied}
use kubernetes_operator.Topology.{Endpoint, Cluster}
use kubernetes_operator.Topology.Apart.{
  data_endpoints-Distinct, coordinator_endpoints-Distinct, roles_apart,
}
use kubernetes_operator.Rollout.Roles.{Pod}
use kubernetes_operator.Controller.Applying.{Instances, Reads, secret_setting}
use kubernetes_operator.Controller.Settling.{
  SettingsOutcome, index_ready, is_ready, Sweep, merge, Part, data_part, coordinator_part, both,
}
use kubernetes_operator.Controller.Settling.Swept.{Clear, merge-Clear, sweep_others, sweep-InLine}
use kubernetes_operator.Controller.Secrets.{
  LicenseSecret, SecretRead, read_license, license_condition, not_license_applied, license_part,
  settle_license, reconcile_license,
}

license_settles :
    (license organization : String) (m : Map String)
    → license_changes license organization (applied (license_changes license organization m) m) ≡ []
license_settles license organization m =
    (license_changes_nil license organization _).1 (license_changes-applied license organization m)

condition-Clear :
    (name : String) (o : SettingsOutcome)
    → (license_condition name o.rejected o.pending).status ≡ "True"
    → Clear o
unfolding license_condition not_license_applied
condition-Clear name o h = from o.rejected o.pending h
  where
    from :
        (rejected pending : List String)
        → (license_condition name rejected pending).status ≡ "True"
        → (pending ≡ []) × (rejected ≡ [])
    from (r ∷ rs) pending h = ground (arith, eq_iff "False" "True")
    from [] (p ∷ ps) h = ground (arith, eq_iff "False" "True")
    from [] [] h = (refl, refl)

-- The pod's settings are known, and they hold the license and the organization.
abbrev pub Licensed : String → String → Endpoint → Reads → Type 0
Licensed license organization e reads =
    (m : Map String) × (lookup e.pod reads ≡ some (inr m))
    × (setting_value m organization_setting ≡ organization)
    × (setting_value m license_setting ≡ license)

-- The endpoint is one of the part's, and its pod is ready.
abbrev pub ReadyOf : Part → Endpoint → Type 0
ReadyOf part e = In e part.endpoints × (is_ready (index_ready part.pods []) e.pod ≡ true)

module _ {S Connection : Type 0} (instances : Instances S Connection) (quote : String → String)
    (ref : LicenseSecret) (read : SecretRead) (data_part coordinator_part : Part) where
  settled-Licensed :
      (license organization : String) (reads : Reads) (s : S)
      → Distinct (λ (e : Endpoint). e.pod) data_part.endpoints
      → Distinct (λ (e : Endpoint). e.pod) coordinator_part.endpoints
      → ((d c : Endpoint)
          → In d data_part.endpoints
          → In c coordinator_part.endpoints
          → d.pod ≢ c.pod)
      → (settle_license instances quote ref data_part coordinator_part
          (inr (license, organization))
          reads
          s).condition.status
        ≡ "True"
      → (e : Endpoint) → ReadyOf data_part e ⊎ ReadyOf coordinator_part e
      → Licensed license organization e
          (settle_license instances quote ref data_part coordinator_part
            (inr (license, organization))
            reads
            s).reads
  unfolding settle_license license_part both
  settled-Licensed license organization reads s data_apart coordinators_apart apart h e which =
      elim which [
        | inl (i, r) ↦
            let (m, known, settled) =
              sweep-InLine instances (secret_setting quote) "SetLicense" plan
                (index_ready data_part.pods []) data_part.endpoints reads s
                (license_settles license organization) data_apart clear.0 e i r in
            (
              m,
              sweep_others instances (secret_setting quote) "SetLicense" plan
                    (index_ready coordinator_part.pods []) coordinator_part.endpoints first.reads
                    first.state e.pod (λ c j same. apart e c i j (sym same))
                  ∙ known,
              ((license_changes_nil license organization m).0 settled).0,
              ((license_changes_nil license organization m).0 settled).1,
            )
        | inr (i, r) ↦
            let (m, known, settled) =
              sweep-InLine instances (secret_setting quote) "SetLicense" plan
                (index_ready coordinator_part.pods []) coordinator_part.endpoints first.reads
                first.state (license_settles license organization) coordinators_apart clear.1 e i
                r in
            let (same_organization, same_license) =
              (license_changes_nil license organization m).0 settled in
            (m, known, same_organization, same_license)
      ]
    where
      plan : Map String → List Change
      plan = license_changes license organization

      first : Sweep S
      first = license_part instances quote license organization data_part reads s

      second : Sweep S
      second =
          license_part instances quote license organization coordinator_part first.reads first.state

      clear : Clear first.outcome × Clear second.outcome
      clear =
          merge-Clear first.outcome second.outcome
            (condition-Clear ref.name (merge first.outcome second.outcome) h)

  -- The two parts may have any endpoints, if no two of these have one pod.
  reconcile_license-Licensed :
      (reads : Reads) (s : S)
      → Distinct (λ (e : Endpoint). e.pod) data_part.endpoints
      → Distinct (λ (e : Endpoint). e.pod) coordinator_part.endpoints
      → ((d c : Endpoint)
          → In d data_part.endpoints
          → In c coordinator_part.endpoints
          → d.pod ≢ c.pod)
      → (reconcile_license instances quote ref read data_part coordinator_part reads
          s).condition.status
        ≡ "True"
      → (license organization : String) × (read_license ref read ≡ inr (license, organization))
        × ((e : Endpoint)
            → ReadyOf data_part e ⊎ ReadyOf coordinator_part e
            → Licensed license organization e
                (reconcile_license instances quote ref read data_part coordinator_part reads
                  s).reads)
  unfolding reconcile_license
  reconcile_license-Licensed reads s data_apart coordinators_apart apart h =
      from (read_license ref read) refl h
    where
      from :
          (o : String ⊎ String × String)
          → read_license ref read ≡ o
          → (settle_license instances quote ref data_part coordinator_part o reads
              s).condition.status
            ≡ "True"
          → (license organization : String) × (read_license ref read ≡ inr (license, organization))
            × ((e : Endpoint)
                → ReadyOf data_part e ⊎ ReadyOf coordinator_part e
                → Licensed license organization e
                    (settle_license instances quote ref data_part coordinator_part o reads s).reads)
      from (inl e) was h =
          unfold settle_license in
          unfold not_license_applied in ground (arith, eq_iff "False" "True")
      from (inr (license, organization)) was h = (
        license,
        organization,
        was,
        settled-Licensed license organization reads s data_apart coordinators_apart apart h,
      )

module _ {S Connection : Type 0} (instances : Instances S Connection) (quote : String → String)
    (ref : LicenseSecret) (read : SecretRead) (cluster : Cluster) (data_count coordinator_count : ℕ)
    (data_pods coordinator_pods : List Pod) where
  -- A pass whose LicenseApplied condition is True read a license and an organization from the Secret, and
  -- then the settings that the pass knows of every ready pod of both roles hold these two values.
  pub license_applied_lem :
      (reads : Reads) (s : S)
      → (reconcile_license instances quote ref read
          (data_part cluster data_count data_pods)
          (coordinator_part cluster coordinator_count coordinator_pods)
          reads
          s).condition.status
        ≡ "True"
      → (license organization : String) × (read_license ref read ≡ inr (license, organization))
        × ((e : Endpoint)
            → ReadyOf (data_part cluster data_count data_pods) e
              ⊎ ReadyOf (coordinator_part cluster coordinator_count coordinator_pods) e
            → Licensed license organization e
                (reconcile_license instances quote ref read
                  (data_part cluster data_count data_pods)
                  (coordinator_part cluster coordinator_count coordinator_pods)
                  reads
                  s).reads)
  license_applied_lem reads s h =
      reconcile_license-Licensed instances quote ref read _ _ reads s
        (data_endpoints-Distinct cluster data_count)
        (coordinator_endpoints-Distinct cluster coordinator_count)
        (roles_apart cluster data_count coordinator_count) h
