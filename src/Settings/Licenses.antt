-- ===== src/Settings/Licenses.antt =====
-- internal/settings/secrets.go, `License`: what it changes and where the changes lead.
use kubernetes_operator.Prelude.{
  String, ◌≡◌, refl, ◌∙◌, ◌↔◌, inl, inr, [], ◌==◌, eq_iff, Bool-cases, if◌then◌else◌, arith,
}
use kubernetes_operator.Prelude.Map.{Map, insert, lookup-insert}
use kubernetes_operator.Settings.{
  license_setting, organization_setting, setting_value, change_unless, license_changes,
}
use kubernetes_operator.Settings.Diffs.{applied}

setting_value-insert :
    (k j v : String) (m : Map String)
    → setting_value (insert k v m) j ≡ (if k == j then v else setting_value m j)
unfolding setting_value
setting_value-insert k j v m =
    rw (setting_value, lookup-insert k j v m)
      (elim (Bool-cases (k == j)) [ inl t ↦ rw t refl | inr f ↦ rw f refl ])

-- `License` plans nothing exactly when the view reports both values, a setting that it lacks read as
-- the empty text.
pub license_changes_nil :
    (license organization : String) (m : Map String)
    → (license_changes license organization m ≡ []) ↔ (
        (setting_value m organization_setting ≡ organization)
        × (setting_value m license_setting ≡ license))
unfolding license_changes change_unless
license_changes_nil license organization m = ground (
  arith,
  eq_iff (setting_value m organization_setting) organization,
  eq_iff (setting_value m license_setting) license,
)

-- Once its changes were made, the view reports both values.
pub license_changes-applied :
    (license organization : String) (m : Map String)
    → (setting_value (applied (license_changes license organization m) m) organization_setting
        ≡ organization)
      × (setting_value (applied (license_changes license organization m) m) license_setting
          ≡ license)
unfolding license_changes change_unless applied
license_changes-applied license organization m =
    elim (Bool-cases (setting_value m organization_setting == organization)) [
      | inl same ↦ elim (Bool-cases (setting_value m license_setting == license)) [
        | inl kept ↦ rw (same, kept) ((eq_iff _ _).0 same, (eq_iff _ _).0 kept)
        | inr new ↦
            rw (same, new)
              (
                setting_value-insert license_setting organization_setting license m
                    ∙ (eq_iff _ _).0 same,
                setting_value-insert license_setting license_setting license m,
              )
      ]
      | inr other ↦ elim (Bool-cases (setting_value m license_setting == license)) [
        | inl kept ↦
            rw (other, kept)
              (
                setting_value-insert organization_setting organization_setting organization m,
                setting_value-insert organization_setting license_setting organization m
                    ∙ (eq_iff _ _).0 kept,
              )
        | inr new ↦
            rw (other, new)
              (
                setting_value-insert license_setting organization_setting license _
                    ∙ setting_value-insert organization_setting organization_setting organization m,
                setting_value-insert license_setting license_setting license _,
              )
      ]
    ]
