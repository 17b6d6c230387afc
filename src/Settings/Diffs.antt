-- ===== src/Settings/Diffs.antt =====
-- internal/settings/settings.go, `Diff`: which settings are changed, and what the changes lead to.
use kubernetes_operator.Prelude.{
  String, ◌≡◌, ◌≢◌, refl, sym, ap, ◌∙◌, subst, ◌↔◌, ◌⊎◌, inl, inr, true, false, some, List, [], ◌∷◌,
  In, ◌==◌, eq_iff, Bool-cases, Option-cases, arith,
}
use kubernetes_operator.Prelude.Map.{Map, lookup, insert, lookup-insert}
use kubernetes_operator.Prelude.Ranges.{Entries, IsRange}
use kubernetes_operator.Prelude.Sorted.{sort_by, In-sort_by, Distinct, sort_by_unique}
use kubernetes_operator.Settings.{Change, reports, changes, diff}

abbrev pub setting_of : Change → String
setting_of c = c.setting

reports_iff : (m : Map String) (k v : String) → (reports m k v ≡ true) ↔ (lookup k m ≡ some v)
unfolding reports
reports_iff m k v = elim (Option-cases (lookup k m)) [
  | inl nothing ↦ rw nothing ground arith
  | inr (w, found) ↦ rw found ground (arith, eq_iff w v)
]

-- Each change comes from an entry that the view does not report.
changes_from :
    (desired : Entries String) (observed : Map String) (c : Change)
    → In c (changes desired observed)
    → In (c.setting, c.value) desired × (reports observed c.setting c.value ≡ false)
unfolding changes
changes_from [] observed c h = absurd h
changes_from ((k, v) ∷ desired) observed c h = elim (Bool-cases (reports observed k v)) [
  | inl t ↦ let (i, r) = changes_from desired observed c (rw t at h) in (inr i, r)
  | inr f ↦ elim (rw f at h) [
    | inl e ↦ (
      inl (λ i. ((e i).setting, (e i).value)),
      subst (λ (d : Change). reports observed d.setting d.value ≡ false) e f,
    )
    | inr j ↦ let (i, r) = changes_from desired observed c j in (inr i, r)
  ]
]

changes_of :
    (desired : Entries String) (observed : Map String) (k v : String)
    → In (k, v) desired
    → reports observed k v ≡ false
    → In (record { setting = k; value = v }) (changes desired observed)
unfolding changes
changes_of [] observed k v h r = absurd h
changes_of ((j, w) ∷ desired) observed k v (inl e) r =
    let r' : reports observed j w ≡ false =
      subst (λ (d : String × String). reports observed d.0 d.1 ≡ false) (sym e) r in
    rw r' (inl (λ i. record { setting = (e i).0; value = (e i).1 }))
changes_of ((j, w) ∷ desired) observed k v (inr i) r = elim (Bool-cases (reports observed j w)) [
  | inl t ↦ rw t (changes_of desired observed k v i r)
  | inr f ↦ rw f (inr (changes_of desired observed k v i r))
]

changes-Distinct :
    (desired : Entries String) (observed : Map String)
    → Distinct (λ (e : String × String). e.0) desired
    → Distinct setting_of (changes desired observed)
unfolding changes
changes-Distinct [] observed h = tt
changes-Distinct ((k, v) ∷ desired) observed h = elim (Bool-cases (reports observed k v)) [
  | inl t ↦ rw t (changes-Distinct desired observed h.1)
  | inr f ↦ rw f (
    λ c i. h.0 (c.setting, c.value) (changes_from desired observed c i).0,
    changes-Distinct desired observed h.1,
  )
]

changes-nil :
    (desired : Entries String) (observed : Map String)
    → ((k v : String) → In (k, v) desired → reports observed k v ≡ true)
    → changes desired observed ≡ []
unfolding changes
changes-nil [] observed h = refl
changes-nil ((k, v) ∷ desired) observed h =
    rw (h k v (inl refl)) (changes-nil desired observed (λ j w i. h j w (inr i)))

-- What `SET DATABASE SETTING` does to the view, change by change.
unfoldable pub applied : List Change → Map String → Map String
applied [] m = m
applied (c ∷ cs) m = applied cs (insert c.setting c.value m)

pub applied-lookup :
    (cs : List Change) (m : Map String) (k v : String)
    → ((c : Change) → In c cs → c.setting ≡ k → c.value ≡ v)
    → ((c : Change) × In c cs × (c.setting ≡ k)) ⊎ (lookup k m ≡ some v)
    → lookup k (applied cs m) ≡ some v
unfolding applied
applied-lookup [] m k v same (inl (c, i, e)) = absurd i
applied-lookup [] m k v same (inr found) = found
applied-lookup (c ∷ cs) m k v same h =
    applied-lookup cs (insert c.setting c.value m) k v (λ d i. same d (inr i))
      (elim (Bool-cases (c.setting == k)) [
        | inl t ↦ inr (
            lookup-insert c.setting k c.value m
            ∙ rw t (ap some (same c (inl refl) ((eq_iff c.setting k).0 t))))
        | inr f ↦ elim h [
          | inl (d, inl e, s) ↦
              absurd (ground (arith, f, (eq_iff c.setting k).1 (ap setting_of e ∙ s)))
          | inl (d, inr i, s) ↦ inl (d, i, s)
          | inr found ↦ inr (lookup-insert c.setting k c.value m ∙ rw f found)
        ]
      ])

module _ (desired : Map String) (entries : Entries String) (whole : IsRange desired entries)
    (observed : Map String) where
  -- A change is planned exactly for each desired setting that the view does not report at its value.
  pub diff_iff :
      (c : Change)
      → In c (diff entries observed)
        ↔ ((lookup c.setting desired ≡ some c.value) × (lookup c.setting observed ≢ some c.value))
  unfolding diff
  diff_iff c = (
    λ h.
        let (i, r) = changes_from entries observed c ((In-sort_by setting_of c _).0 h) in
        (
          (whole.entry c.setting c.value).0 i,
          λ e. ground (arith, r, (reports_iff observed c.setting c.value).1 e),
        ),
    λ (found, missing). (In-sort_by setting_of c _).1 (
        changes_of entries observed c.setting c.value ((whole.entry c.setting c.value).1 found)
          (elim (Bool-cases (reports observed c.setting c.value)) [
            | inl t ↦ absurd (missing ((reports_iff observed c.setting c.value).0 t))
            | inr f ↦ f
          ])),
  )

  diff_applied_lookup :
      (k v : String)
      → In (k, v) entries
      → lookup k (applied (diff entries observed) observed) ≡ some v
  diff_applied_lookup k v i =
      let found = (whole.entry k v).0 i in
      applied-lookup (diff entries observed) observed k v
        (λ c j e.
          let other : lookup k desired ≡ some c.value =
            subst (λ s. lookup s desired ≡ some c.value) e ((diff_iff c).0 j).0 in
          cc)
        (elim (Bool-cases (reports observed k v)) [
          | inl t ↦ inr ((reports_iff observed k v).0 t)
          | inr f ↦ inl (
            record { setting = k; value = v },
            (diff_iff (record { setting = k; value = v })).1
                (found, λ e. ground (arith, f, (reports_iff observed k v).1 e)),
            refl,
          )
        ])

  -- Once the changes were made, nothing is left to change.
  pub diff-applied : diff entries (applied (diff entries observed) observed) ≡ []
  unfolding diff sort_by
  diff-applied =
      rw
        (changes-nil entries (applied (diff entries observed) observed)
          (λ k v i. (reports_iff _ k v).1 (diff_applied_lookup k v i)))
        refl

-- The changes do not depend on the order in which the settings are met.
pub diff_order :
    (desired : Map String) (entries entries' : Entries String) (observed : Map String)
    → IsRange desired entries
    → IsRange desired entries'
    → diff entries observed ≡ diff entries' observed
unfolding diff
diff_order desired entries entries' observed whole whole' =
    sort_by_unique setting_of (changes entries observed) (changes entries' observed)
      (changes-Distinct entries observed whole.distinct)
      (changes-Distinct entries' observed whole'.distinct)
      (λ c. (
        λ h.
            change desired entries' observed whole' c
              ((diff_iff desired entries whole observed c).0 ((In-sort_by setting_of c _).1 h)),
        λ h.
            change desired entries observed whole c
              ((diff_iff desired entries' whole' observed c).0 ((In-sort_by setting_of c _).1 h)),
      ))
  where
    change :
        (m : Map String) (es : Entries String) (view : Map String)
        → IsRange m es
        → (c : Change)
        → (lookup c.setting m ≡ some c.value) × (lookup c.setting view ≢ some c.value)
        → In c (changes es view)
    change m es view r c h = (In-sort_by setting_of c _).0 ((diff_iff m es r view c).1 h)
