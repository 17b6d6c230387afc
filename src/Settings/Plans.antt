-- ===== src/Settings/Plans.antt =====
-- internal/settings/settings.go, `Plan`: the flags behind the changes. Flags are met in any order, and
-- admission keeps two spellings of one flag out of a spec.
use kubernetes_operator.Prelude.{
  String, ◌≡◌, ◌≢◌, refl, sym, ap, ◌∙◌, subst, ◌↔◌, ◌⊎◌, inl, inr, Bool, true, false, Option, none,
  some, [], ◌∷◌, In, ◌==◌, eq_iff, Bool-cases, if◌then◌else◌, arith,
}
use kubernetes_operator.Prelude.Map.{Map, lookup, lookup-insert}
use kubernetes_operator.Prelude.Ranges.{Entries, IsRange}
use kubernetes_operator.Prelude.Sorted.{Distinct}
use kubernetes_operator.Settings.Spelling.{normalize}
use kubernetes_operator.Settings.{
  runtime_settings, setting, Change, add_setting, desired_settings, plan,
}
use kubernetes_operator.Settings.Diffs.{diff_iff}

has_value : String → Map String → Bool
has_value s [] = false
has_value s ((k, v) ∷ m) = if v == s then true else has_value s m

values_distinct : Map String → Bool
values_distinct [] = true
values_distinct ((k, v) ∷ m) = if has_value v m then false else values_distinct m

has_value_of_lookup : (k s : String) (m : Map String) → lookup k m ≡ some s → has_value s m ≡ true
unfolding has_value lookup
has_value_of_lookup k s [] h = cc
has_value_of_lookup k s ((j, v) ∷ m) h = elim (Bool-cases (j == k)) [
  | inl t ↦ let same : some v ≡ some s = rw t at h in ground (arith, (eq_iff v s).1, same)
  | inr f ↦
      let later : lookup k m ≡ some s = rw f at h in
      rw (has_value_of_lookup k s m later) ground arith
]

values_injective :
    (m : Map String) (j k s : String)
    → values_distinct m ≡ true
    → lookup j m ≡ some s
    → lookup k m ≡ some s
    → j ≡ k
unfolding values_distinct lookup
values_injective [] j k s d h h' = cc
values_injective ((i, v) ∷ m) j k s d h h' = elim (Bool-cases (has_value v m)) [
  | inl twice ↦ let no : false ≡ true = rw twice at d in cc
  | inr once ↦ elim (Bool-cases (i == j)) [
    | inl at_j ↦ elim (Bool-cases (i == k)) [
      | inl at_k ↦ sym ((eq_iff i j).0 at_j) ∙ (eq_iff i k).0 at_k
      | inr not_k ↦
          let same : some v ≡ some s = rw at_j at h in absurd (clash once same (k, rw not_k at h'))
    ]
    | inr not_j ↦ elim (Bool-cases (i == k)) [
      | inl at_k ↦
          let same : some v ≡ some s = rw at_k at h' in absurd (clash once same (j, rw not_j at h))
      | inr not_k ↦ values_injective m j k s (rw once at d) (rw not_j at h) (rw not_k at h')
    ]
  ]
]
  where
    clash : has_value v m ≡ false → some v ≡ some s → ((l : String) × (lookup l m ≡ some s)) → ⊥
    clash once same (l, found) =
        let value : v ≡ s = cc in
        let twice : has_value v m ≡ true =
          subst (λ u. has_value u m ≡ true) (sym value) (has_value_of_lookup l s m found) in
        cc

table_distinct : values_distinct runtime_settings ≡ true
unfolding values_distinct has_value runtime_settings
table_distinct = refl

-- No two flags share a run-time setting.
pub setting_injective :
    (f g s : String) → setting f ≡ some s → setting g ≡ some s → normalize f ≡ normalize g
unfolding setting
setting_injective f g s h k = values_injective runtime_settings _ _ s table_distinct h k

add_setting-from :
    (o : Option String) (w : String) (m : Map String) (s v : String)
    → lookup s (add_setting o w m) ≡ some v
    → ((o ≡ some s) × (w ≡ v)) ⊎ (lookup s m ≡ some v)
unfolding add_setting
add_setting-from none w m s v h = inr h
add_setting-from (some k) w m s v h = elim (Bool-cases (k == s)) [
  | inl t ↦
      let same : some w ≡ some v = sym (lookup-insert k s w m ∙ rw t refl) ∙ h in
      inl (ap some ((eq_iff k s).0 t), cc)
  | inr f ↦ inr (sym (lookup-insert k s w m ∙ rw f refl) ∙ h)
]

add_setting_other :
    (o : Option String) (w : String) (m : Map String) (s : String)
    → o ≢ some s
    → lookup s (add_setting o w m) ≡ lookup s m
unfolding add_setting
add_setting_other none w m s n = refl
add_setting_other (some k) w m s n = elim (Bool-cases (k == s)) [
  | inl t ↦ absurd (n (ap some ((eq_iff k s).0 t)))
  | inr f ↦ lookup-insert k s w m ∙ rw f refl
]

add_setting_same :
    (o : Option String) (w : String) (m : Map String) (s : String)
    → o ≡ some s
    → lookup s (add_setting o w m) ≡ some w
unfolding add_setting
add_setting_same none w m s e = cc
add_setting_same (some k) w m s e =
    let same : k ≡ s = cc in lookup-insert k s w m ∙ rw ((eq_iff k s).1 same) refl

desired_from :
    (flags : Entries String) (m : Map String) (s v : String)
    → lookup s (desired_settings flags m) ≡ some v
    → ((f : String) × In (f, v) flags × (setting f ≡ some s)) ⊎ (lookup s m ≡ some v)
unfolding desired_settings
desired_from [] m s v h = inr h
desired_from ((f, w) ∷ flags) m s v h =
    elim (desired_from flags (add_setting (setting f) w m) s v h) [
      | inl (g, i, e) ↦ inl (g, inr i, e)
      | inr found ↦ elim (add_setting-from (setting f) w m s v found) [
        | inl (e, same) ↦ inl (f, inl (ap (λ x. (f, x)) same), e)
        | inr old ↦ inr old
      ]
    ]

desired_untouched :
    (flags : Entries String) (m : Map String) (s : String)
    → ((f v : String) → In (f, v) flags → setting f ≢ some s)
    → lookup s (desired_settings flags m) ≡ lookup s m
unfolding desired_settings
desired_untouched [] m s h = refl
desired_untouched ((f, w) ∷ flags) m s h =
    desired_untouched flags (add_setting (setting f) w m) s (λ g v i. h g v (inr i))
    ∙ add_setting_other (setting f) w m s (h f w (inl refl))

desired_of :
    (flags : Entries String) (m : Map String) (f s v : String)
    → Distinct (λ (e : String × String). normalize e.0) flags
    → In (f, v) flags
    → setting f ≡ some s
    → lookup s (desired_settings flags m) ≡ some v
unfolding desired_settings
desired_of [] m f s v d i e = absurd i
desired_of ((g, w) ∷ flags) m f s v d (inl h) e =
    let here : setting g ≡ some s = ap (λ (x : String × String). setting x.0) h ∙ e in
    desired_untouched flags (add_setting (setting g) w m) s
      (λ k u i e'. d.0 (k, u) i (setting_injective g k s here e'))
    ∙ add_setting_same (setting g) w m s here
    ∙ ap (λ (x : String × String). some x.1) h
desired_of ((g, w) ∷ flags) m f s v d (inr i) e =
    desired_of flags (add_setting (setting g) w m) f s v d.1 i e

-- A change is planned exactly for each run-time flag whose setting the instance does not report at
-- the flag's value, where no two flags are spellings of one, whatever the order in which the flags
-- and the settings are met.
pub settings_plan_iff :
    (range : Map String → Entries String) (flags : Entries String) (observed : Map String)
    (c : Change)
    → IsRange (desired_settings flags []) (range (desired_settings flags []))
    → Distinct (λ (e : String × String). normalize e.0) flags
    → In c (plan range flags observed) ↔ (
        ((flag : String) × In (flag, c.value) flags × (setting flag ≡ some c.setting))
        × (lookup c.setting observed ≢ some c.value))
unfolding plan
settings_plan_iff range flags observed c whole distinct =
    let made = desired_settings flags [] in
    let planned = diff_iff made (range made) whole observed c in
    (
      λ h. let (found, differs) = planned.0 h in (from found, differs),
      λ ((flag, i, e), differs).
          planned.1 (desired_of flags [] flag c.setting c.value distinct i e, differs),
    )
  where
    from :
        lookup c.setting (desired_settings flags []) ≡ some c.value
        → (flag : String) × In (flag, c.value) flags × (setting flag ≡ some c.setting)
    from found = elim (desired_from flags [] c.setting c.value found) [
      | inl named ↦ named
      | inr never ↦ cc
    ]
