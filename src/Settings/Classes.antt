-- ===== src/Settings/Classes.antt =====
-- internal/settings/settings.go, `Classify`: what the views say of the keys of each list.
use kubernetes_operator.Prelude.{
  suc, ◌+◌, String, ◌≡◌, refl, ap, ◌∙◌, subst, ◌↔◌, inl, inr, Bool, true, not, ◌&&◌, ◌||◌, List, [],
  ◌∷◌, map, length, filter, In, In-filter, In_of_In-filter, In-map, In_of_In-map, Bool-cases, arith,
}
use kubernetes_operator.Prelude.Map.{Map}
use kubernetes_operator.Prelude.Sorted.{sort_by, In-sort_by, length-sort_by}
use kubernetes_operator.Settings.Spelling.{normalize}
use kubernetes_operator.Settings.{
  Classification, has_key, is_hidden, classify_key, classify_keys, classify,
}

-- A key of the list has the canonical spelling `n`.
abbrev pub Named : List String → String → Type 0
Named keys n = (k : String) × In k keys × (normalize k ≡ n)

module _ (config coordinator_settings : Map String) where
  abbrev pub is_flag : String → Bool
  is_flag n = is_hidden n || has_key config n

  abbrev pub is_coordinator_setting : String → Bool
  is_coordinator_setting n = not (is_flag n) && has_key coordinator_settings n

  abbrev pub is_unknown : String → Bool
  is_unknown n = not (is_flag n) && not (has_key coordinator_settings n)

  abbrev loop : List String → Classification
  loop keys = classify_keys keys config coordinator_settings

  loop-filter :
      (keys : List String)
      → ((loop keys).flags ≡ filter is_flag (map normalize keys))
        × ((loop keys).coordinator_settings ≡ filter is_coordinator_setting (map normalize keys))
        × ((loop keys).unknown ≡ filter is_unknown (map normalize keys))
  unfolding classify_keys classify_key
  loop-filter [] = (refl, refl, refl)
  loop-filter (k ∷ ks) =
      let (flags, settings, unknown) = loop-filter ks in
      elim (Bool-cases (is_hidden (normalize k))) [
        | inl hidden ↦ simp hidden (ap (λ l. normalize k ∷ l) flags, settings, unknown)
        | inr shown ↦ elim (Bool-cases (has_key config (normalize k))) [
          | inl known ↦ simp (shown, known) (ap (λ l. normalize k ∷ l) flags, settings, unknown)
          | inr absent ↦ elim (Bool-cases (has_key coordinator_settings (normalize k))) [
            | inl kept ↦
                simp (shown, absent, kept) (flags, ap (λ l. normalize k ∷ l) settings, unknown)
            | inr lost ↦
                simp (shown, absent, lost) (flags, settings, ap (λ l. normalize k ∷ l) unknown)
          ]
        ]
      ]

  In-sorted_filter :
      (p : String → Bool) (keys : List String) (n : String)
      → In n (sort_by (λ s. s) (filter p (map normalize keys))) ↔ (Named keys n × (p n ≡ true))
  In-sorted_filter p keys n = (
    λ h.
        let (i, pn) = In_of_In-filter p n _ ((In-sort_by (λ s. s) n _).0 h) in
        (In_of_In-map normalize n keys i, pn),
    λ ((k, i, e), pn).
        (In-sort_by (λ s. s) n _).1 (
          In-filter p n _ (subst (λ m. In m (map normalize keys)) e (In-map normalize k keys i))
            pn),
  )

  pub classify_iff :
      (keys : List String) (n : String)
      → (In n (classify keys config coordinator_settings).flags
          ↔ (Named keys n × (is_flag n ≡ true)))
        × (In n (classify keys config coordinator_settings).coordinator_settings
            ↔ (Named keys n × (is_coordinator_setting n ≡ true)))
        × (In n (classify keys config coordinator_settings).unknown
            ↔ (Named keys n × (is_unknown n ≡ true)))
  unfolding classify
  classify_iff keys n =
      let (flags, settings, unknown) = loop-filter keys in
      simp (flags, settings, unknown)
        (
          In-sorted_filter is_flag keys n,
          In-sorted_filter is_coordinator_setting keys n,
          In-sorted_filter is_unknown keys n,
        )

  filter_lengths :
      (ns : List String)
      → length (filter is_flag ns)
          + length (filter is_coordinator_setting ns)
          + length (filter is_unknown ns)
        ≡ length ns
  filter_lengths [] = refl
  filter_lengths (n ∷ ns) =
      let ih = filter_lengths ns in
      elim (Bool-cases (is_flag n)) [
        | inl flag ↦ rw flag (omega (arith, ih))
        | inr other ↦ elim (Bool-cases (has_key coordinator_settings n)) [
          | inl kept ↦ rw (other, kept) (omega (arith, ih))
          | inr lost ↦ rw (other, lost) (omega (arith, ih))
        ]
      ]

  length-map-normalize : (keys : List String) → length (map normalize keys) ≡ length keys
  length-map-normalize [] = refl
  length-map-normalize (k ∷ ks) = ap suc (length-map-normalize ks)

  -- No key is lost and none is listed twice: the three lists together are as long as the keys.
  pub classify-length :
      (keys : List String)
      → length (classify keys config coordinator_settings).flags
          + length (classify keys config coordinator_settings).coordinator_settings
          + length (classify keys config coordinator_settings).unknown
        ≡ length keys
  unfolding classify
  classify-length keys =
      let (flags, settings, unknown) = loop-filter keys in
      simp (length-sort_by, flags, settings, unknown)
        (filter_lengths (map normalize keys) ∙ length-map-normalize keys)
