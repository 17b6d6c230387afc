-- ===== src/Flags/Changed.antt =====
-- internal/resources/flags.go, `ChangedFlags`: which keys two annotations differ in.
use kubernetes_operator.Prelude.{
  String, ◌≡◌, ◌≢◌, refl, sym, ap, ◌∙◌, subst, ◌↔◌, ◌⊎◌, inl, inr, Bool, true, false, Option, none,
  some, List, [], ◌∷◌, In, ◌==◌, eq_iff, Bool-cases,
}
use kubernetes_operator.Prelude.Map.{Map, lookup, insert, lookup-insert}
use kubernetes_operator.Prelude.Ranges.{Entries, IsRange}
use kubernetes_operator.Prelude.Pieces.{is_without}
use kubernetes_operator.Settings.{is_runtime, setting_value, has_key}
use kubernetes_operator.Flags.{
  flags_digests, parse_flags_digests, new_keys, gone_keys, mark, changed_flags,
}
use kubernetes_operator.Flags.Digests.{
  IsKey, In-sorted_keys, digested, parse_flags_digests-flags_digests,
}

In-new_keys :
    (k : String) (current : Entries String) (old : Map String)
    → In k (new_keys current old)
      ↔ ((d : String) × In (k, d) current × ((setting_value old k == d) ≡ false))
unfolding new_keys
In-new_keys k [] old = (λ i. absurd i, λ h. absurd h.1)
In-new_keys k ((j, e) ∷ current) old = elim (Bool-cases (setting_value old j == e)) [
  | inl t ↦ rw t (
    λ i. let (d, there, new) = (In-new_keys k current old).0 i in (d, inr there, new),
    λ (d, there, new). elim there [
      | inl same ↦
          let again : (setting_value old k == d) ≡ true =
            subst (λ (x : String × String). (setting_value old x.0 == x.1) ≡ true) same t in
          cc
      | inr later ↦ (In-new_keys k current old).1 (d, later, new)
    ],
  )
  | inr f ↦ rw f (
    λ i. elim i [
      | inl same ↦
          (e, inl (λ n. (same n, e)), subst (λ n. (setting_value old n == e) ≡ false) same f)
      | inr later ↦ let (d, there, new) = (In-new_keys k current old).0 later in (d, inr there, new)
    ],
    λ (d, there, new). elim there [
      | inl same ↦ inl (ap (λ (x : String × String). x.0) same)
      | inr later ↦ inr ((In-new_keys k current old).1 (d, later, new))
    ],
  )
]

In-gone_keys :
    (k : String) (old : Entries String) (current : Map String)
    → In k (gone_keys old current) ↔ ((d : String) × In (k, d) old × (has_key current k ≡ false))
unfolding gone_keys
In-gone_keys k [] current = (λ i. absurd i, λ h. absurd h.1)
In-gone_keys k ((j, e) ∷ old) current = elim (Bool-cases (has_key current j)) [
  | inl t ↦ rw t (
    λ i. let (d, there, gone) = (In-gone_keys k old current).0 i in (d, inr there, gone),
    λ (d, there, gone). elim there [
      | inl same ↦
          let again : has_key current k ≡ true =
            subst (λ (x : String × String). has_key current x.0 ≡ true) same t in
          cc
      | inr later ↦ (In-gone_keys k old current).1 (d, later, gone)
    ],
  )
  | inr f ↦ rw f (
    λ i. elim i [
      | inl same ↦ (e, inl (λ n. (same n, e)), subst (λ n. has_key current n ≡ false) same f)
      | inr later ↦
          let (d, there, gone) = (In-gone_keys k old current).0 later in (d, inr there, gone)
    ],
    λ (d, there, gone). elim there [
      | inl same ↦ inl (ap (λ (x : String × String). x.0) same)
      | inr later ↦ inr ((In-gone_keys k old current).1 (d, later, gone))
    ],
  )
]

-- The map has the key.
abbrev Has : Map String → String → Type 0
Has m k = (v : String) × (lookup k m ≡ some v)

Has-mark :
    (k : String) (ks : List String) (m : Map String) → Has (mark ks m) k ↔ (In k ks ⊎ Has m k)
unfolding mark
Has-mark k [] m = (λ h. inr h, λ h. elim h [ inl i ↦ absurd i | inr old ↦ old ])
Has-mark k (j ∷ ks) m = (
  λ h. elim ((Has-mark k ks (insert j "" m)).0 h) [
    | inl i ↦ inl (inr i)
    | inr (v, found) ↦ elim (Bool-cases (j == k)) [
      | inl t ↦ inl (inl ((eq_iff j k).0 t))
      | inr f ↦ inr (v, sym (lookup-insert j k "" m ∙ rw f refl) ∙ found)
    ]
  ],
  λ h. (Has-mark k ks (insert j "" m)).1 (elim (Bool-cases (j == k)) [
    | inl t ↦ inr ("", lookup-insert j k "" m ∙ rw t refl)
    | inr f ↦ elim h [
      | inl i ↦ elim i [
        | inl same ↦ let no : (j == k) ≡ true = (eq_iff j k).1 same in cc
        | inr later ↦ inl later
      ]
      | inr (v, found) ↦ inr (v, lookup-insert j k "" m ∙ rw f found)
    ]
  ]),
)

-- The current map has a value that the old one does not, or the old one has a key that is gone.
abbrev Differs : Map String → Map String → String → Type 0
Differs old current k =
    ((d : String) × (lookup k current ≡ some d) × ((setting_value old k == d) ≡ false))
    ⊎ ((d : String) × (lookup k old ≡ some d) × (has_key current k ≡ false))

In-changed_flags :
    (range : Map String → Entries String) (before after k : String)
    → ((m : Map String) → IsRange m (range m))
    → In k (changed_flags range before after)
      ↔ Differs (parse_flags_digests before) (parse_flags_digests after) k
unfolding changed_flags
In-changed_flags range before after k ranges = (
  λ i. elim ((Has-mark k gone marked).0 ((In-sorted_keys (mark gone marked) _ (ranges _) k).0 i)) [
    | inl j ↦
        let (d, there, lost) = (In-gone_keys k (range old) current).0 j in
        inr (d, ((ranges old).entry k d).0 there, lost)
    | inr has ↦ elim ((Has-mark k new []).0 has) [
      | inl j ↦
          let (d, there, other) = (In-new_keys k (range current) old).0 j in
          inl (d, ((ranges current).entry k d).0 there, other)
      | inr (v, found) ↦ unfold lookup in cc
    ]
  ],
  λ h. (In-sorted_keys (mark gone marked) _ (ranges _) k).1 (
      (Has-mark k gone marked).1 (elim h [
        | inl (d, there, other) ↦ inr (
            (Has-mark k new []).1 (
              inl (
                (In-new_keys k (range current) old).1
                  (d, ((ranges current).entry k d).1 there, other))))
        | inr (d, there, lost) ↦
            inl ((In-gone_keys k (range old) current).1 (d, ((ranges old).entry k d).1 there, lost))
      ])),
)
  where
    old : Map String
    old = parse_flags_digests before

    current : Map String
    current = parse_flags_digests after

    new : List String
    new = new_keys (range current) old

    gone : List String
    gone = gone_keys (range old) current

    marked : Map String
    marked = mark new []

value_some : (m : Map String) (k v : String) → lookup k m ≡ some v → setting_value m k ≡ v
unfolding setting_value
value_some m k v h = rw (setting_value, h) refl

value_none : (m : Map String) (k : String) → lookup k m ≡ none → setting_value m k ≡ ""
unfolding setting_value
value_none m k h = rw (setting_value, h) refl

has_some : (m : Map String) (k v : String) → lookup k m ≡ some v → has_key m k ≡ true
unfolding has_key
has_some m k v h = rw (has_key, h) refl

has_none : (m : Map String) (k : String) → lookup k m ≡ none → has_key m k ≡ false
unfolding has_key
has_none m k h = rw (has_key, h) refl

other_text : (s t : String) → s ≢ t → (s == t) ≡ false
other_text s t n = elim (Bool-cases (s == t)) [
  | inl same ↦ absurd (n ((eq_iff s t).0 same))
  | inr f ↦ f
]

module _ (old current : Map String) (k : String)
    (full : (d : String) → lookup k current ≡ some d → d ≢ "") where
  values_differ : Differs old current k → lookup k old ≢ lookup k current
  values_differ (inl (d, found, other)) same =
      let value = value_some old k d (same ∙ found) in
      let equal : (setting_value old k == d) ≡ true = (eq_iff (setting_value old k) d).1 value in cc
  values_differ (inr (d, found, lost)) same =
      let there = has_some current k d (sym same ∙ found) in cc

  differ :
      (o c : Option String)
      → lookup k old ≡ o
      → lookup k current ≡ c
      → o ≢ c
      → Differs old current k
  differ none none h h' n = absurd (n refl)
  differ (some o) none h h' n = inr (o, h, has_none current k h')
  differ none (some d) h h' n =
      inl (d, h', rw (value_none old k h) (other_text "" d (λ e. full d h' (sym e))))
  differ (some o) (some d) h h' n =
      inl (d, h', rw (value_some old k o h) (other_text o d (λ e. n (ap some e))))

  pub Differs-iff : Differs old current k ↔ (lookup k old ≢ lookup k current)
  Differs-iff = (values_differ, λ n. differ (lookup k old) (lookup k current) refl refl n)

-- Between the annotations of two sets of flags, `ChangedFlags` lists the startup keys, and only those,
-- that one set has and the other does not, or whose digests differ, if the digests are neither empty
-- nor broken over lines and each key is on one line, not empty and with no equals sign.
pub changed_flags_iff :
    (digest : String → String) (range : Map String → Entries String) (old current : Map String)
    (k : String)
    → ((v : String) → is_without "\n" (digest v) ≡ true)
    → ((v : String) → digest v ≢ "")
    → ((m : Map String) → IsRange m (range m))
    → ((j v : String) → lookup j old ≡ some v → IsKey j)
    → ((j v : String) → lookup j current ≡ some v → IsKey j)
    → In k
        (changed_flags range (flags_digests digest range old) (flags_digests digest range current))
      ↔ (digested digest (is_runtime k) (lookup k old)
          ≢ digested digest (is_runtime k) (lookup k current))
changed_flags_iff digest range old current k one_line full ranges old_keys current_keys =
    let was = parse_flags_digests-flags_digests digest one_line range old k (ranges old) old_keys in
    let now =
      parse_flags_digests-flags_digests digest one_line range current k (ranges current)
        current_keys in
    let (listed, back) =
      In-changed_flags range (flags_digests digest range old) (flags_digests digest range current) k
        ranges in
    let (apart, differs) =
      Differs-iff (parse_flags_digests (flags_digests digest range old))
        (parse_flags_digests (flags_digests digest range current)) k
        (λ d found. digested_full (is_runtime k) (lookup k current) d (sym now ∙ found)) in
    (
      λ i same. apart (listed i) (was ∙ same ∙ sym now),
      λ n. back (differs (λ same. n (sym was ∙ same ∙ now))),
    )
  where
    digested_full :
        (b : Bool) (o : Option String) (d : String) → digested digest b o ≡ some d → d ≢ ""
    digested_full true o d h = cc
    digested_full false none d h = cc
    digested_full false (some v) d h = λ e. let same : digest v ≡ d = cc in full v (same ∙ e)
