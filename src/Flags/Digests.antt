-- ===== src/Flags/Digests.antt =====
-- internal/resources/flags.go, `flagsDigests` and `ParseFlagsDigests`: what is read back.
use Prim.Native.Char.{Char}
use Prim.Native.String as Text
use text.Mathlib.TextLemmas.{nil-append, cons-append, append-nil, append_assoc}
use kubernetes_operator.Prelude.{
  String, ◌≡◌, refl, sym, ap, ◌∙◌, subst, ◌↔◌, inl, inr, Bool, true, false, not, ◌&&◌, Option, none,
  some, List, [], ◌∷◌, any, any_of_In, In_of_any, In, In-map, In_of_In-map, concat, ◌==◌, eq_iff,
  Bool-cases, if◌then◌else◌, arith,
}
use kubernetes_operator.Prelude.Map.{Map, lookup, insert, lookup-insert}
use kubernetes_operator.Prelude.Ranges.{Entries, IsRange}
use kubernetes_operator.Prelude.Sorted.{In-sort_by}
use kubernetes_operator.Prelude.Pieces.{
  cut, split_at, is_without, is_without-append, cut-append, split_at-append,
}
use kubernetes_operator.Settings.{is_runtime, setting_value}
use kubernetes_operator.Flags.{
  sorted_keys, digest_lines, flags_digests, add_piece, parse_lines, parse_flags_digests,
}

-- A key that a line can carry: not empty, on one line and with no equals sign.
abbrev pub IsKey : String → Type 0
IsKey k = ((k == "") ≡ false) × (is_without "=" k ≡ true) × (is_without "\n" k ≡ true)

-- The sorted keys are those of the map.
pub In-sorted_keys :
    (flags : Map String) (entries : Entries String)
    → IsRange flags entries
    → (k : String) → In k (sorted_keys entries) ↔ ((v : String) × (lookup k flags ≡ some v))
unfolding sorted_keys
In-sorted_keys flags entries ranges k = (
  λ h.
      let ((j, v), i, e) =
        In_of_In-map (λ (x : String × String). x.0) k entries ((In-sort_by (λ s. s) k _).0 h) in
      (v, (ranges.entry k v).0 (subst (λ n. In (n, v) entries) e i)),
  λ (v, found).
      (In-sort_by (λ s. s) k _).1
        (In-map (λ (x : String × String). x.0) (k, v) entries ((ranges.entry k v).1 found)),
)

-- What a map's entry becomes in the annotation.
abbrev pub digested : (String → String) → Bool → Option String → Option String
digested digest true o = none
digested digest false none = none
digested digest false (some v) = some (digest v)

single : (c : Char) (s : String) → Text.◌++◌ (Text.◌∷◌ c Text.[]) s ≡ Text.◌∷◌ c s
single c s = cons-append c Text.[] s ∙ ap (Text.◌∷◌ c) (nil-append s)

module _ (digest : String → String)
    (one_line : (v : String) → is_without "\n" (digest v) ≡ true) where
  -- A line is read back.
  one_line_parsed :
      (k v rest : String) (m : Map String)
      → IsKey k
      → parse_lines (split_at "\n" (concat (k ∷ "=" ∷ digest v ∷ "\n" ∷ rest ∷ []))) m
        ≡ parse_lines (split_at "\n" rest) (insert k (digest v) m)
  unfolding parse_lines concat
  one_line_parsed k v rest m (full, no_equals, no_break) =
      ap (λ t. parse_lines (split_at "\n" t) m) shape
      ∙ ap (λ ls. parse_lines ls m) (split_at-append "\n" line rest line_break)
      ∙ ap (parse_lines (split_at "\n" rest)) added
    where
      line : String
      line = Text.◌++◌ k (Text.◌∷◌ "=" (digest v))

      shape : concat (k ∷ "=" ∷ digest v ∷ "\n" ∷ rest ∷ []) ≡ Text.◌++◌ line (Text.◌∷◌ "\n" rest)
      shape =
          ap (Text.◌++◌ k) (
            single "=" _
            ∙ (λ i.
                Text.◌∷◌ "="
                  (Text.◌++◌ (digest v) ((single "\n" _ ∙ ap (Text.◌∷◌ "\n") (append-nil rest)) i)))
            ∙ sym (cons-append "=" (digest v) (Text.◌∷◌ "\n" rest)))
          ∙ sym (append_assoc k (Text.◌∷◌ "=" (digest v)) (Text.◌∷◌ "\n" rest))

      added : add_piece (cut "=" line) m ≡ insert k (digest v) m
      added =
          ap (λ o. add_piece o m) (cut-append "=" k (digest v) no_equals)
          ∙ unfold add_piece in rw full refl

      line_break : is_without "\n" line ≡ true
      line_break = is_without-append "\n" k (Text.◌∷◌ "=" (digest v)) no_break (one_line v)

  -- What the lines leave of a key.
  abbrev told : List String → Map String → String → Option String → Option String
  told ks flags asked kept =
      if any (λ k. k == asked) ks && not (is_runtime asked)
      then some (digest (setting_value flags asked))
      else kept

  runtime_line :
      (k : String) (ks : List String) (flags : Map String)
      → is_runtime k ≡ true
      → digest_lines digest (k ∷ ks) flags ≡ digest_lines digest ks flags
  unfolding digest_lines
  runtime_line k ks flags t = rw t refl

  startup_line :
      (k : String) (ks : List String) (flags : Map String)
      → is_runtime k ≡ false
      → digest_lines digest (k ∷ ks) flags
        ≡ concat
            (k ∷ "=" ∷ digest (setting_value flags k) ∷ "\n" ∷ digest_lines digest ks flags ∷ [])
  unfolding digest_lines
  startup_line k ks flags f = rw f refl

  told_runtime :
      (k : String) (ks : List String) (flags : Map String) (asked : String) (kept : Option String)
      → is_runtime k ≡ true
      → told ks flags asked kept ≡ told (k ∷ ks) flags asked kept
  told_runtime k ks flags asked kept t = elim (Bool-cases (k == asked)) [
    | inl e ↦
        let asked_runtime : is_runtime asked ≡ true =
          ap is_runtime (sym ((eq_iff k asked).0 e)) ∙ t in
        ground arith
    | inr e ↦ ground arith
  ]

  told_startup :
      (k : String) (ks : List String) (flags : Map String) (asked : String) (m : Map String)
      → is_runtime k ≡ false
      → told ks flags asked (lookup asked (insert k (digest (setting_value flags k)) m))
        ≡ told (k ∷ ks) flags asked (lookup asked m)
  told_startup k ks flags asked m f =
      let inserted = lookup-insert k asked (digest (setting_value flags k)) m in
      elim (Bool-cases (k == asked)) [
        | inl e ↦
            let same = (eq_iff k asked).0 e in
            let asked_startup : is_runtime asked ≡ false = ap is_runtime (sym same) ∙ f in
            let value = ap (λ n. digest (setting_value flags n)) same in ground arith
        | inr e ↦ ground arith
      ]

  parsed_told :
      (ks : List String) (flags : Map String) (m : Map String) (asked : String)
      → ((k : String) → In k ks → IsKey k)
      → lookup asked (parse_lines (split_at "\n" (digest_lines digest ks flags)) m)
        ≡ told ks flags asked (lookup asked m)
  parsed_told [] flags m asked keys =
      unfold digest_lines in unfold parse_lines in unfold split_at in refl
  parsed_told (k ∷ ks) flags m asked keys =
      let read = λ (t : String). lookup asked (parse_lines (split_at "\n" t) m) in
      let later = λ (m' : Map String). parsed_told ks flags m' asked (λ j i. keys j (inr i)) in
      elim (Bool-cases (is_runtime k)) [
        | inl t ↦
            ap read (runtime_line k ks flags t)
            ∙ later m
            ∙ told_runtime k ks flags asked (lookup asked m) t
        | inr f ↦
            ap read (startup_line k ks flags f)
            ∙ ap (lookup asked) (
                one_line_parsed k (setting_value flags k) (digest_lines digest ks flags) m
                  (keys k (inl refl)))
            ∙ later (insert k (digest (setting_value flags k)) m)
            ∙ told_startup k ks flags asked m f
      ]

  told_nothing :
      (ks : List String) (flags : Map String) (asked : String)
      → any (λ k. k == asked) ks ≡ false
      → told ks flags asked none ≡ digested digest (is_runtime asked) none
  told_nothing ks flags asked f = from (is_runtime asked)
    where
      from : (b : Bool) → told ks flags asked none ≡ digested digest b none
      from true = rw f refl
      from false = rw f refl

  told_value :
      (ks : List String) (flags : Map String) (asked v : String)
      → any (λ k. k == asked) ks ≡ true
      → setting_value flags asked ≡ v
      → told ks flags asked none ≡ digested digest (is_runtime asked) (some v)
  told_value ks flags asked v t e = elim (Bool-cases (is_runtime asked)) [
    | inl runtime ↦ rw (t, runtime) refl
    | inr startup ↦ rw (t, startup, e) refl
  ]

  -- The annotation reads back as the digests of the flags that are no run-time settings, each under
  -- its key, if the keys are not empty, on one line and with no equals sign, and the digests on one line.
  pub parse_flags_digests-flags_digests :
      (range : Map String → Entries String) (flags : Map String) (asked : String)
      → IsRange flags (range flags)
      → ((k v : String) → lookup k flags ≡ some v → IsKey k)
      → lookup asked (parse_flags_digests (flags_digests digest range flags))
        ≡ digested digest (is_runtime asked) (lookup asked flags)
  unfolding parse_flags_digests flags_digests
  parse_flags_digests-flags_digests range flags asked ranges keys =
      parsed_told (sorted_keys (range flags)) flags [] asked (λ k i.
        let (v, found) = (In-sorted_keys flags (range flags) ranges k).0 i in keys k v found)
      ∙ from (lookup asked flags) refl
    where
      from :
          (o : Option String)
          → lookup asked flags ≡ o
          → told (sorted_keys (range flags)) flags asked (lookup asked [])
            ≡ digested digest (is_runtime asked) o
      from none h = elim (Bool-cases (any (λ k. k == asked) (sorted_keys (range flags)))) [
        | inl t ↦
            let (k, i, e) = In_of_any (λ k. k == asked) (sorted_keys (range flags)) t in
            let (v, found) = (In-sorted_keys flags (range flags) ranges k).0 i in
            let never : none ≡ some v =
              sym h ∙ ap (λ n. lookup n flags) (sym ((eq_iff k asked).0 e)) ∙ found in
            cc
        | inr f ↦ told_nothing (sorted_keys (range flags)) flags asked f
      ]
      from (some v) h =
          let there =
            any_of_In (λ k. k == asked) asked (sorted_keys (range flags))
              ((In-sorted_keys flags (range flags) ranges asked).1 (v, h))
              ((eq_iff asked asked).1 refl) in
          let value : setting_value flags asked ≡ v = rw (setting_value, h) refl in
          told_value (sorted_keys (range flags)) flags asked v there value
