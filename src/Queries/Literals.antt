-- ===== src/Queries/Literals.antt =====
-- internal/memgraph/queries.go: reading the literals of a setting query back.
use Prim.Native.Char.{Char}
use Prim.Native.String.{String, [], ◌∷◌, ◌++◌}
use text.Mathlib.TextLemmas.{nil-append, cons-append, append_assoc, append_cancel_left}
use kubernetes_operator.Prelude.{
  ◌≡◌, refl, sym, ap, ◌∙◌, inl, inr, Bool, true, false, Option, none, some, Bool-cases,
  if◌then◌else◌,
}
use kubernetes_operator.Queries.{is_quote, is_backslash, escaped, cypher_string, set_setting_query}

-- The inside of a double-quoted Cypher literal, and what follows the quote that ends it: a backslash
-- takes the next character as it is. `text` is what was read, and a quote that never comes is `none`.
abbrev add : Char → Option (String × String) → Option (String × String)
add c none = none
add c (some (text, rest)) = some (c ∷ text, rest)

unfoldable pub read_inside : Bool → String → Option (String × String)
read_inside after_backslash [] = none
read_inside true (c ∷ s) = add c (read_inside false s)
read_inside false (c ∷ s) =
    let plain = add c (read_inside false s) in
    let taken = read_inside true s in
    if is_backslash c then taken else if is_quote c then some ([], s) else plain

-- A literal at the beginning of a text.
unfoldable pub read_literal : String → Option (String × String)
unfolding read_inside
read_literal [] = none
read_literal (c ∷ s) = if is_quote c then read_inside false s else none

read_back :
    (c : Char) (x : String)
    → is_backslash c ≡ true
    → (d : Char) → read_inside false (c ∷ d ∷ x) ≡ add d (read_inside false x)
unfolding read_inside
read_back c x back d = rw back refl

read_plain :
    (c : Char) (x : String)
    → is_backslash c ≡ false
    → is_quote c ≡ false
    → read_inside false (c ∷ x) ≡ add c (read_inside false x)
unfolding read_inside
read_plain c x other plain = rw (other, plain) refl

cons_cons_append : (a b : Char) (x r : String) → (a ∷ b ∷ x) ++ r ≡ a ∷ b ∷ (x ++ r)
cons_cons_append a b x r = cons-append a (b ∷ x) r ∙ ap (λ u. a ∷ u) (cons-append b x r)

read_escaped : (s rest : String) → read_inside false (escaped s ++ ("\"" ∷ rest)) ≡ some (s, rest)
unfolding escaped read_inside
read_escaped [] rest = ap (read_inside false) (nil-append ("\"" ∷ rest))
read_escaped (c ∷ s) rest =
    let tail = escaped s ++ ("\"" ∷ rest) in
    let ih : add c (read_inside false tail) ≡ some (c ∷ s, rest) =
      ap (add c) (read_escaped s rest) in
    elim (Bool-cases (is_backslash c)) [
      | inl back ↦ rw back (
          ap (read_inside false) (cons_cons_append c c (escaped s) ("\"" ∷ rest))
          ∙ read_back c tail back c
          ∙ ih)
      | inr other ↦ elim (Bool-cases (is_quote c)) [
        | inl quote ↦
            rw (other, quote)
              (ap (read_inside false) (cons_cons_append "\\" c (escaped s) ("\"" ∷ rest))
                ∙ read_back "\\" tail refl c
                ∙ ih)
        | inr plain ↦
            rw (other, plain)
              (ap (read_inside false) (cons-append c (escaped s) ("\"" ∷ rest))
                ∙ read_plain c tail other plain
                ∙ ih)
      ]
    ]

quoted_append : (x r : String) → ("\"" ++ (x ++ "\"")) ++ r ≡ "\"" ∷ (x ++ ("\"" ∷ r))
quoted_append x r =
    append_assoc "\"" (x ++ "\"") r
    ∙ cons-append "\"" [] ((x ++ "\"") ++ r)
    ∙ ap (λ u. "\"" ∷ u)
        (nil-append ((x ++ "\"") ++ r)
          ∙ append_assoc x "\"" r
          ∙ ap (λ u. x ++ u) (cons-append "\"" [] r ∙ ap (λ u. "\"" ∷ u) (nil-append r)))

-- What `cypherString` renders is one literal that reads back as the text, and the query goes on right
-- after it: no text can end its literal early.
pub read-cypher_string : (s rest : String) → read_literal (cypher_string s ++ rest) ≡ some (s, rest)
unfolding read_literal cypher_string
read-cypher_string s rest = ap read_literal (quoted_append (escaped s) rest) ∙ read_escaped s rest

injective_pair :
    (s t r u : String) → cypher_string s ++ r ≡ cypher_string t ++ u → (s ≡ t) × (r ≡ u)
injective_pair s t r u p =
    let same : some (s, r) ≡ some (t, u) =
      sym (read-cypher_string s r) ∙ ap read_literal p ∙ read-cypher_string t u in
    (ap first same, ap second same)
  where
    first : Option (String × String) → String
    first none = s
    first (some x) = x.0

    second : Option (String × String) → String
    second none = r
    second (some x) = x.1

-- Two setting queries are one text only if they set one setting to one value.
pub set_setting_query_injective :
    (n m v w : String) → set_setting_query n v ≡ set_setting_query m w → (n ≡ m) × (v ≡ w)
unfolding set_setting_query
set_setting_query_injective n m v w p =
    let (names, rests) =
      injective_pair n m _ _ (append_cancel_left "SET DATABASE SETTING " _ _ p) in
    let values = append_cancel_left " TO " _ _ rests in
    (names, (injective_pair v w "" "" (ap (λ u. u ++ "") values)).0)
