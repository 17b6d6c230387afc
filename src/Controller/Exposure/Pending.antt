-- ===== src/Controller/Exposure/Pending.antt =====
-- internal/controller/memgraphdbcluster_controller.go, the announcements of `observeExternalAccess`: which
-- objects are waited for, and which address each member has.
use kubernetes_operator.Prelude.{
  ℕ, zero, suc, ◌+◌, ◌≤◌, ◌<◌, String, ◌≡◌, ◌≢◌, refl, sym, ap, ◌∙◌, subst, ◌↔◌, ◌⊎◌, inl, inr,
  true, List, [], ◌∷◌, any, In, In_of_any, In-append, In-append_left, In-append_right, eqb, eqb_iff,
  ◌==◌, eq_iff, Bool-cases, arith,
}
use kubernetes_operator.Controller.Exposure.{
  ExternalAccess, new_external_access, wait_on, waiting_on, announce_coordinators, address_for,
  announce_data, announce_read, announce_from, observe_members,
}

In-wait_on :
    (name object : String) (pending : List String)
    → In name (wait_on object pending) ↔ (In name pending ⊎ (object ≡ name))
unfolding wait_on
In-wait_on name object pending = elim (Bool-cases (any (λ p. p == object) pending)) [
  | inl t ↦ rw t (
    λ i. inl i,
    λ h. elim h [
      | inl i ↦ i
      | inr same ↦
          let (p, i, e) = In_of_any (λ p. p == object) pending t in
          subst (λ (x : String). In x pending) ((eq_iff p object).0 e ∙ same) i
    ],
  )
  | inr f ↦ rw f (
    λ i. elim (In-append name pending (object ∷ []) i) [
      | inl j ↦ inl j
      | inr j ↦ elim j [ inl same ↦ inr same | inr never ↦ absurd never ]
    ],
    λ h. elim h [
      | inl i ↦ In-append_left name pending (object ∷ []) i
      | inr same ↦ In-append_right name pending (object ∷ []) (inl same)
    ],
  )
]

In-waiting_on :
    (name address object : String) (pending : List String)
    → In name (waiting_on address object pending)
      ↔ (In name pending ⊎ ((address ≡ "") × (object ≡ name)))
unfolding waiting_on
In-waiting_on name address object pending = elim (Bool-cases (address == "")) [
  | inl t ↦ rw t (
    λ i. elim ((In-wait_on name object pending).0 i) [
      | inl j ↦ inl j
      | inr same ↦ inr ((eq_iff address "").0 t, same)
    ],
    λ h. (In-wait_on name object pending).1 (elim h [ inl i ↦ inl i | inr (_, same) ↦ inr same ]),
  )
  | inr f ↦ rw f (
    λ i. inl i,
    λ h. elim h [
      | inl i ↦ i
      | inr (empty, _) ↦ let no : (address == "") ≡ true = (eq_iff address "").1 empty in cc
    ],
  )
]

module _ (address : ℕ → String ⊎ String) (object : ℕ → String) where
  -- A data instance of the ordinals has no address yet, and its object has the name.
  abbrev pub Owes : ℕ → ℕ → String → Type 0
  Owes start count name =
      (i : ℕ) × (start ≤ i) × (i < start + count) × (address i ≡ inr "") × (object i ≡ name)

  abbrev Kept : ℕ → ExternalAccess → ExternalAccess → Type 0
  Kept start x y = (k : ℕ) → k < start → y.addresses.data_instances k ≡ x.addresses.data_instances k

  read_inr :
      (ordinal : ℕ) (o : String ⊎ String) (x y : ExternalAccess)
      (next : ExternalAccess → String ⊎ ExternalAccess)
      → announce_read address object ordinal o x next ≡ inr y
      → (a : String) × (o ≡ inr a) × (next (announce_data ordinal a (object ordinal) x) ≡ inr y)
  unfolding announce_read
  read_inr ordinal (inl e) x y next h = cc
  read_inr ordinal (inr a) x y next h = (a, refl, h)

  step :
      (start count : ℕ) (x y : ExternalAccess)
      → announce_from address object start (suc count) x ≡ inr y
      → (a : String) × (address start ≡ inr a)
        × (announce_from address object (suc start) count (announce_data start a (object start) x)
            ≡ inr y)
  unfolding announce_from
  step start count x y h =
      read_inr start (address start) x y (announce_from address object (suc start) count) h

  stop : (start : ℕ) (x y : ExternalAccess) → announce_from address object start 0 x ≡ inr y → x ≡ y
  unfolding announce_from
  stop start x y h = cc

  other_address :
      (ordinal : ℕ) (a : String) (x : ExternalAccess) (k : ℕ)
      → ordinal ≢ k
      → (announce_data ordinal a (object ordinal) x).addresses.data_instances k
        ≡ x.addresses.data_instances k
  unfolding announce_data address_for
  other_address ordinal a x k n = ground (arith, eqb_iff ordinal k)

  own_address :
      (ordinal : ℕ) (a : String) (x : ExternalAccess)
      → x.addresses.data_instances ordinal ≡ ""
      → (announce_data ordinal a (object ordinal) x).addresses.data_instances ordinal ≡ a
  unfolding announce_data address_for
  own_address ordinal a x none_yet = ground (arith, eqb_iff ordinal ordinal, eq_iff a "")

  data_pending :
      (ordinal : ℕ) (a : String) (x : ExternalAccess) (name : String)
      → In name (announce_data ordinal a (object ordinal) x).pending
        ↔ (In name x.pending ⊎ ((a ≡ "") × (object ordinal ≡ name)))
  unfolding announce_data
  data_pending ordinal a x name = In-waiting_on name a (object ordinal) x.pending

  same_coordinators :
      (ordinal : ℕ) (a : String) (x : ExternalAccess)
      → (announce_data ordinal a (object ordinal) x).addresses.coordinators
        ≡ x.addresses.coordinators
  unfolding announce_data
  same_coordinators ordinal a x = refl

  from_Kept :
      (start count : ℕ) (x y : ExternalAccess)
      → announce_from address object start count x ≡ inr y
      → Kept start x y × (y.addresses.coordinators ≡ x.addresses.coordinators)
  from_Kept start zero x y h =
      let same = stop start x y h in
      (
        λ k below. ap (λ (e : ExternalAccess). e.addresses.data_instances k) (sym same),
        ap (λ (e : ExternalAccess). e.addresses.coordinators) (sym same),
      )
  from_Kept start (suc count) x y h =
      let (a, _, rest) = step start count x y h in
      let (kept, shared) =
        from_Kept (suc start) count (announce_data start a (object start) x) y rest in
      (
        λ k below. kept k (omega arith) ∙ other_address start a x k (λ e. omega (arith, e)),
        shared ∙ same_coordinators start a x,
      )

  from_addresses :
      (start count : ℕ) (x y : ExternalAccess)
      → announce_from address object start count x ≡ inr y
      → ((k : ℕ) → start ≤ k → x.addresses.data_instances k ≡ "")
      → (k : ℕ) → start ≤ k
      → k < start + count
      → address k ≡ inr (y.addresses.data_instances k)
  from_addresses start zero x y h none_yet k low high = absurd (omega arith)
  from_addresses start (suc count) x y h none_yet k low high =
      let (a, read, rest) = step start count x y h in
      let next = announce_data start a (object start) x in
      elim (Bool-cases (eqb start k)) [
        | inl t ↦
            let same = (eqb_iff start k).0 t in
            let (kept, _) = from_Kept (suc start) count next y rest in
            subst (λ n. address n ≡ inr (y.addresses.data_instances n)) same
              (read
                ∙ ap inr (
                    sym (
                      kept start (omega arith)
                      ∙ own_address start a x (none_yet start (omega arith)))))
        | inr f ↦
            let apart : start ≢ k =
              λ e. let yes_ : eqb start k ≡ true = (eqb_iff start k).1 e in cc in
            from_addresses (suc start) count next y rest
              (λ j above.
                other_address start a x j (λ e. omega (arith, e)) ∙ none_yet j (omega arith))
              k (omega (arith, apart)) (omega arith)
      ]

  from_pending :
      (start count : ℕ) (x y : ExternalAccess) (name : String)
      → announce_from address object start count x ≡ inr y
      → In name y.pending ↔ (In name x.pending ⊎ Owes start count name)
  from_pending start zero x y name h =
      let same = stop start x y h in
      (
        λ i. inl (subst (λ (e : ExternalAccess). In name e.pending) (sym same) i),
        λ o. elim o [
          | inl i ↦ subst (λ (e : ExternalAccess). In name e.pending) same i
          | inr (k, low, high, _, _) ↦ absurd (omega arith)
        ],
      )
  from_pending start (suc count) x y name h =
      let (a, read, rest) = step start count x y h in
      let next = announce_data start a (object start) x in
      let (later, back) = from_pending (suc start) count next y name rest in
      let (here, mark) = data_pending start a x name in
      (
        λ i. elim (later i) [
          | inl j ↦ elim (here j) [
            | inl old ↦ inl old
            | inr (empty, named) ↦ inr (start, omega arith, omega arith, read ∙ ap inr empty, named)
          ]
          | inr (k, low, high, owed, named) ↦ inr (k, omega arith, omega arith, owed, named)
        ],
        λ o. elim o [
          | inl old ↦ back (inl (mark (inl old)))
          | inr (k, low, high, owed, named) ↦ elim (Bool-cases (eqb start k)) [
            | inl t ↦
                let same = (eqb_iff start k).0 t in
                let both : inr a ≡ inr "" = sym read ∙ ap address same ∙ owed in
                let empty : a ≡ "" = cc in back (inl (mark (inr (empty, ap object same ∙ named))))
            | inr f ↦
                let apart : start ≢ k =
                  λ e. let yes_ : eqb start k ≡ true = (eqb_iff start k).1 e in cc in
                back (inr (k, omega (arith, apart), omega arith, owed, named))
          ]
        ],
      )

  -- Where every read succeeds: the pass waits on exactly the objects of members that have no address
  -- yet, the coordinators' and each declared data instance's, and the members are announced at what was
  -- read.
  pub exposure_lem :
      (coordinators : String ⊎ String) (coordinators_object : String) (count : ℕ)
      (e : ExternalAccess)
      → observe_members address object coordinators coordinators_object count ≡ inr e
      → (coordinators ≡ inr e.addresses.coordinators)
        × ((k : ℕ) → k < count → address k ≡ inr (e.addresses.data_instances k))
        × ((name : String)
            → In name e.pending
              ↔ (((coordinators ≡ inr "") × (coordinators_object ≡ name)) ⊎ Owes 0 count name))
  unfolding observe_members
  exposure_lem (inl err) coordinators_object count e h = cc
  exposure_lem (inr a) coordinators_object count e h =
      let first = announce_coordinators a coordinators_object new_external_access in
      let (_, shared) = from_Kept 0 count first e h in
      (
        ap inr (sym (shared ∙ unfold announce_coordinators in refl)),
        λ k small.
            from_addresses 0 count first e h
              (λ j above. unfold announce_coordinators in unfold new_external_access in refl) k
              (omega arith) (omega arith),
        λ name.
            let (later, back) = from_pending 0 count first e name h in
            let (here, mark) = In-waiting_on name a coordinators_object [] in
            (
              λ i. elim (later i) [
                | inl j ↦ elim (here (first_pending name j)) [
                  | inl never ↦ absurd never
                  | inr (empty, named) ↦ inl (ap inr empty, named)
                ]
                | inr owes ↦ inr owes
              ],
              λ o. elim o [
                | inl (owed, named) ↦
                    let empty : a ≡ "" = cc in
                    back (inl (pending_first name (mark (inr (empty, named)))))
                | inr owes ↦ back (inr owes)
              ],
            ),
      )
    where
      first_pending :
          (name : String)
          → In name (announce_coordinators a coordinators_object new_external_access).pending
          → In name (waiting_on a coordinators_object [])
      first_pending name i = unfold announce_coordinators in unfold new_external_access in i

      pending_first :
          (name : String)
          → In name (waiting_on a coordinators_object [])
          → In name (announce_coordinators a coordinators_object new_external_access).pending
      pending_first name i = unfold announce_coordinators in unfold new_external_access in i
