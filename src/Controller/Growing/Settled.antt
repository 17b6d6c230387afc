-- ===== src/Controller/Growing/Settled.antt =====
-- internal/controller/memgraphdbcluster_controller.go, `reconcileVolumes`: the passes that leave nothing of a
-- resize.
use Prim.Native.Nat.{Ordering}
use kubernetes_operator.Prelude.{
  String, ◌≡◌, refl, sym, ap, ◌∙◌, subst, ◌↔◌, ◌⊎◌, inl, inr, Bool, true, false, Option, none, some,
  List, [], ◌∷◌, Bool-cases, append_nil_iff, arith,
}
use kubernetes_operator.Prelude.Map.{Map}
use kubernetes_operator.Prelude.Ranges.{Entries, IsRange}
use kubernetes_operator.Planner.View.{is_empty}
use kubernetes_operator.Volumes.Claims.{Role, Decision}
use kubernetes_operator.Volumes.{decide}
use kubernetes_operator.Volumes.AtSize.{IsResized, unpatched, decide_iff}
use kubernetes_operator.Controller.Convergence.{VolumeOutcome, nothing_grown, is_grown}
use kubernetes_operator.Controller.Pass.Calls.{
  DeleteAnswer, deleted, not_found, conflict, not_deleted,
}
use kubernetes_operator.Controller.Growing.{
  ClaimedRole, VolumeCalls, goes_on, VolumesEnd, Patched, observe_claims, grow_all, recreation,
  adds, after_patches, role_observed, is_leaving, volumes_from, reconcile_volumes, role_turn,
}

is_empty_iff : {A : Type 0} (xs : List A) → (is_empty xs ≡ true) ↔ (xs ≡ [])
unfolding is_empty
is_empty_iff [] = (λ h. refl, λ h. refl)
is_empty_iff (x ∷ xs) = (λ h. cc, λ h. cc)

is_grown_iff :
    (o : VolumeOutcome)
    → (is_grown o ≡ true) ↔ ((o.growing ≡ []) × (o.refused ≡ []) × (o.failed ≡ []))
unfolding is_grown
is_grown_iff o = (
  λ h. (
    (is_empty_iff o.growing).0 (ground arith),
    (is_empty_iff o.refused).0 (ground arith),
    (is_empty_iff o.failed).0 (ground arith),
  ),
  λ (g, r, f).
      rw ((is_empty_iff o.growing).1 g, (is_empty_iff o.refused).1 r, (is_empty_iff o.failed).1 f)
        refl,
)

module _ {Q S : Type 0} (calls : VolumeCalls Q S) (zero_quantity : Q) (show : Q → String)
    (cmp : Q → Q → Ordering) (range : Map Q → Entries Q) where
  -- Each role in turn is read, its StatefulSet is not being deleted, and it is resized.
  abbrev pub AreResized : List (ClaimedRole Q) → S → Type 0
  AreResized [] s = Unit
  AreResized (r ∷ rs) s =
      (is_leaving r.live ≡ false)
      × ((role : Role Q) × (t : S) × (observe_claims calls zero_quantity show cmp range r s
            ≡ (inr role, t))
          × IsResized cmp role
          × AreResized rs t)

  -- A pass that goes on and leaves nothing of a resize.
  abbrev Quiet : VolumesEnd S → Type 0
  Quiet e = (e.ending ≡ goes_on) × (is_grown e.outcome ≡ true)

  recreation-stops :
      (name : String) (o : VolumeOutcome) (events : _) (answer : DeleteAnswer) (s : S)
      → ¬ ((recreation calls zero_quantity show cmp range name o events answer s).ending ≡ goes_on)
  unfolding recreation
  recreation-stops name o events deleted s e = cc
  recreation-stops name o events not_found s e = cc
  recreation-stops name o events conflict s e = cc
  recreation-stops name o events (not_deleted why) s e = cc

  -- The outcome stays what it was where nothing is added, and is not done where it was not.
  adds_iff :
      (o : VolumeOutcome) (d : Decision Q) (refusals : List String)
      → (is_grown (adds calls zero_quantity show cmp range o d refusals) ≡ true)
        ↔ ((is_grown o ≡ true) × (d.growing ≡ []) × (refusals ≡ []) × (d.failed ≡ []))
  unfolding adds
  adds_iff o d refusals =
      let whole = is_grown_iff (adds calls zero_quantity show cmp range o d refusals) in
      let before = is_grown_iff o in
      let g = append_nil_iff o.growing d.growing in
      let r = append_nil_iff o.refused refusals in
      let f = append_nil_iff o.failed d.failed in
      (
        λ h.
            let (growing, refusal, failure) = whole.0 h in
            (
              before.1 ((g.0 growing).0, (r.0 refusal).0, (f.0 failure).0),
              (g.0 growing).1,
              (r.0 refusal).1,
              (f.0 failure).1,
            ),
        λ (old, growing, refusal, failure).
            let (og, orr, of) = before.0 old in
            whole.1 (g.1 (og, growing), r.1 (orr, refusal), f.1 (of, failure)),
      )

  after_patches_iff :
      (name : String) (o : VolumeOutcome) (d : Decision Q) (failure : Option String) (p : Patched S)
      (next : VolumeOutcome → S → VolumesEnd S)
      → Quiet (after_patches calls zero_quantity show cmp range name o d failure p next) ↔ (
          (failure ≡ none)
          × (d.recreate ≡ false)
          × Quiet (next (adds calls zero_quantity show cmp range o d p.refusals) p.state))
  unfolding after_patches
  after_patches_iff name o d (some e) p next = (λ h. cc, λ h. cc)
  after_patches_iff name o d none p next = elim (Bool-cases d.recreate) [
    | inl t ↦ rw t (λ h. absurd (recreation-stops name _ p.events _ _ h.0), λ h. cc)
    | inr f ↦ rw f (λ h. (refl, refl, h), λ (_, _, h). h)
  ]

  role_observed_iff :
      (whole : (m : Map Q) → IsRange m (range m)) (name : String) (o : VolumeOutcome)
      (x : (String ⊎ Role Q) × S) (rs : List (ClaimedRole Q))
      → ((o : VolumeOutcome) (s : S)
          → Quiet (volumes_from calls zero_quantity show cmp range rs o s)
            ↔ ((is_grown o ≡ true) × AreResized rs s))
      → Quiet (
          role_observed calls zero_quantity show cmp range name o x
            (volumes_from calls zero_quantity show cmp range rs))
        ↔ ((is_grown o ≡ true)
            × ((role : Role Q) × (t : S) × (x ≡ (inr role, t))
                × IsResized cmp role
                × AreResized rs t))
  unfolding role_observed
  role_observed_iff whole name o (inl e, s) rs later = (λ h. cc, λ h. cc)
  role_observed_iff whole name o (inr role, s) rs later =
      let d = decide cmp range role in
      let p = grow_all calls zero_quantity show cmp range d.patches s in
      let after = after_patches_iff name o d p.failure p _ in
      let added = adds_iff o d p.refusals in
      let resized = decide_iff cmp range role (whole role.desired) in
      let untouched : d.growing ≡ [] → p ≡ grow_all calls zero_quantity show cmp range [] s =
        λ growing.
          ap (λ ps. grow_all calls zero_quantity show cmp range ps s)
            (unpatched cmp range role growing) in
      let ends : d.growing ≡ [] → p.state ≡ s =
        λ growing. ap (λ (q : Patched S). q.state) (untouched growing) ∙ unfold grow_all in refl in
      (
        λ h.
            let (_, stays, rest) = after.0 h in
            let (sums, others) = (later _ p.state).0 rest in
            let (before, growing, _, failure) = added.0 sums in
            (
              before,
              (
                role,
                s,
                refl,
                resized.0 (growing, failure, stays),
                subst (AreResized rs) (ends growing) others,
              ),
            ),
        λ (before, (other, t, e, resizes, others)).
            let same : role ≡ other = cc in
            let here : s ≡ t = cc in
            let (growing, failure, stays) = resized.1 (subst (IsResized cmp) (sym same) resizes) in
            after.1 (
              ap (λ (q : Patched S). q.failure) (untouched growing) ∙ unfold grow_all in refl,
              stays,
              (later _ p.state).1 (
                added.1 (
                  before,
                  growing,
                  ap (λ (q : Patched S). q.refusals) (untouched growing) ∙ unfold grow_all in refl,
                  failure,
                ),
                subst (AreResized rs) (sym here ∙ sym (ends growing)) others,
              ),
            ),
      )

  role_turn_iff :
      (whole : (m : Map Q) → IsRange m (range m)) (leaving : Bool) (r : ClaimedRole Q)
      (o : VolumeOutcome) (s : S) (rs : List (ClaimedRole Q))
      → ((o : VolumeOutcome) (s : S)
          → Quiet (volumes_from calls zero_quantity show cmp range rs o s)
            ↔ ((is_grown o ≡ true) × AreResized rs s))
      → Quiet (
          role_turn calls zero_quantity show cmp range leaving r o s
            (volumes_from calls zero_quantity show cmp range rs))
        ↔ ((is_grown o ≡ true)
            × (leaving ≡ false)
            × ((role : Role Q) × (t : S) × (observe_claims calls zero_quantity show cmp range r s
                  ≡ (inr role, t))
                × IsResized cmp role
                × AreResized rs t))
  unfolding role_turn
  role_turn_iff whole true r o s rs later = (λ h. cc, λ (_, never, _). cc)
  role_turn_iff whole false r o s rs later =
      let both =
        role_observed_iff whole r.name o (observe_claims calls zero_quantity show cmp range r s) rs
          later in
      (
        λ h. let (before, read) = both.0 h in (before, refl, read),
        λ (before, _, read). both.1 (before, read),
      )

  volumes_from_iff :
      ((m : Map Q) → IsRange m (range m))
      → (rs : List (ClaimedRole Q)) (o : VolumeOutcome) (s : S)
      → Quiet (volumes_from calls zero_quantity show cmp range rs o s)
        ↔ ((is_grown o ≡ true) × AreResized rs s)
  unfolding volumes_from
  volumes_from_iff whole [] o s = (λ h. (h.1, tt), λ h. (refl, h.0))
  volumes_from_iff whole (r ∷ rs) o s =
      let both = role_turn_iff whole (is_leaving r.live) r o s rs (volumes_from_iff whole rs) in
      (
        λ h. let (before, stays, read) = both.0 h in (before, (stays, read)),
        λ (before, (stays, read)). both.1 (before, stays, read),
      )

  -- A pass goes on with nothing left of a resize exactly if each role's claims and pods were read, its
  -- StatefulSet is not being deleted and has no smaller template than the spec, and each bound claim
  -- that the spec sizes asks for that, is not given up on, and has a volume that holds what it asks
  -- for, unless no pod mounts it and only its filesystem is left to grow. The entries of a map are
  -- ranged over as `IsRange` says.
  pub volumes_settled_iff :
      ((m : Map Q) → IsRange m (range m))
      → (rs : List (ClaimedRole Q)) (s : S)
      → (((reconcile_volumes calls zero_quantity show cmp range rs s).ending ≡ goes_on)
          × (is_grown (reconcile_volumes calls zero_quantity show cmp range rs s).outcome ≡ true))
        ↔ AreResized rs s
  unfolding reconcile_volumes
  volumes_settled_iff whole rs s =
      let both = volumes_from_iff whole rs nothing_grown s in
      (λ h. let (_, read) = both.0 h in read, λ h. both.1 (unfold is_grown in refl, h))
