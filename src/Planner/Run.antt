-- ===== src/Planner/Run.antt =====
-- internal/planner/planner.go, `SetInstanceToMain.Run`: what running a promotion leaves, against
-- any client.
use kubernetes_operator.Prelude.{
  String, ◌≡◌, ◌≢◌, refl, ap, ◌⊎◌, inl, inr, none, some, List, [], ◌∷◌, ◌++◌, ◌==◌, Bool-cases,
  if◌then◌else◌, concat, join,
}
use kubernetes_operator.Planner.Commands.{
  set_instance_to_main, Outcome, Client, errors_join, restored, restore_main, promote, run,
}

module _ {S : Type 0} (client : Client S) where
  -- Each is refused in the state that the one before left; the last state comes out.
  pub data Refused : List String → S → S → Type 0 where
    stop : (s : S) → Refused [] s s
    refuse :
        (k : String) (ks : List String) (e : String) (s s' u : S)
        → client.set_main k s ≡ (some e, s')
        → Refused ks s' u
        → Refused (k ∷ ks) s u

  errors_join-some : (es : List String) → es ≢ [] → (e : String) × (errors_join es ≡ some e)
  unfolding errors_join
  errors_join-some [] h = absurd (h refl)
  errors_join-some (e ∷ es) h = (join "\n" (e ∷ es), refl)

  -- The state in which `Restore` is tried, or not.
  abbrev pub after_restore : String → S → S
  after_restore restore u = if restore == "" then u else (client.set_main restore u).1

  restored_fails :
      (restore : String) (errs : List String) (r : Outcome S)
      → (e : String) × (restored restore errs r ≡ (some e, r.1))
  unfolding restored errors_join
  restored_fails restore errs (none, s) = (_, refl)
  restored_fails restore [] (some e, s) = (_, refl)
  restored_fails restore (x ∷ xs) (some e, s) = (_, refl)

  restore_main_fails :
      (restore : String) (errs : List String) (u : S)
      → errs ≢ []
      → (e : String) × (restore_main client restore errs u ≡ (some e, after_restore restore u))
  unfolding restore_main
  restore_main_fails restore errs u h = elim (Bool-cases (restore == "")) [
    | inl blank ↦ let (e, q) = errors_join-some errs h in (e, rw (blank, q) refl)
    | inr named ↦
        let (e, q) = restored_fails restore errs (client.set_main restore u) in
        (e, rw (named, q) refl)
  ]

  -- A candidate is accepted after those before it were refused, and ends the promotion.
  abbrev pub Promotes : List String → S → Outcome S → Type 0
  Promotes names s r =
      (before : List String) × (k : String) × (after : List String) × (u : S) × (s' : S) × (names
        ≡ before ++ k ∷ after)
      × Refused before s u
      × (client.set_main k u ≡ (none, s'))
      × (r ≡ (none, s'))

  -- Every candidate is refused, and an error comes out after the restoration.
  abbrev pub Fails : List String → String → S → Outcome S → Type 0
  Fails names restore s r =
      (u : S) × Refused names s u × ((e : String) × (r ≡ (some e, after_restore restore u)))

  abbrev note : String → String → String
  note k reason = concat ("promoting " ∷ k ∷ ": " ∷ reason ∷ [])

  snoc-ne-nil : (xs : List String) (x : String) → xs ++ x ∷ [] ≢ []
  snoc-ne-nil [] x = λ e. cc
  snoc-ne-nil (y ∷ ys) x = λ e. cc

  promote_cases :
      (names : List String) (restore : String) (errs : List String) (s : S)
      → (errs ≢ []) ⊎ (names ≢ [])
      → Promotes names s (promote client names restore errs s)
        ⊎ Fails names restore s (promote client names restore errs s)
  unfolding promote
  promote_cases [] restore errs s (inr h) = absurd (h refl)
  promote_cases [] restore errs s (inl h) = inr (s, stop s, restore_main_fails restore errs s h)
  promote_cases (k ∷ ks) restore errs s h = attempt (client.set_main k s) refl (λ reason s'.
      promote_cases ks restore (errs ++ note k reason ∷ []) s'
        (inl (snoc-ne-nil errs (note k reason))))
    where
      attempt :
          (r : Outcome S)
          → client.set_main k s ≡ r
          → ((reason : String) (s' : S)
              → Promotes ks s' (promote client ks restore (errs ++ note k reason ∷ []) s')
                ⊎ Fails ks restore s' (promote client ks restore (errs ++ note k reason ∷ []) s'))
          → Promotes (k ∷ ks) s (promote client (k ∷ ks) restore errs s)
            ⊎ Fails (k ∷ ks) restore s (promote client (k ∷ ks) restore errs s)
      attempt (none, s') e rest = inl ([], k, ks, s, s', refl, stop s, e, rw (e, promote) refl)
      attempt (some reason, s') e rest = elim (rest reason s') [
        | inl (before, j, after, u, v, split, refused, accepted, same) ↦ inl (
          k ∷ before,
          j,
          after,
          u,
          v,
          ap (λ xs. k ∷ xs) split,
          refuse k before reason s s' u e refused,
          accepted,
          rw (e, promote) same,
        )
        | inr (u, refused, (err, same)) ↦
            inr (u, refuse k ks reason s s' u e refused, (err, rw (e, promote) same))
      ]

  -- Running a promotion of at least one candidate either promotes the first candidate that the
  -- cluster does not refuse and reports no error, or reports an error after all were refused, having
  -- tried to restore the demoted MAIN if there is one.
  pub run-promotion :
      (names : List String) (restore : String) (s : S)
      → names ≢ []
      → Promotes names s (run client (set_instance_to_main names restore) s)
        ⊎ Fails names restore s (run client (set_instance_to_main names restore) s)
  unfolding run
  run-promotion names restore s h = promote_cases names restore [] s (inr h)
