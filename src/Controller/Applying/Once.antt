-- ===== src/Controller/Applying/Once.antt =====
-- internal/controller/memgraphdbcluster_controller.go, `observedSettings`: what a pass remembers of the
-- pods' settings, across any sequence of applications.
use kubernetes_operator.Prelude.{
  String, ◌≡◌, refl, sym, ap, ◌∙◌, subst, ◌⊎◌, inl, inr, Option, none, some, List, [], ◌∷◌, ◌==◌,
  eq_iff, Bool-cases,
}
use kubernetes_operator.Prelude.Map.{Map, lookup, insert, lookup-insert}
use kubernetes_operator.Settings.{Change}
use kubernetes_operator.Topology.{Endpoint}
use kubernetes_operator.Controller.Applying.{
  Instances, Read, Reads, kept_read, observed_settings, apply_over, apply_planned, apply_read,
  apply_settings,
}

-- A call of `applySettings`.
pub record Attempt : Type 0 where
  pub describe : Change → String
  pub action : String
  pub endpoint : Endpoint
  pub plan : Map String → List Change

-- What becomes of a read in a pass: an error stays, and settings stay settings.
abbrev pub Becomes : Read → Read → Type 0
Becomes (inl e) r = r ≡ inl e
Becomes (inr m) r = (m' : Map String) × (r ≡ inr m')

Becomes-refl : (r : Read) → Becomes r r
Becomes-refl (inl e) = refl
Becomes-refl (inr m) = (m, refl)

Becomes-trans : (r t u : Read) → Becomes r t → Becomes t u → Becomes r u
Becomes-trans (inl e) t u h k = subst (λ x. Becomes x u) h k
Becomes-trans (inr m) t u (m', e) k = subst (λ x. Becomes x u) e k

-- The pod has an entry that `r` became.
abbrev Remembers : String → Read → Reads → Type 0
Remembers name r reads = (r' : Read) × (lookup name reads ≡ some r') × Becomes r r'

Remembers-insert :
    (name other : String) (r new : Read) (reads : Reads)
    → (other ≡ name → Becomes r new)
    → Remembers name r reads
    → Remembers name r (insert other new reads)
Remembers-insert name other r new reads same (old, found, b) = elim (Bool-cases (other == name)) [
  | inl t ↦ (new, lookup-insert other name new reads ∙ rw t refl, same ((eq_iff other name).0 t))
  | inr f ↦ (old, lookup-insert other name new reads ∙ rw f found, b)
]

module _ {S Connection : Type 0} (instances : Instances S Connection) where
  -- The reads and the state after a sequence of calls.
  unfoldable pub attempts : List Attempt → Reads × S → Reads × S
  unfolding apply_settings
  attempts [] w = w
  attempts (a ∷ rest) w =
      let done = apply_settings instances a.describe a.action a.endpoint a.plan w.0 w.1 in
      attempts rest (done.reads, done.state)

  observed_again :
      (e : Endpoint) (reads : Reads) (s : S) (r : Read)
      → lookup e.pod reads ≡ some r
      → observed_settings instances e reads s ≡ (r, reads, s)
  unfolding observed_settings kept_read
  observed_again e reads s r found = rw found refl

  -- A reading keeps the entries of the pods that were read, and knows what it returns.
  observed-Remembers :
      (e : Endpoint) (name : String) (r : Read) (reads : Reads) (s : S)
      → Remembers name r reads
      → Remembers name r (observed_settings instances e reads s).1
  unfolding observed_settings
  observed-Remembers e name r reads s old = from (lookup e.pod reads) refl
    where
      from :
          (o : Option Read)
          → lookup e.pod reads ≡ o
          → Remembers name r (kept_read instances e o reads s).1
      from (some kept) h = old
      from none h =
          Remembers-insert name e.pod r _ reads
            (λ same.
              let (known, found, b) = old in
              let never : none ≡ some known = sym h ∙ ap (λ n. lookup n reads) same ∙ found in cc)
            old

  pub observed_entry :
      (e : Endpoint) (reads : Reads) (s : S)
      → lookup e.pod (observed_settings instances e reads s).1
        ≡ some (observed_settings instances e reads s).0
  unfolding observed_settings
  observed_entry e reads s = from (lookup e.pod reads) refl
    where
      from :
          (o : Option Read)
          → lookup e.pod reads ≡ o
          → lookup e.pod (kept_read instances e o reads s).1
            ≡ some (kept_read instances e o reads s).0
      from (some kept) h = h
      from none h = lookup-insert e.pod e.pod _ reads ∙ rw ((eq_iff e.pod e.pod).1 refl) refl

  Becomes-settings : (r : Read) (m m' : Map String) → Becomes r (inr m) → Becomes r (inr m')
  Becomes-settings (inl e) m m' h = cc
  Becomes-settings (inr old) m m' h = (m', refl)

  module _ (describe : Change → String) (action : String) where
    over-Remembers :
        (e : Endpoint) (cs : List Change) (known : Map String) (name : String) (r : Read)
        (reads : Reads) (o : (String ⊎ Connection) × S)
        → lookup e.pod reads ≡ some (inr known)
        → Remembers name r reads
        → Remembers name r (apply_over instances describe action e cs known reads o).reads
    unfolding apply_over
    over-Remembers e cs known name r reads (inl err, s) here old = old
    over-Remembers e cs known name r reads (inr c, s) here old =
        Remembers-insert name e.pod r _ reads
          (λ same.
            let (found, at, b) = old in
            let there : some found ≡ some (inr known) =
              sym at ∙ ap (λ n. lookup n reads) (sym same) ∙ here in
            let value : found ≡ inr known = cc in
            Becomes-settings r known _ (subst (Becomes r) value b))
          old

    planned-Remembers :
        (e : Endpoint) (cs : List Change) (known : Map String) (name : String) (r : Read)
        (reads : Reads) (s : S)
        → lookup e.pod reads ≡ some (inr known)
        → Remembers name r reads
        → Remembers name r (apply_planned instances describe action e cs known reads s).reads
    unfolding apply_planned
    planned-Remembers e [] known name r reads s here old = old
    planned-Remembers e (x ∷ xs) known name r reads s here old =
        over-Remembers e (x ∷ xs) known name r reads (instances.connect e.address e.tls s) here old

    read-Remembers :
        (e : Endpoint) (plan : Map String → List Change) (name : String) (r : Read)
        (o : Read × Reads × S)
        → lookup e.pod o.1 ≡ some o.0
        → Remembers name r o.1
        → Remembers name r (apply_read instances describe action e plan o).reads
    unfolding apply_read
    read-Remembers e plan name r (inl err, reads, s) here old = old
    read-Remembers e plan name r (inr known, reads, s) here old =
        planned-Remembers e (plan known) known name r reads s here old

  attempts_remember :
      (name : String) (r : Read) (xs : List Attempt) (w : Reads × S)
      → Remembers name r w.0
      → Remembers name r (attempts xs w).0
  unfolding attempts
  attempts_remember name r [] w old = old
  attempts_remember name r (a ∷ xs) w old = attempts_remember name r xs _ (
      read-Remembers a.describe a.action a.endpoint a.plan name r
        (observed_settings instances a.endpoint w.0 w.1) (observed_entry a.endpoint w.0 w.1)
        (observed-Remembers a.endpoint name r w.0 w.1 old))

  -- A pod's settings are read at most once in a pass: after a first reading, and after any sequence of
  -- applications, a further reading leaves the reads and the state as they are. It returns settings if
  -- the first one did, and the first one's error otherwise.
  pub settings_read_once :
      (e : Endpoint) (reads : Reads) (s : S) (xs : List Attempt)
      → let first = observed_settings instances e reads s in
        let after = attempts xs (first.1, first.2) in
        (r : Read) × (observed_settings instances e after.0 after.1 ≡ (r, after.0, after.1))
        × Becomes first.0 r
  settings_read_once e reads s xs =
      let first = observed_settings instances e reads s in
      let (r, found, b) =
        attempts_remember e.pod first.0 xs (first.1, first.2)
          (first.0, observed_entry e reads s, Becomes-refl first.0) in
      (r, observed_again e _ _ r found, b)
