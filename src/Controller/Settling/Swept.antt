-- ===== src/Controller/Settling/Swept.antt =====
-- internal/controller/memgraphdbcluster_controller.go, the loops over the ready pods: what they leave
-- known of the pods.
use kubernetes_operator.Prelude.{
  String, ◌≡◌, ◌≢◌, refl, sym, ap, ◌∙◌, inl, inr, Bool, true, List, [], ◌∷◌, ◌++◌, In, Bool-cases,
}
use kubernetes_operator.Prelude.Map.{Map, lookup}
use kubernetes_operator.Prelude.Sorted.{Distinct}
use kubernetes_operator.Settings.{Change}
use kubernetes_operator.Settings.Diffs.{applied}
use kubernetes_operator.Topology.{Endpoint}
use kubernetes_operator.Controller.Applying.{
  Instances, Reads, Ending, landed, refused, unreachable, apply_settings,
}
use kubernetes_operator.Controller.Applying.Settled.{
  InLine, apply_settings-InLine, apply_settings_others,
}
use kubernetes_operator.Controller.Settling.{SettingsOutcome, owed, merge, is_ready, swept, sweep}

-- No pod is pending and none rejected a SET.
abbrev pub Clear : SettingsOutcome → Type 0
Clear o = (o.pending ≡ []) × (o.rejected ≡ [])

append_left : {A : Type 0} (xs ys : List A) → xs ++ ys ≡ [] → xs ≡ []
append_left [] ys h = refl
append_left (x ∷ xs) ys h = cc

append_right : {A : Type 0} (xs ys : List A) → xs ++ ys ≡ [] → ys ≡ []
append_right [] ys h = h
append_right (x ∷ xs) ys h = cc

pub merge-Clear : (o p : SettingsOutcome) → Clear (merge o p) → Clear o × Clear p
unfolding merge
merge-Clear o p (pending, rejected) = (
  (append_left o.pending p.pending pending, append_left o.rejected p.rejected rejected),
  (append_right o.pending p.pending pending, append_right o.rejected p.rejected rejected),
)

owed-Clear : (name : String) (e : Ending) → Clear (owed name e) → e ≡ landed
unfolding owed
owed-Clear name landed h = refl
owed-Clear name (unreachable e) (pending, _) = cc
owed-Clear name (refused command e) (_, rejected) = cc

module _ {S Connection : Type 0} (instances : Instances S Connection) (describe : Change → String)
    (action : String) (plan : Map String → List Change) where
  -- What is known of a pod that no endpoint of the loop names stays.
  pub sweep_others :
      (ready : Map Bool) (es : List Endpoint) (reads : Reads) (s : S) (name : String)
      → ((e : Endpoint) → In e es → e.pod ≢ name)
      → lookup name (sweep instances describe action plan ready es reads s).reads
        ≡ lookup name reads
  unfolding sweep swept
  sweep_others ready [] reads s name other = refl
  sweep_others ready (e ∷ es) reads s name other = elim (Bool-cases (is_ready ready e.pod)) [
    | inl t ↦
        let done = apply_settings instances describe action e plan reads s in
        rw t (
          sweep_others ready es done.reads done.state name (λ x i. other x (inr i))
          ∙ apply_settings_others instances describe action e plan reads s name
              (other e (inl refl)))
    | inr f ↦ rw f (sweep_others ready es reads s name (λ x i. other x (inr i)))
  ]

  -- Where the loop leaves nothing pending or rejected, every ready pod is in line, if the changes that
  -- are planned leave nothing to plan once they are made.
  pub sweep-InLine :
      (ready : Map Bool) (es : List Endpoint) (reads : Reads) (s : S)
      → ((m : Map String) → plan (applied (plan m) m) ≡ [])
      → Distinct (λ (e : Endpoint). e.pod) es
      → Clear (sweep instances describe action plan ready es reads s).outcome
      → (e : Endpoint) → In e es
      → is_ready ready e.pod ≡ true
      → InLine instances describe action e plan
          (sweep instances describe action plan ready es reads s).reads
  unfolding sweep swept
  sweep-InLine ready [] reads s settles distinct clear e i r = absurd i
  sweep-InLine ready (x ∷ es) reads s settles distinct clear e i r =
      elim (Bool-cases (is_ready ready x.pod)) [
        | inl t ↦
            let done = apply_settings instances describe action x plan reads s in
            let rest = sweep instances describe action plan ready es done.reads done.state in
            let (first, later) =
              merge-Clear (owed x.pod done.ending) rest.outcome (rw t at clear) in
            rw t (elim i [
              | inl same ↦
                  let (m, known, settled) =
                    apply_settings-InLine instances describe action x plan reads s settles
                      (owed-Clear x.pod done.ending first) in
                  (
                    m,
                    ap (λ (n : String). lookup n rest.reads)
                          (sym (ap (λ (d : Endpoint). d.pod) same))
                        ∙ sweep_others ready es done.reads done.state x.pod
                            (λ y j e'. distinct.0 y j (sym e'))
                        ∙ known,
                    settled,
                  )
              | inr j ↦ sweep-InLine ready es done.reads done.state settles distinct.1 later e j r
            ])
        | inr f ↦ rw f (elim i [
          | inl same ↦
              let never : is_ready ready x.pod ≡ true =
                ap (λ (d : Endpoint). is_ready ready d.pod) same ∙ r in
              cc
          | inr j ↦ sweep-InLine ready es reads s settles distinct.1 (rw f at clear) e j r
        ])
      ]
