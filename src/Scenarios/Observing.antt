-- ===== src/Scenarios/Observing.antt =====
-- A data role while its StatefulSet replaces a pod: one pod is on its way out and still passes its probes.
use mathlib.Core.Logic.{◌≢◌}
use kubernetes_operator.Prelude.{
  String, ◌≡◌, refl, sym, ap, ◌∙◌, true, false, inl, inr, List, [], ◌∷◌, ◌==◌, eq_iff,
}
use kubernetes_operator.Prelude.Decimal.{decimal}
use kubernetes_operator.Prelude.Map.{insert, lookup}
use kubernetes_operator.Prelude.Sorted.{Distinct}
use kubernetes_operator.Topology.{data_instance_name}
use kubernetes_operator.Controller.Observing.{
  PodRead, SetRead, ObservedRole, role_of_pods, observe_rollout_role,
}
use kubernetes_operator.Controller.Observing.Seen.{Sees, role_seen}

abbrev data_set : SetRead
data_set = record {
  update_revision = "r2";
  generation = 3;
  observed_generation = 3;
  flags = "";
  template = "t2";
}

abbrev leaving : PodRead
leaving = record {
  name = "demo-data-1";
  uid = "u1";
  is_deleting = true;
  conditions = ("Ready", "True") ∷ [];
  revision = "r1";
  flags = "";
  template = "t1";
}

abbrev stays : PodRead
stays = record {
  name = "demo-data-0";
  uid = "u0";
  is_deleting = false;
  conditions = ("PodScheduled", "True") ∷ ("Ready", "True") ∷ [];
  revision = "r2";
  flags = "";
  template = "t2";
}

-- A pod of no ordinal below the count.
abbrev stray : PodRead
stray = record {
  name = "demo-data-7";
  uid = "u7";
  is_deleting = false;
  conditions = [];
  revision = "r1";
  flags = "";
  template = "t1";
}

abbrev listed : List PodRead
listed = leaving ∷ stray ∷ stays ∷ []

abbrev seen : ObservedRole
seen = role_of_pods "demo-data" 2 data_set data_instance_name 3 listed

-- Each pod's ordinal order, and its readiness.
in_order :
    seen.role.pods
    ≡ record {
      name = "demo-data-0";
      uid = "u0";
      instance_name = "instance_0";
      ordinal = 0;
      revision_hash = "r2";
      current = false;
      ready = true;
    }
      ∷ record {
        name = "demo-data-1";
        uid = "u1";
        instance_name = "instance_1";
        ordinal = 1;
        revision_hash = "r1";
        current = false;
        ready = false;
      }
      ∷ []
unfolding role_of_pods data_instance_name decimal insert lookup
in_order = refl

apart : (a b : String) → (a == b) ≡ false → a ≢ b
apart a b other e = let same : (a == b) ≡ true = (eq_iff a b).1 e in cc

alone : Distinct (λ (p : PodRead). p.name) listed
alone = (
  λ p i e. elim i [
    | inl first ↦
        apart "demo-data-1" "demo-data-7" refl (e ∙ sym (ap (λ (x : PodRead). x.name) first))
    | inr (inl second) ↦
        apart "demo-data-1" "demo-data-0" refl (e ∙ sym (ap (λ (x : PodRead). x.name) second))
    | inr (inr never) ↦ absurd never
  ],
  (
    λ p i e. elim i [
      | inl first ↦
          apart "demo-data-7" "demo-data-0" refl (e ∙ sym (ap (λ (x : PodRead). x.name) first))
      | inr never ↦ absurd never
    ],
    (λ p i e. absurd i, tt),
  ),
)

role_seen_example : Sees "demo-data" 2 data_set data_instance_name 3 listed seen
role_seen_example =
    role_seen "demo-data" 2 data_set data_instance_name 3 listed seen alone
      (unfold observe_rollout_role in refl)
