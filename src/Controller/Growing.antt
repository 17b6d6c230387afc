-- ===== src/Controller/Growing.antt =====
-- internal/controller/memgraphdbcluster_controller.go: `reconcileVolumes`, `observeClaims` and `growClaim`.
-- The reads of claims and pods and the two writes are the API server's, and operations on one state
-- `S`. Quantities are a type `Q`, as in `Volumes`. A read by a role's selector names its StatefulSet,
-- and a write to a claim names the claim, which carries the version that was read. Log lines are left
-- out.
pub mod Settled
use Prim.Native.Nat.{Ordering}
use kubernetes_operator.Prelude.{
  ℕ, String, ◌⊎◌, inl, inr, Bool, true, false, Option, none, some, List, [], ◌∷◌, ◌++◌, map, concat,
}
use kubernetes_operator.Prelude.Map.{Map}
use kubernetes_operator.Prelude.Ranges.{Entries}
use kubernetes_operator.Prelude.Sorted.{sort_by}
use kubernetes_operator.Volumes.Claims.{Claim, Pod, Role, Patch, Decision}
use kubernetes_operator.Volumes.Reading.{PersistentVolumeClaim, observe}
use kubernetes_operator.Volumes.Templates.{Template, template_sizes}
use kubernetes_operator.Volumes.{decide}
use kubernetes_operator.Controller.Convergence.{VolumeOutcome, nothing_grown}
use kubernetes_operator.Controller.Events.{Event, claim, stateful_set, event}
use kubernetes_operator.Controller.Pass.Calls.{
  DeleteAnswer, deleted, not_found, conflict, not_deleted,
}
use kubernetes_operator.Controller.Replicas.{pod_ordinal}

-- The live StatefulSet: whether it has a deletion timestamp, and its claim templates.
pub record LiveSet (Q : Type 0) : Type 0 where
  pub is_deleting : Bool
  pub templates : List (Template Q)

-- `claimedRole`
pub record ClaimedRole (Q : Type 0) : Type 0 where
  pub name : String
  pub live : Option (LiveSet Q)
  pub desired : List (Template Q)

-- How the API server answers the patch of a claim.
pub data PatchAnswer : Type 0 where
  patched : PatchAnswer
  claim_gone : PatchAnswer
  claim_changed : PatchAnswer
  forbidden : String → PatchAnswer
  invalid : String → PatchAnswer
  not_patched : String → PatchAnswer

pub record VolumeCalls (Q S : Type 0) : Type 0 where
  pub list_claims : String → S → (String ⊎ List (PersistentVolumeClaim Q)) × S
  pub list_pods : String → S → (String ⊎ List String) × S
  pub patch_claim : String → Q → S → PatchAnswer × S
  pub orphan : String → S → DeleteAnswer × S

-- What `growClaim` returns: no error, one that the caller tells as a refusal, or another.
pub data Growth : Type 0 where
  grown : Growth
  refused : String → Growth
  failed : String → Growth

unfoldable pub patch_error : String → String → String
unfolding concat
patch_error name e = concat ("patching PersistentVolumeClaim " ∷ name ∷ ": " ∷ e ∷ [])

unfoldable pub growth : String → PatchAnswer → Growth
unfolding patch_error
growth name patched = grown
growth name claim_gone = grown
growth name claim_changed = grown
growth name (forbidden e) = refused (patch_error name e)
growth name (invalid e) = refused (patch_error name e)
growth name (not_patched e) = failed (patch_error name e)

-- How `reconcileVolumes` ends: the pass goes on, it ends with what is being recreated, or with an error.
pub data Ending : Type 0 where
  goes_on : Ending
  recreates : String → Ending
  fails : String → Ending

-- `live != nil && live.DeletionTimestamp != nil`
unfoldable pub is_leaving : {Q : Type 0} → Option (LiveSet Q) → Bool
is_leaving none = false
is_leaving (some live) = live.is_deleting

-- What it returns and leaves.
pub record VolumesEnd (S : Type 0) : Type 0 where
  pub ending : Ending
  pub outcome : VolumeOutcome
  pub events : List Event
  pub state : S

-- What the loop over the patches leaves: its error, if any, and the refused claims.
pub record Patched (S : Type 0) : Type 0 where
  pub failure : Option String
  pub refusals : List String
  pub events : List Event
  pub state : S

unfoldable pub waiting_text : String → String
unfolding concat
waiting_text name = concat (
    "Waiting for StatefulSet " ∷ name
    ∷ " to be deleted before recreating it; its pods and claims are kept" ∷ [])

unfoldable pub recreating_text : String → String
unfolding concat
recreating_text name = concat (
    "Recreating StatefulSet " ∷ name ∷ " with the grown claim sizes; its pods and claims are kept"
    ∷ [])

unfoldable pub orphaned_event : String → Event
unfolding event concat
orphaned_event name = event (stateful_set name) "StatefulSetOrphaned" "RecreateStatefulSet" (
    concat (
      "Deleted StatefulSet " ∷ name
      ∷ " with its pods and claims orphaned, to recreate it with grown claim templates" ∷ []))

-- The claims of the list that a template of the role names.
unfoldable pub claims_of :
    {Q : Type 0} → Q → String → List String → List (PersistentVolumeClaim Q) → List (Claim Q)
unfolding observe
claims_of zero_quantity name templates [] = []
claims_of zero_quantity name templates (c ∷ cs) =
    let rest = claims_of zero_quantity name templates cs in
    elim (observe zero_quantity name templates c) [ none ↦ rest | some found ↦ found ∷ rest ]

unfoldable pub pods_of : String → List String → List Pod
unfolding pod_ordinal
pods_of name [] = []
pods_of name (p ∷ ps) =
    let rest = pods_of name ps in
    elim (pod_ordinal name p) [ none ↦ rest | some n ↦ record { name = p; ordinal = n } ∷ rest ]

module _ {Q S : Type 0} (calls : VolumeCalls Q S) (zero_quantity : Q) (show : Q → String)
    (cmp : Q → Q → Ordering) (range : Map Q → Entries Q) where
  unfoldable pub with_pods :
      ClaimedRole Q
      → List (PersistentVolumeClaim Q)
      → (String ⊎ List String) × S
      → (String ⊎ Role Q) × S
  unfolding concat claims_of pods_of template_sizes sort_by
  with_pods r pvcs (inl e, s) =
      (inl (concat ("listing pods of StatefulSet " ∷ r.name ∷ ": " ∷ e ∷ [])), s)
  with_pods r pvcs (inr pods, s) =
      let sizes = template_sizes zero_quantity r.desired in
      let templates = sort_by (λ k. k) (map (λ (e : String × Q). e.0) (range sizes)) in
      (
        inr (record {
          stateful_set = r.name;
          desired = sizes;
          live = elim r.live [
            | none ↦ none
            | some live ↦ some (template_sizes zero_quantity live.templates)
          ];
          claims = claims_of zero_quantity r.name templates pvcs;
          pods = pods_of r.name pods;
        }),
        s,
      )

  unfoldable pub with_claims :
      ClaimedRole Q → (String ⊎ List (PersistentVolumeClaim Q)) × S → (String ⊎ Role Q) × S
  unfolding concat with_pods
  with_claims r (inl e, s) =
      (inl (concat ("listing PersistentVolumeClaims of StatefulSet " ∷ r.name ∷ ": " ∷ e ∷ [])), s)
  with_claims r (inr pvcs, s) = with_pods r pvcs (calls.list_pods r.name s)

  -- `observeClaims`
  unfoldable pub observe_claims : ClaimedRole Q → S → (String ⊎ Role Q) × S
  unfolding with_claims
  observe_claims r s = with_claims r (calls.list_claims r.name s)

  -- One turn of the loop over the patches, before the patches that follow.
  unfoldable pub patch_answered : Patch Q → Growth → S → (S → Patched S) → Patched S
  unfolding event concat
  patch_answered p grown s next =
      let rest = next s in
      record rest {
        events =
            event (claim p.claim) "VolumeExpansionRequested" "ExpandVolume"
              (concat ("Requested " ∷ show p.size ∷ " for PersistentVolumeClaim " ∷ p.claim ∷ []))
            ∷ rest.events;
      }
  patch_answered p (refused e) s next =
      let rest = next s in
      record rest { refusals = concat (p.claim ∷ ": " ∷ e ∷ []) ∷ rest.refusals }
  patch_answered p (failed e) s next = record {
    failure = some e;
    refusals = [];
    events = [];
    state = s;
  }

  -- `growClaim`
  unfoldable pub grow_claim : Patch Q → S → Growth × S
  unfolding growth
  grow_claim p s =
      let answer = calls.patch_claim p.claim p.size s in (growth p.claim answer.0, answer.1)

  unfoldable pub grow_all : List (Patch Q) → S → Patched S
  unfolding patch_answered grow_claim
  grow_all [] s = record { failure = none; refusals = []; events = []; state = s }
  grow_all (p ∷ ps) s =
      let answer = grow_claim p s in patch_answered p answer.0 answer.1 (grow_all ps)

  -- The pass ends with the recreation of the StatefulSet, unless its deletion is refused.
  unfoldable pub recreation : String → VolumeOutcome → List Event → DeleteAnswer → S → VolumesEnd S
  unfolding concat recreating_text orphaned_event
  recreation name outcome events (not_deleted e) s = record {
    ending = fails (concat ("deleting StatefulSet " ∷ name ∷ " to recreate it: " ∷ e ∷ []));
    outcome = outcome;
    events = events;
    state = s;
  }
  recreation name outcome events deleted s = record {
    ending = recreates (recreating_text name);
    outcome = outcome;
    events = events ++ (orphaned_event name ∷ []);
    state = s;
  }
  recreation name outcome events not_found s = record {
    ending = recreates (recreating_text name);
    outcome = outcome;
    events = events ++ (orphaned_event name ∷ []);
    state = s;
  }
  recreation name outcome events conflict s = record {
    ending = recreates (recreating_text name);
    outcome = outcome;
    events = events ++ (orphaned_event name ∷ []);
    state = s;
  }

  -- What a role adds to the outcome once its patches were made.
  unfoldable pub adds : VolumeOutcome → Decision Q → List String → VolumeOutcome
  adds o d refusals = record {
    growing = o.growing ++ d.growing;
    errors = o.errors ++ d.errors;
    refused = o.refused ++ refusals;
    failed = o.failed ++ d.failed;
  }

  -- The patches of a role were made; `next` takes the roles that follow.
  unfoldable pub after_patches :
      String
      → VolumeOutcome
      → Decision Q
      → Option String
      → Patched S
      → (VolumeOutcome → S → VolumesEnd S)
      → VolumesEnd S
  unfolding adds recreation
  after_patches name o d (some e) p next = record {
    ending = fails e;
    outcome = record o { refused = o.refused ++ p.refusals };
    events = p.events;
    state = p.state;
  }
  after_patches name o d none p next = elim d.recreate [
    | true ↦
        let answer = calls.orphan name p.state in
        recreation name (adds o d p.refusals) p.events answer.0 answer.1
    | false ↦
        let rest = next (adds o d p.refusals) p.state in
        record rest { events = p.events ++ rest.events }
  ]

  unfoldable pub role_observed :
      String
      → VolumeOutcome
      → (String ⊎ Role Q) × S
      → (VolumeOutcome → S → VolumesEnd S)
      → VolumesEnd S
  unfolding after_patches grow_all decide
  role_observed name o (inl e, s) next = record {
    ending = fails e;
    outcome = o;
    events = [];
    state = s;
  }
  role_observed name o (inr role, s) next =
      let d = decide cmp range role in
      let p = grow_all d.patches s in after_patches name o d p.failure p next

  -- One turn of the loop over the roles, before the roles that follow.
  unfoldable pub role_turn :
      Bool → ClaimedRole Q → VolumeOutcome → S → (VolumeOutcome → S → VolumesEnd S) → VolumesEnd S
  unfolding waiting_text role_observed observe_claims
  role_turn true r o s next = record {
    ending = recreates (waiting_text r.name);
    outcome = o;
    events = [];
    state = s;
  }
  role_turn false r o s next = role_observed r.name o (observe_claims r s) next

  -- The loop over the roles, on the outcome so far.
  unfoldable pub volumes_from : List (ClaimedRole Q) → VolumeOutcome → S → VolumesEnd S
  unfolding role_turn is_leaving
  volumes_from [] o s = record { ending = goes_on; outcome = o; events = []; state = s }
  volumes_from (r ∷ rs) o s = role_turn (is_leaving r.live) r o s (volumes_from rs)

  -- `reconcileVolumes`
  unfoldable pub reconcile_volumes : List (ClaimedRole Q) → S → VolumesEnd S
  unfolding volumes_from
  reconcile_volumes rs s = volumes_from rs nothing_grown s
