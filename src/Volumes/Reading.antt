-- ===== src/Volumes/Reading.antt =====
-- internal/volumes/volumes.go: a PersistentVolumeClaim read as a claim of a StatefulSet. The texts of
-- phases, conditions and statuses are those of k8s.io/api/core/v1.
use kubernetes_operator.Prelude.{
  ℕ, String, Bool, not, ◌&&◌, ◌||◌, Option, none, some, List, [], ◌∷◌, ◌==◌, if◌then◌else◌, concat,
  join, any,
}
use kubernetes_operator.Prelude.Parse.{ordinal_of}
use kubernetes_operator.Prelude.Text.{cut_prefix, fields}
use kubernetes_operator.Volumes.Claims.{Claim}

pub record Condition : Type 0 where
  pub condition_type : String
  pub status : String
  pub message : String

-- What is read of a `PersistentVolumeClaim`. The entry of a map under `storage` is `none` where the
-- map lacks it.
pub record PersistentVolumeClaim (Q : Type 0) : Type 0 where
  pub name : String
  pub phase : String
  pub request : Option Q
  pub capacity : Option Q
  pub conditions : List Condition
  pub allocated_status : Option String

-- `collapse`
unfoldable pub collapse : String → String
unfolding join fields
collapse message = join " " (fields message)

-- The status that a missing entry reads as, too.
unfoldable pub allocated : Option String → String
allocated none = ""
allocated (some status) = status

-- The first condition of the type that has a message, quoted after the status.
unfoldable pub refusal : String → String → List Condition → String
unfolding collapse
refusal status error_condition [] = status
refusal status error_condition (c ∷ cs) =
    let rest = refusal status error_condition cs in
    if (c.condition_type == error_condition) && not (c.message == "")
    then concat (status ∷ ": " ∷ collapse c.message ∷ [])
    else rest

-- `infeasible`, of the entry of `AllocatedResourceStatuses` and the conditions.
unfoldable pub infeasible : Option String → List Condition → String
unfolding refusal
infeasible none conditions = ""
infeasible (some status) conditions =
    if status == "ControllerResizeInfeasible"
    then refusal status "ControllerResizeError" conditions
    else if status == "NodeResizeInfeasible"
    then refusal status "NodeResizeError" conditions
    else ""

unfoldable pub step_error : String → List Condition → String
unfolding collapse
step_error step [] = ""
step_error step (c ∷ cs) =
    let rest = step_error step cs in
    if (c.condition_type == step) && ((c.status == "True") && not (c.message == ""))
    then collapse c.message
    else rest

-- `resizeError`
unfoldable pub resize_error : Option String → List Condition → String
unfolding step_error allocated
resize_error status conditions =
    if allocated status == "ControllerResizeInProgress"
    then step_error "ControllerResizeError" conditions
    else if allocated status == "NodeResizePending"
    then step_error "NodeResizeError" conditions
    else if allocated status == "NodeResizeInProgress"
    then step_error "NodeResizeError" conditions
    else ""

abbrev pub resize_pending_condition : Condition → Bool
resize_pending_condition c = (c.condition_type == "FileSystemResizePending") && (c.status == "True")

-- `suffix, ok := strings.CutPrefix(…)`, and the ordinal that the suffix is.
unfoldable pub suffix_ordinal : Option String → Option ℕ
unfolding ordinal_of
suffix_ordinal none = none
suffix_ordinal (some suffix) = ordinal_of suffix

module _ {Q : Type 0} (zero_quantity : Q) where
  -- `requests[corev1.ResourceStorage]`
  unfoldable pub quantity : Option Q → Q
  quantity none = zero_quantity
  quantity (some q) = q

  -- The claim that `Observe` returns for a template and an ordinal.
  unfoldable pub claim_read : String → ℕ → PersistentVolumeClaim Q → Claim Q
  unfolding quantity infeasible resize_error
  claim_read template ordinal pvc =
      let refused = infeasible pvc.allocated_status pvc.conditions in
      record {
        name = pvc.name;
        template = template;
        ordinal = ordinal;
        bound = pvc.phase == "Bound";
        request = quantity pvc.request;
        capacity = quantity pvc.capacity;
        resize_pending =
            any resize_pending_condition pvc.conditions
            || (allocated pvc.allocated_status == "NodeResizePending");
        infeasible = refused;
        resize_error =
            (if refused == "" then resize_error pvc.allocated_status pvc.conditions else "");
      }

  -- `Claim, true`, or what the loop finds for the templates that follow.
  unfoldable pub or_later :
      String → Option ℕ → PersistentVolumeClaim Q → Option (Claim Q) → Option (Claim Q)
  unfolding claim_read
  or_later template none pvc later = later
  or_later template (some n) pvc later = some (claim_read template n pvc)

  -- `Observe`
  unfoldable pub observe : String → List String → PersistentVolumeClaim Q → Option (Claim Q)
  unfolding suffix_ordinal or_later cut_prefix concat
  observe stateful_set [] pvc = none
  observe stateful_set (template ∷ templates) pvc =
      or_later template
        (suffix_ordinal (cut_prefix (concat (template ∷ "-" ∷ stateful_set ∷ "-" ∷ [])) pvc.name))
        pvc (observe stateful_set templates pvc)
