-- ===== src/Volumes/Claims.antt =====
-- internal/volumes/volumes.go: the types of the decision, over the type `Q` of quantities.
use kubernetes_operator.Prelude.{ℕ, String, Bool, Option, List}
use kubernetes_operator.Prelude.Map.{Map}

pub record Claim (Q : Type 0) : Type 0 where
  pub name : String
  pub template : String
  pub ordinal : ℕ
  pub bound : Bool
  pub request : Q
  pub capacity : Q
  pub resize_pending : Bool
  pub infeasible : String
  pub resize_error : String

pub record Pod : Type 0 where
  pub name : String
  pub ordinal : ℕ

pub record Patch (Q : Type 0) : Type 0 where
  pub claim : String
  pub size : Q

-- `live` is `none` where there is no StatefulSet.
pub record Role (Q : Type 0) : Type 0 where
  pub stateful_set : String
  pub desired : Map Q
  pub live : Option (Map Q)
  pub claims : List (Claim Q)
  pub pods : List Pod

pub record Decision (Q : Type 0) : Type 0 where
  pub patches : List (Patch Q)
  pub recreate : Bool
  pub growing : List String
  pub errors : List String
  pub failed : List String
