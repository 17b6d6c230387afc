-- ===== src/Controller.antt =====
-- internal/controller/memgraphdbcluster_controller.go: the decisions of a reconcile pass. What the pass
-- reads of Kubernetes and of the cluster is an argument, and what it goes on to do is a value.
pub mod Replicas
pub mod Registration
pub mod Shedding
pub mod Conditions
pub mod Ready
pub mod Status
pub mod CoordinatorSettings
pub mod Pass
pub mod Leader
pub mod Events
pub mod Applying
pub mod Settling
pub mod Secrets
pub mod FlagClasses
pub mod Exposure
pub mod Convergence
pub mod Growing
pub mod Observing
pub mod Cycle
pub mod SystemUser
