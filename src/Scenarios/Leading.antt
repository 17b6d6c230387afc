-- ===== src/Scenarios/Leading.antt =====
-- A follower answers first, and names the leader.
use kubernetes_operator.Prelude.{
  ℕ, suc, ◌-◌, String, ◌≡◌, refl, inr, false, none, List, [], ◌∷◌, In,
}
use kubernetes_operator.Memgraph.{is_leader, equal_fold}
use kubernetes_operator.Topology.{Endpoint}
use kubernetes_operator.Controller.Leader.{
  Connector, found, observed_leader, endpoint_address, leader_address, append_error, view_of,
  show_over, show_instances, reached, follow_to, follow, answered, observe_from, observe_cluster,
}
use kubernetes_operator.Controller.Leader.Connections.{Counts, kept, observe_cluster-Kept}
use kubernetes_operator.Controller.Leader.Views.{Leads, observe_cluster-Leads}
use kubernetes_operator.Scenarios.Cluster.{steady_rows}

-- The state counts the open connections, and a connection is the address that it was opened to.
abbrev connector : Connector ℕ String
connector = record {
  connect = λ address tls n. (inr address, suc n);
  show = λ c n. (inr steady_rows, n);
  close = λ c n. (none, n - 1);
}

abbrev opened : ℕ → ℕ
opened n = n

counts : Counts connector opened
counts = record { connects = λ address tls n. refl; shows = λ c n. refl; closes = λ c n. refl }

abbrev endpoint : String → String → Endpoint
endpoint name address = record { name = name; pod = address; address = address; tls = false }

abbrev endpoints : List Endpoint
endpoints = endpoint "coordinator_1" "p1" ∷ endpoint "coordinator_0" "p0" ∷ []

sighted : observe_cluster connector endpoints 0 ≡ (found "p0" steady_rows, 1)
unfolding observe_cluster observe_from answered follow follow_to reached show_instances show_over
    view_of append_error leader_address endpoint_address observed_leader is_leader equal_fold
sighted = refl

observe_cluster-Kept_example :
    (observe_cluster connector endpoints 0).1 ≡ kept (observe_cluster connector endpoints 0).0 0
observe_cluster-Kept_example = observe_cluster-Kept connector opened counts endpoints 0

observe_cluster-Leads_example :
    (e : Endpoint) × In e endpoints × Leads connector endpoints "p0" steady_rows e
observe_cluster-Leads_example =
    observe_cluster-Leads connector endpoints 0 "p0" steady_rows (λ i. (sighted i).0)
