-- ===== src/Topology/Apart.antt =====
-- internal/resources/topology.go, `endpoints`: no two endpoints of a pass stand for one pod.
use Prim.Native.String.{◌++◌}
use text.Mathlib.TextLemmas.{append_cancel_left, append-nil}
use kubernetes_operator.Prelude.{
  ℕ, zero, suc, ◌≤◌, String, ◌≡◌, ◌≢◌, sym, ap, ◌∙◌, inl, inr, In, concat, arith, eq_iff,
}
use kubernetes_operator.Prelude.Decimal.{decimal}
use kubernetes_operator.Prelude.Naming.{numbered_injective}
use kubernetes_operator.Prelude.Sorted.{Distinct}
use kubernetes_operator.Topology.{
  Cluster, coordinator_set_name, data_set_name, pod_name, Endpoint, endpoints_from,
  coordinator_endpoints, data_endpoints,
}

pod_name_injective : (s t : String) (m n : ℕ) → pod_name s m ≡ pod_name t n → (s ≡ t) × (m ≡ n)
unfolding pod_name concat
pod_name_injective s t m n p = numbered_injective s t m n (
    ap (λ u. s ++ ("-" ++ u)) (sym (append-nil (decimal m)))
    ∙ p
    ∙ ap (λ u. t ++ ("-" ++ u)) (append-nil (decimal n)))

sets_apart : (cluster : Cluster) → data_set_name cluster ≢ coordinator_set_name cluster
unfolding data_set_name coordinator_set_name concat
sets_apart cluster p =
    let q : "-data" ≡ "-coordinator" = append_cancel_left cluster.name _ _ p in
    ground (arith, eq_iff "-data" "-coordinator", q)

module _ (cluster : Cluster) (set : String) (instance : ℕ → String) where
  endpoints_from-pod :
      (start count : ℕ) (e : Endpoint)
      → In e (endpoints_from cluster set instance start count)
      → (n : ℕ) × (start ≤ n) × (pod_name set n ≡ e.pod)
  unfolding endpoints_from
  endpoints_from-pod start zero e h = absurd h
  endpoints_from-pod start (suc count) e (inl same) =
      (start, omega arith, ap (λ (x : Endpoint). x.pod) same)
  endpoints_from-pod start (suc count) e (inr i) =
      let (n, low, named) = endpoints_from-pod (suc start) count e i in
      (n, omega (arith, low), named)

  endpoints_from-Distinct :
      (start count : ℕ)
      → Distinct (λ (e : Endpoint). e.pod) (endpoints_from cluster set instance start count)
  unfolding endpoints_from
  endpoints_from-Distinct start zero = tt
  endpoints_from-Distinct start (suc count) = (
    λ e i same.
        let (n, low, named) = endpoints_from-pod (suc start) count e i in
        let (_, equal) = pod_name_injective set set start n (same ∙ sym named) in
        omega (arith, low, equal),
    endpoints_from-Distinct (suc start) count,
  )

module _ (cluster : Cluster) where
  pub data_endpoints-Distinct :
      (n : ℕ) → Distinct (λ (e : Endpoint). e.pod) (data_endpoints cluster n)
  unfolding data_endpoints
  data_endpoints-Distinct n = endpoints_from-Distinct cluster _ _ 0 n

  pub coordinator_endpoints-Distinct :
      (n : ℕ) → Distinct (λ (e : Endpoint). e.pod) (coordinator_endpoints cluster n)
  unfolding coordinator_endpoints
  coordinator_endpoints-Distinct n = endpoints_from-Distinct cluster _ _ 0 n

  pub roles_apart :
      (m n : ℕ) (d c : Endpoint)
      → In d (data_endpoints cluster m)
      → In c (coordinator_endpoints cluster n)
      → d.pod ≢ c.pod
  unfolding data_endpoints coordinator_endpoints
  roles_apart m n d c i j same =
      let (k, _, of_data) = endpoints_from-pod cluster _ _ 0 m d i in
      let (l, _, of_coordinator) = endpoints_from-pod cluster _ _ 0 n c j in
      let (sets, _) = pod_name_injective _ _ k l (of_data ∙ same ∙ sym of_coordinator) in
      sets_apart cluster sets
