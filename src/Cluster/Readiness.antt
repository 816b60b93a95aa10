-- ===== src/Cluster/Readiness.antt =====
-- Ready of sdk/helper/scaleutils/status.go: when a pool may be scaled.
use nomad_autoscaler.Prelude.{str_eq, ◌≡◌, ◌↔◌, refl, true, List, [], inl, inr, arith}
use nomad_autoscaler.Plugins.{ok}
use nomad_autoscaler.Cluster.{Node, PoolIdentifier, identifier_key_class, Attempt-cases, succeeded}
use nomad_autoscaler.Cluster.Filter.{identify_nodes}
use nomad_autoscaler.Cluster.ScaleIn.{Client, list_nodes, check_pool, ready}
use nomad_autoscaler.Cluster.Stability.{problems}
use nomad_autoscaler.Cluster.Selection.{
  >>=-eq-succeeded, identify_nodes-eq-succeeded, list_nodes-eq-succeeded, identify_nodes-stable,
}

check_pool-eq-true :
    (p : PoolIdentifier) (nodes : List Node)
    → check_pool p nodes ≡ succeeded true
    → (str_eq p.identifier_key identifier_key_class ≡ true)
      × (pool : List Node) × (identify_nodes p nodes ≡ succeeded pool)
unfolding check_pool
check_pool-eq-true p nodes e = elim (Attempt-cases (identify_nodes p nodes)) [
  | inl (pool, at) ↦ (ground arith, pool, at)
  | inr (r, at) ↦ absurd (ground arith)
]

-- A pool is ready exactly if it is identified by class, Nomad lists its nodes, and no node makes it
-- unstable.
pub ready-eq-true_iff :
    (c : Client) (p : PoolIdentifier)
    → (ready c p ≡ succeeded true) ↔ (
        (nodes : List Node) × (c.list_nodes ≡ ok nodes)
        × (str_eq p.identifier_key identifier_key_class ≡ true)
        × (problems p.value nodes ≡ []))
unfolding ready list_nodes check_pool
ready-eq-true_iff c p = (
  λ e.
      let (nodes, listed, e') = >>=-eq-succeeded (list_nodes c) (check_pool p) e in
      let (by_class, pool, identified) = check_pool-eq-true p nodes e' in
      let (stable, _) = identify_nodes-eq-succeeded p nodes pool identified in
      (nodes, list_nodes-eq-succeeded c nodes listed, by_class, stable),
  λ (nodes, listed, by_class, stable).
      let identified = identify_nodes-stable p nodes by_class stable in
      rw (listed, list_nodes, check_pool, by_class, identified) refl,
)
