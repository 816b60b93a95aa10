-- ===== src/Cluster/Tasks.antt =====
-- RunPreScaleInTasks of sdk/helper/scaleutils/nomad.go: which nodes are drained, and when.
use nomad_autoscaler.Prelude.{
  String, ◌≡◌, ◌≢◌, ◌⊎◌, refl, ap, sym, ◌∙◌, true, false, List, [], ◌∷◌, All, some, inl, inr,
  Bool-cases,
}
use nomad_autoscaler.Plugins.{ok}
use nomad_autoscaler.Cluster.{
  Node, NodeId, PoolIdentifier, ScaleInReq, RequestError, ClusterError, Attempt-cases, succeeded,
  rejected, ◌>>=◌,
}
use nomad_autoscaler.Cluster.Filter.{is_nil}
use nomad_autoscaler.Cluster.ScaleIn.{
  Client, validate_request, identify_targets, get_remote_id_map, PreScaleIn, drain_identified,
  prepare, prepare_for, reject_request, run_pre_scale_in_tasks,
}
use nomad_autoscaler.Cluster.Stability.{problems}
use nomad_autoscaler.Cluster.Selection.{
  victims, IsRemovable, victims-IsRemovable, identify_targets-victims, >>=-eq-succeeded,
}
use nomad_autoscaler.Cluster.Drains.{
  nomad_ids, node_ids, spec_of, get_remote_id_map-nomad_ids, drain_nodes-nil,
  drain_identified-drained, drain_identified-succeeded, validate_request-pool, IsDrained,
  IsValidRequest, validate_request-IsValidRequest,
}

-- What the drained nodes are, if any.
abbrev pub DrainsVictims : Client → String → ScaleInReq → PoolIdentifier → List String → Type 0
DrainsVictims c cur req p drained =
    (nodes : List Node) × (c.list_nodes ≡ ok nodes)
    × (problems p.value nodes ≡ [])
    × (drained ≡ node_ids (victims req.num cur p.value nodes))
    × All (IsRemovable cur p.value) (victims req.num cur p.value nodes)

-- The nodes are identified, with their remote IDs, or nothing is drained.
prepare_cases :
    (c : Client) (cur : String) (req : ScaleInReq) (p : PoolIdentifier)
    → ((ids : List NodeId) × (nodes : List Node) × (identify_targets c cur req.num p
            req.node_id_strategy
          ≡ succeeded nodes)
        × (nomad_ids ids ≡ node_ids nodes)
        × (prepare c cur req p ≡ drain_identified c (spec_of req) ids))
      ⊎ ((e : ClusterError) × (prepare c cur req p ≡ record { drained = []; answer = rejected e }))
unfolding prepare
prepare_cases c cur req p =
    let targets = identify_targets c cur req.num p req.node_id_strategy in
    let remote = λ (nodes : List Node). get_remote_id_map c nodes req.remote_provider in
    elim (Attempt-cases (targets >>= remote)) [
      | inl (ids, at) ↦
          let (nodes, identified, mapped) = >>=-eq-succeeded targets remote at in
          inl (
            ids,
            nodes,
            identified,
            get_remote_id_map-nomad_ids c nodes req.remote_provider ids mapped,
            rw (at, prepare) refl,
          )
      | inr (e, at) ↦ inr (e, rw (at, prepare) refl)
    ]

prepare-drained :
    (c : Client) (cur : String) (req : ScaleInReq) (p : PoolIdentifier)
    → ((prepare c cur req p).drained ≡ []) ⊎ DrainsVictims c cur req p (prepare c cur req p).drained
prepare-drained c cur req p = elim (prepare_cases c cur req p) [
  | inl (ids, nodes, identified, same_ids, is_drained) ↦
      let (all, listed, stable, chosen) =
        identify_targets-victims c cur req.num p req.node_id_strategy nodes identified in
      let drains =
        ap (λ (r : PreScaleIn). r.drained) is_drained
        ∙ drain_identified-drained c (spec_of req) ids in
      inr (
        all,
        listed,
        stable,
        drains ∙ same_ids ∙ ap node_ids chosen,
        victims-IsRemovable req.num cur p.value all,
      )
  | inr (e, nothing) ↦ inl (ap (λ (r : PreScaleIn). r.drained) nothing)
]

-- A valid request and an invalid one.
run_valid :
    (c : Client) (cur : String) (req : ScaleInReq)
    → is_nil (validate_request req) ≡ true
    → run_pre_scale_in_tasks c cur req ≡ prepare_for c cur req req.pool_identifier
unfolding run_pre_scale_in_tasks
run_valid c cur req valid = rw valid refl

run_invalid :
    (c : Client) (cur : String) (req : ScaleInReq)
    → is_nil (validate_request req) ≡ false
    → run_pre_scale_in_tasks c cur req ≡ some (reject_request req)
unfolding run_pre_scale_in_tasks
run_invalid c cur req invalid = rw invalid refl

is_nil-eq : (xs : List RequestError) → is_nil xs ≡ true → xs ≡ []
unfolding is_nil
is_nil-eq [] e = refl
is_nil-eq (x ∷ xs) e = cc

prepare-succeeded :
    (c : Client) (cur : String) (req : ScaleInReq) (p : PoolIdentifier) (ids : List NodeId)
    (r : PreScaleIn)
    → prepare c cur req p ≡ r
    → r.answer ≡ succeeded ids
    → (ids ≢ []) × (r.drained ≡ nomad_ids ids) × All (λ n. IsDrained c (spec_of req) n.nomad_id) ids
prepare-succeeded c cur req p ids r is_r done = elim (prepare_cases c cur req p) [
  | inl (found, nodes, identified, same_ids, is_drained) ↦
      let same : drain_identified c (spec_of req) found ≡ r = sym is_drained ∙ is_r in
      let (out_is, some_id, fine) =
        drain_identified-succeeded c (spec_of req) found ids
          (ap (λ (w : PreScaleIn). w.answer) same ∙ done) in
      let drains =
        sym (ap (λ (w : PreScaleIn). w.drained) same)
        ∙ drain_identified-drained c (spec_of req) found in
      rw out_is (some_id, drains, drain_nodes-nil c (spec_of req) found fine)
  | inr (e, nothing) ↦
      let refused : rejected e ≡ succeeded ids =
        sym (ap (λ (w : PreScaleIn). w.answer) (sym is_r ∙ nothing)) ∙ done in
      absurd (cc)
]

-- The tasks before scaling in do not dereference a nil pool identifier. They request no drain at all, or
-- else the request asks for at least one node with a time limit, a provider and a strategy, no node makes its pool unstable, and they request the drain of the first
-- `Num` selectable nodes of the pool but the autoscaler's own, or of all of these if there are fewer.
-- Each of them is selectable, and it is not the autoscaler's own node if that is known.
pub run_pre_scale_in_tasks-drained :
    (c : Client) (cur : String) (req : ScaleInReq)
    → (r : PreScaleIn) × (run_pre_scale_in_tasks c cur req ≡ some r)
      × ((r.drained ≡ [])
          ⊎ ((p : PoolIdentifier) × (req.pool_identifier ≡ some p)
              × IsValidRequest req
              × DrainsVictims c cur req p r.drained))
unfolding prepare_for reject_request
run_pre_scale_in_tasks-drained c cur req = elim (Bool-cases (is_nil (validate_request req))) [
  | inl valid ↦
      let (p, at) = validate_request-pool req valid in
      let same : run_pre_scale_in_tasks c cur req ≡ some (prepare c cur req p) =
        run_valid c cur req valid ∙ ap (prepare_for c cur req) at in
      (
        prepare c cur req p,
        same,
        elim (prepare-drained c cur req p) [
          | inl nothing ↦ inl nothing
          | inr drains ↦ inr (
            p,
            at,
            validate_request-IsValidRequest req (is_nil-eq (validate_request req) valid),
            drains,
          )
        ],
      )
  | inr invalid ↦ (reject_request req, run_invalid c cur req invalid, inl refl)
]

-- If the tasks before scaling in succeed, they return at least one node, they requested the drain of
-- exactly the nodes that they return, Nomad took each of these requests, and none of the messages about
-- such a drain, nor its context, is an error.
pub run_pre_scale_in_tasks-succeeded :
    (c : Client) (cur : String) (req : ScaleInReq) (r : PreScaleIn) (ids : List NodeId)
    → run_pre_scale_in_tasks c cur req ≡ some r
    → r.answer ≡ succeeded ids
    → (ids ≢ []) × (r.drained ≡ nomad_ids ids) × All (λ n. IsDrained c (spec_of req) n.nomad_id) ids
unfolding prepare_for reject_request
run_pre_scale_in_tasks-succeeded c cur req r ids e done =
    elim (Bool-cases (is_nil (validate_request req))) [
      | inl valid ↦
          let (p, at) = validate_request-pool req valid in
          let same : run_pre_scale_in_tasks c cur req ≡ some (prepare c cur req p) =
            run_valid c cur req valid ∙ ap (prepare_for c cur req) at in
          let is_r : prepare c cur req p ≡ r = cc in prepare-succeeded c cur req p ids r is_r done
      | inr invalid ↦
          let is_r : reject_request req ≡ r =
            let both : some (reject_request req) ≡ some r =
              sym (run_invalid c cur req invalid) ∙ e in
            cc in
          let refused = ap (λ (w : PreScaleIn). w.answer) is_r ∙ done in absurd (cc)
    ]
