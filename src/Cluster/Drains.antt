-- ===== src/Cluster/Drains.antt =====
-- The remote IDs and the drains of sdk/helper/scaleutils/nomad.go.
use mathlib.Core.List.{append_assoc, append-nil}
use nomad_autoscaler.Prelude.{
  String, ◌≡◌, ◌≢◌, ◌⊎◌, refl, ap, sym, ◌∙◌, true, List, [], ◌∷◌, ◌++◌, map, All, if◌then◌else◌,
  some, none, Option, Bool, false, arith, inl, inr, Option-cases, pos, ◌≤ℤ◌, eqb_ℤ, eqb_ℤ_iff,
  ltb_ℤ, str_eq, eq_iff,
}
use nomad_autoscaler.Plugins.{Result, ok, failed}
use nomad_autoscaler.Cluster.{
  Node, NodeInfo, NodeId, PoolIdentifier, ScaleInReq, DrainError, succeeded, rejected,
  update_failed, monitoring_failed, num_not_positive, deadline_zero, no_pool_identifier,
  no_remote_provider, no_strategy, drains_failed, info_failed, no_id_function,
}
use nomad_autoscaler.Cluster.Filter.{is_nil}
use nomad_autoscaler.Cluster.Remote.{RemoteId, id_func_map}
use nomad_autoscaler.Cluster.ScaleIn.{
  Client, DrainSpec, validate_request, append_missing, remote_ids, get_remote_id_map, drain_node,
  drain_nodes, drain_identified, MonitorLevel, level_error, level_other, monitor_messages,
  prepend_if, is_unset,
}

abbrev pub nomad_ids : List NodeId → List String
nomad_ids = map (λ n. n.nomad_id)

abbrev pub node_ids : List Node → List String
node_ids = map (λ n. n.id)

abbrev pub spec_of : ScaleInReq → DrainSpec
spec_of req = record { deadline = req.drain_deadline; ignore_system_jobs = req.ignore_system_jobs }

map-append_last :
    (ids : List NodeId) (x : NodeId) → nomad_ids (ids ++ x ∷ []) ≡ nomad_ids ids ++ x.nomad_id ∷ []
map-append_last [] x = refl
map-append_last (i ∷ ids) x = ap (λ l. i.nomad_id ∷ l) (map-append_last ids x)

Result-cases {ℓ} :
    {A : Type ℓ} (r : Result A) → ((a : A) × (r ≡ ok a)) ⊎ ((e : String) × (r ≡ failed e))
Result-cases (ok a) = inl (a, refl)
Result-cases (failed e) = inr (e, refl)

remote_ids-nomad_ids :
    (c : Client) (id_func : NodeInfo → RemoteId) (ns : List Node) (out : List NodeId)
    (missing : List String) (ids : List NodeId)
    → remote_ids c id_func ns out missing ≡ succeeded ids
    → nomad_ids ids ≡ nomad_ids out ++ node_ids ns
unfolding remote_ids
remote_ids-nomad_ids c id_func [] out missing ids e =
    let same : out ≡ ids = ground arith in rw (← same) (sym (append-nil (nomad_ids out)))
remote_ids-nomad_ids c id_func (n ∷ ns) out missing ids e = elim (Result-cases (c.node_info n.id)) [
  | inl (info, at) ↦
      let x : NodeId = record { nomad_id = n.id; remote_id = (id_func info).value } in
      let missing' = append_missing (id_func info).missing missing in
      let e' : remote_ids c id_func ns (out ++ x ∷ []) missing' ≡ succeeded ids =
        rw (at, remote_ids) at e in
      remote_ids-nomad_ids c id_func ns (out ++ x ∷ []) missing' ids e'
      ∙ rw (map-append_last out x) (append_assoc (nomad_ids out) (n.id ∷ []) (node_ids ns))
  | inr (m, at) ↦ let e' : rejected (info_failed m) ≡ succeeded ids = rw (at, remote_ids) at e in cc
]

pub get_remote_id_map-nomad_ids :
    (c : Client) (nodes : List Node) (provider : String) (ids : List NodeId)
    → get_remote_id_map c nodes provider ≡ succeeded ids
    → nomad_ids ids ≡ node_ids nodes
unfolding get_remote_id_map
get_remote_id_map-nomad_ids c nodes provider ids e = elim (Option-cases (id_func_map provider)) [
  | inl missing ↦
      let e' : rejected (no_id_function provider) ≡ succeeded ids =
        rw (missing, get_remote_id_map) at e in
      cc
  | inr (id_func, at) ↦
      remote_ids-nomad_ids c id_func nodes [] [] ids (rw (at, get_remote_id_map) at e)
]

append-eq-nil : (xs ys : List DrainError) → xs ++ ys ≡ [] → (xs ≡ []) × (ys ≡ [])
append-eq-nil [] ys e = (refl, e)
append-eq-nil (x ∷ xs) ys e = cc

-- Nomad took the request for the drain, none of the drain's messages is an error, and neither is its
-- context.
pub record IsDrained (c : Client) (spec : DrainSpec) (id : String) : Type 0 where
  pub requested : c.update_drain id spec ≡ ok tt
  pub no_error_message : All (λ m. m.0 ≢ level_error) (c.drain_messages id)
  pub no_context_error : c.context_error id ≡ none

monitor_messages-eq-none :
    (messages : List (MonitorLevel × String)) (context_error : Option String)
    → monitor_messages messages context_error ≡ none
    → All (λ m. m.0 ≢ level_error) messages × (context_error ≡ none)
unfolding monitor_messages
monitor_messages-eq-none [] context_error e = (tt, e)
monitor_messages-eq-none ((level_error, m) ∷ rest) context_error e = absurd (cc)
monitor_messages-eq-none ((level_other, m) ∷ rest) context_error e =
    let (fine, open_context) = monitor_messages-eq-none rest context_error e in
    (((λ k. cc), fine), open_context)

drain_node-IsDrained :
    (c : Client) (spec : DrainSpec) (id : String) → drain_node c spec id ≡ [] → IsDrained c spec id
unfolding drain_node
drain_node-IsDrained c spec id e = elim (Result-cases (c.update_drain id spec)) [
  | inr (x, bad) ↦ let e' : update_failed x ∷ [] ≡ [] = rw (bad, drain_node) at e in absurd (cc)
  | inl (tt, sent) ↦
      elim (Option-cases (monitor_messages (c.drain_messages id) (c.context_error id))) [
        | inr (x, bad) ↦
            let e' : monitoring_failed x ∷ [] ≡ [] = rw (sent, drain_node, bad) at e in absurd (cc)
        | inl quiet ↦
            let (fine, open_context) =
              monitor_messages-eq-none (c.drain_messages id) (c.context_error id) quiet in
            record { requested = sent; no_error_message = fine; no_context_error = open_context }
      ]
]

pub drain_nodes-nil :
    (c : Client) (spec : DrainSpec) (ids : List NodeId)
    → drain_nodes c spec ids ≡ []
    → All (λ n. IsDrained c spec n.nomad_id) ids
unfolding drain_nodes
drain_nodes-nil c spec [] e = tt
drain_nodes-nil c spec (n ∷ ids) e =
    let (here, there) = append-eq-nil (drain_node c spec n.nomad_id) (drain_nodes c spec ids) e in
    (drain_node-IsDrained c spec n.nomad_id here, drain_nodes-nil c spec ids there)

-- What a list of identified nodes is drained to.
pub drain_identified-drained :
    (c : Client) (spec : DrainSpec) (ids : List NodeId)
    → (drain_identified c spec ids).drained ≡ nomad_ids ids
unfolding drain_identified is_nil
drain_identified-drained c spec [] = refl
drain_identified-drained c spec (n ∷ ids) = refl

settled-succeeded :
    (errors : List DrainError) (ids out : List NodeId)
    → (if is_nil errors then succeeded ids else rejected (drains_failed errors)) ≡ succeeded out
    → (out ≡ ids) × (errors ≡ [])
unfolding is_nil
settled-succeeded [] ids out e = (cc, refl)
settled-succeeded (x ∷ errors) ids out e = cc

pub drain_identified-succeeded :
    (c : Client) (spec : DrainSpec) (ids out : List NodeId)
    → (drain_identified c spec ids).answer ≡ succeeded out
    → (out ≡ ids) × (ids ≢ []) × (drain_nodes c spec ids ≡ [])
unfolding drain_identified is_nil
drain_identified-succeeded c spec [] out e = cc
drain_identified-succeeded c spec (n ∷ ids) out e =
    let (same, fine) = settled-succeeded (drain_nodes c spec (n ∷ ids)) (n ∷ ids) out e in
    (same, λ h. cc, fine)

-- A request asks for a node or more, with a time limit, a provider of remote IDs and a strategy.
pub record IsValidRequest (req : ScaleInReq) : Type 0 where
  pub some_node : pos 1 ≤ℤ req.num
  pub deadline_set : req.drain_deadline ≢ pos 0
  pub provider_set : req.remote_provider ≢ ""
  pub strategy_set : req.node_id_strategy ≢ ""

prepend_if-eq-nil {ℓ} :
    {A : Type ℓ} (test : Bool) (e : A) (errors : List A)
    → prepend_if test e errors ≡ []
    → (test ≡ false) × (errors ≡ [])
unfolding prepend_if
prepend_if-eq-nil true e errors h = absurd (cc)
prepend_if-eq-nil false e errors h = (refl, h)

pub validate_request-IsValidRequest :
    (req : ScaleInReq) → validate_request req ≡ [] → IsValidRequest req
unfolding validate_request
validate_request-IsValidRequest req h =
    let (strategy, h4) = prepend_if-eq-nil (str_eq req.node_id_strategy "") no_strategy _ h in
    let (provider, h3) =
      prepend_if-eq-nil (str_eq req.remote_provider "") no_remote_provider _ h4 in
    let (_, h2) = prepend_if-eq-nil (is_unset req.pool_identifier) no_pool_identifier _ h3 in
    let (deadline, h1) = prepend_if-eq-nil (eqb_ℤ req.drain_deadline (pos 0)) deadline_zero _ h2 in
    let (number, _) = prepend_if-eq-nil (ltb_ℤ req.num (pos 1)) num_not_positive [] h1 in
    record {
      some_node = ground (arith, number);
      deadline_set = λ e. cc (deadline, (eqb_ℤ_iff req.drain_deadline (pos 0)).1 e);
      provider_set = λ e. cc (provider, (eq_iff req.remote_provider "").1 e);
      strategy_set = λ e. cc (strategy, (eq_iff req.node_id_strategy "").1 e);
    }

-- A request without an error names a pool.
pub validate_request-pool :
    (req : ScaleInReq)
    → is_nil (validate_request req) ≡ true
    → (p : PoolIdentifier) × (req.pool_identifier ≡ some p)
unfolding validate_request is_nil
validate_request-pool req valid = elim (Option-cases req.pool_identifier) [
  | inl missing ↦ absurd (ground arith)
  | inr found ↦ found
]
