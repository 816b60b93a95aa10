-- ===== src/Manager/Panics.antt =====
-- When a listing panics in policy/manager.go: it stops a handler that has no ticker yet.
use nomad_autoscaler.Prelude.{
  ℕ, String, str_eq, ◌≡◌, ◌↔◌, refl, sym, subst, ap, ◌∙◌, Bool, true, false, not, ◌&&◌, ◌||◌, List,
  [], ◌∷◌, get_elem?, set, delete, Option, none, some, lookup, is_some, arith, if◌then◌else◌,
  >>=-some-eq-none_iff, inl, inr, eq_iff, eq_refl, Map, Bool-cases, Option-cases,
}
use nomad_autoscaler.Handler.{Handler, stop}
use nomad_autoscaler.Manager.{
  Manager, Routine, marked, stop_handler, visit, visit_all, kept, ensure_all, keys, reconcile,
}
use nomad_autoscaler.Manager.Pointers.{read-at, read-eq-some}
use nomad_autoscaler.Manager.Validity.{policy_of, source_of, IsValid, stop-eq-none_iff}
use nomad_autoscaler.Manager.View.{view, source_of-stable, phase_of, managed, contains, is_from}
use nomad_autoscaler.Manager.Ensure.{source_or, ensure_all-managed, ensure_all-view_ne}
use nomad_autoscaler.Manager.Refinement.{dropped_of_keys}
use nomad_autoscaler.Manager.Listing.{
  is_dropped, dropped_of_entry, unmanaged, not_dropped, visit-view,
}

stop_handler-eq-none_iff :
    (k : String) (a : ℕ) (r : Routine) (m : Manager)
    → IsValid m
    → get_elem? m.routines a ≡ some r
    → (stop_handler a m ≡ none) ↔ (r.phase ≡ marked)
unfolding stop_handler
stop_handler-eq-none_iff k a r m valid at_r =
    let after = λ (h : Handler). record m {
      routines = set m.routines a (record r { handler = h });
      handlers = delete h.policy_id m.handlers;
    } in
    let (fwd, back) = >>=-some-eq-none_iff (stop r.handler) after in
    let (fwd', back') = stop-eq-none_iff r.phase r.handler (valid.phases a r at_r) in
    rw at_r (λ e. fwd' (fwd e), λ e. back (back' e))

view-entry :
    (k : String) (a : ℕ) (r : Routine) (m : Manager)
    → lookup k m.handlers ≡ some a
    → get_elem? m.routines a ≡ some r
    → view phase_of m k ≡ some r.phase
unfolding view
view-entry k a r m at at_r = rw at (read-at phase_of m.routines a r at_r)

-- One entry can be visited without a panic unless its policy is dropped and its goroutine is between
-- the assignment of `running` and the creation of the ticker.
pub visit-eq-none_iff :
    (source k : String) (m : Manager)
    → IsValid m
    → (visit source k m ≡ none)
      ↔ ((is_dropped source m k ≡ true) × (view phase_of m k ≡ some marked))
unfolding visit
visit-eq-none_iff source k m valid = elim (Option-cases (lookup k m.handlers)) [
  | inl missing ↦
      let stays = not_dropped source k m (unmanaged k m missing) in
      let same : visit source k m ≡ some m = rw (missing, visit) refl in
      (λ e. cc, λ w. cc (w.0, stays))
  | inr (a, at) ↦
      let (r, at_r, _) = read-eq-some policy_of m.routines a k (valid.entries k a at).0 in
      let dropped = dropped_of_entry source k a r m at at_r in
      let phase = view-entry k a r m at at_r in
      let (fwd, back) = stop_handler-eq-none_iff k a r m valid at_r in
      let opened : visit source k m ≡ (
          if not (kept k m) && str_eq r.handler.source source then stop_handler a m else some m) =
        rw (at, visit, at_r) refl in
      elim (Bool-cases (not (kept k m) && str_eq r.handler.source source)) [
        | inl goes ↦
            let opened' : visit source k m ≡ stop_handler a m = opened ∙ rw goes refl in
            (
              λ e. (dropped ∙ goes, phase ∙ ap some (fwd (sym opened' ∙ e))),
              λ w. opened' ∙ back (cc (w.1, phase)),
            )
        | inr stays ↦
            let opened' : visit source k m ≡ some m = opened ∙ rw stays refl in
            (λ e. cc, λ w. cc (w.0, dropped, stays))
      ]
]

-- What a listing panics at.
abbrev pub IsPitfall : String → Manager → String → Type 0
IsPitfall source m id = (is_dropped source m id ≡ true) × (view phase_of m id ≡ some marked)

module _ (source k : String) (m m1 : Manager) (valid : IsValid m)
    (visited : visit source k m ≡ some m1) where
  IsPitfall-visit : (id : String) → IsPitfall source m1 id → IsPitfall source m id
  unfolding kept
  IsPitfall-visit id (dropped, phase) =
      let (_, keep1, sources) = visit-view source_of source_of-stable source k m m1 valid visited in
      let (_, _, phases) = visit-view phase_of (λ r h stops. refl) source k m m1 valid visited in
      elim (Bool-cases (str_eq k id && is_dropped source m id)) [
        | inl gone ↦
            let gone' : view phase_of m1 id ≡ none = phases id ∙ rw gone refl in absurd (cc)
        | inr stays ↦
            let same : managed m1 id ≡ managed m id = sources id ∙ rw stays refl in
            let same' : view phase_of m1 id ≡ view phase_of m id = phases id ∙ rw stays refl in
            let same_keep = ap (λ (w : Map Bool). not (is_some (lookup id w))) keep1 in
            (rw (same, same_keep) at dropped, sym same' ∙ phase)
      ]

  IsPitfall-visit_later :
      (id : String) → IsPitfall source m id → (str_eq k id ≡ false) × IsPitfall source m1 id
  unfolding kept
  IsPitfall-visit_later id (dropped, phase) =
      let (_, keep1, sources) = visit-view source_of source_of-stable source k m m1 valid visited in
      let (_, _, phases) = visit-view phase_of (λ r h stops. refl) source k m m1 valid visited in
      let (_, back) = visit-eq-none_iff source k m valid in
      elim (Bool-cases (str_eq k id)) [
        | inl here ↦
            let pit = subst (IsPitfall source m) (sym ((eq_iff k id).0 here)) (dropped, phase) in
            let panics = back pit in cc
        | inr other ↦
            let same : managed m1 id ≡ managed m id = sources id ∙ rw other refl in
            let same' : view phase_of m1 id ≡ view phase_of m id = phases id ∙ rw other refl in
            let same_keep = ap (λ (w : Map Bool). not (is_some (lookup id w))) keep1 in
            (other, (rw (same, same_keep) dropped, same' ∙ phase))
      ]

visit_all-eq-none_iff :
    (source : String) (ks : List String) (m : Manager)
    → IsValid m
    → (visit_all source ks m ≡ none)
      ↔ ((id : String) × (contains id ks ≡ true) × IsPitfall source m id)
unfolding visit_all
visit_all-eq-none_iff source [] m valid = (λ e. cc, λ w. cc (w.1))
visit_all-eq-none_iff source (k ∷ ks) m valid =
    let (fwd, back) = visit-eq-none_iff source k m valid in
    elim (Option-cases (visit source k m)) [
      | inl panics ↦ (λ e. (k, rw (eq_refl k) refl, fwd panics), λ w. rw panics refl)
      | inr (m1, at) ↦
          let (valid1, _, _) = visit-view phase_of (λ r h stops. refl) source k m m1 valid at in
          let (fwd', back') = visit_all-eq-none_iff source ks m1 valid1 in
          rw at (
            λ e.
                let (id, there, pit) = fwd' e in
                (id, rw there (ground arith), IsPitfall-visit source k m m1 valid at id pit),
            λ (id, there, pit).
                let (other, pit') = IsPitfall-visit_later source k m m1 valid at id pit in
                back' (id, rw other at there, pit'),
          )
    ]

is_from-eq-true_iff :
    (source : String) (o : Option String) → (is_from source o ≡ true) ↔ (o ≡ some source)
is_from-eq-true_iff source none = (λ e. cc, λ e. cc)
is_from-eq-true_iff source (some s) =
    (λ e. ap some ((eq_iff s source).0 e), λ e. (eq_iff s source).1 (cc))

drop_listed :
    (listed : Bool) (source : String) (old : Option String)
    → (not (listed || false)
        && is_from source (if listed then some (source_or old source) else old))
      ≡ (not listed && is_from source old)
drop_listed true source old = refl
drop_listed false source old = refl

-- After the loop over the listed policies, those of the source that are not listed are dropped.
module _ (source id : String) (ids : List String) (m : Manager) (valid : IsValid m) where
  dropped_after_listed :
      is_dropped source (ensure_all source ids (record m { keep = [] })) id
      ≡ (not (contains id ids) && is_from source (managed m id))
  unfolding kept lookup view
  dropped_after_listed =
      let (_, sources, kepts) = ensure_all-managed source ids (record m { keep = [] }) valid in
      rw (sources id, kepts id) (drop_listed (contains id ids) source (managed m id))

-- A listing panics exactly if a policy of its source is not listed any more while the goroutine of its
-- handler is between the assignment of `running` and the creation of the ticker.
pub reconcile-eq-none_iff :
    (source : String) (ids : List String) (m : Manager)
    → IsValid m
    → (reconcile source ids m ≡ none) ↔ (
        (id : String) × (contains id ids ≡ false)
        × (managed m id ≡ some source)
        × (view phase_of m id ≡ some marked))
unfolding reconcile view
reconcile-eq-none_iff source ids m valid =
    let m0 : Manager = record m { keep = [] } in
    let m1 : Manager = ensure_all source ids m0 in
    let (valid1, _, _) = ensure_all-managed source ids m0 valid in
    let (fwd, back) = visit_all-eq-none_iff source (keys m1.handlers) m1 valid1 in
    (
      λ e.
          let (id, _, (dropped, phase)) = fwd e in
          let both : (not (contains id ids) && is_from source (managed m id)) ≡ true =
            sym (dropped_after_listed source id ids m valid) ∙ dropped in
          let unlisted : contains id ids ≡ false = ground arith in
          let from : is_from source (managed m id) ≡ true = rw unlisted at both in
          let same = ensure_all-view_ne phase_of source id ids m0 valid unlisted in
          (id, unlisted, (is_from-eq-true_iff source (managed m id)).0 from, sym same ∙ phase),
      λ (id, unlisted, is_source, phase).
          let from = (is_from-eq-true_iff source (managed m id)).1 is_source in
          let dropped : is_dropped source m1 id ≡ true =
            dropped_after_listed source id ids m valid ∙ rw (unlisted, from) refl in
          let there : contains id (keys m1.handlers) ≡ true =
            ground (arith, dropped_of_keys source id m1) in
          let same = ensure_all-view_ne phase_of source id ids m0 valid unlisted in
          back (id, there, (dropped, same ∙ phase)),
    )
