-- ===== src/Manager/Refinement.antt =====
-- A listing of policy IDs in policy/manager.go refines an update of a map from policies to sources.
use nomad_autoscaler.Prelude.{
  ℕ, String, str_eq, ◌≡◌, refl, subst, ap, ◌∙◌, Bool, false, not, ◌&&◌, ◌||◌, List, [], ◌∷◌, Option,
  none, some, Map, lookup, is_some, arith, if◌then◌else◌, >>=-eq-some, inl, inr, Option-cases,
}
use nomad_autoscaler.Manager.{Manager, visit, visit_all, kept, ensure_all, keys, reconcile}
use nomad_autoscaler.Manager.Validity.{source_of, IsValid}
use nomad_autoscaler.Manager.View.{view, source_of-stable, managed, contains, is_from}
use nomad_autoscaler.Manager.Listing.{is_dropped, unmanaged, visit-view}
use nomad_autoscaler.Manager.Ensure.{source_or, ensure_all-managed}

drop_again :
    (here there listed : Bool) (source : String) (old : Option String)
    → (let now = if here && (not listed && is_from source old) then none else old in
        if there && (not listed && is_from source now) then none else now)
      ≡ (if (here || there) && (not listed && is_from source old) then none else old)
drop_again here there listed source none = ground arith
drop_again here there listed source (some s) = ground arith

visit_all-managed :
    (source : String) (ks : List String) (m m' : Manager)
    → IsValid m
    → visit_all source ks m ≡ some m'
    → IsValid m'
      × (m'.keep ≡ m.keep)
      × ((id : String)
          → managed m' id
            ≡ (if contains id ks && is_dropped source m id then none else managed m id))
unfolding visit_all kept
visit_all-managed source [] m m' valid e =
    let same : m ≡ m' = cc in
    subst (λ w. IsValid w × (w.keep ≡ m.keep) × ((id : String) → managed w id ≡ managed m id)) same
      (valid, refl, λ id. refl)
visit_all-managed source (k ∷ ks) m m' valid e =
    let (m1, at, e') = >>=-eq-some (visit source k m) (λ w. visit_all source ks w) e in
    let (valid1, keep1, view1) = visit-view source_of source_of-stable source k m m1 valid at in
    let (valid', keep', view') = visit_all-managed source ks m1 m' valid1 e' in
    (
      valid',
      keep' ∙ keep1,
      λ id.
          view' id
          ∙ rw (ap (λ (w : Map Bool). is_some (lookup id w)) keep1, view1 id)
              (drop_again (str_eq k id) (contains id ks) (is_some (lookup id m.keep)) source
                (managed m id)),
    )

pub contains-keys :
    (id : String) (handlers : Map ℕ) → contains id (keys handlers) ≡ is_some (lookup id handlers)
unfolding keys lookup
contains-keys id [] = refl
contains-keys id ((k, a) ∷ rest) = ground (arith, contains-keys id rest)

pub dropped_of_keys :
    (source id : String) (m : Manager)
    → (contains id (keys m.handlers) && is_dropped source m id) ≡ is_dropped source m id
dropped_of_keys source id m = elim (Option-cases (lookup id m.handlers)) [
  | inl missing ↦ rw (unmanaged id m missing) (ground arith)
  | inr (a, at) ↦ rw (contains-keys id m.handlers, at) refl
]

update_steps :
    (listed : Bool) (source : String) (old : Option String)
    → (let now = if listed then some (source_or old source) else old in
        if not (listed || false) && is_from source now then none else now)
      ≡ (if listed then some (source_or old source) else if is_from source old then none else old)
update_steps listed source none = ground arith
update_steps listed source (some s) = ground arith

-- The update of a map from policies to the sources that manage them by a listing of the source.
abbrev pub updated : String → List String → (String → Option String) → String → Option String
updated source ids old id =
    if contains id ids
    then some (source_or (old id) source)
    else if is_from source (old id)
    then none
    else old id

-- A listing of a source's policy IDs that does not panic updates the map from policies to the sources
-- that manage them: a listed policy keeps its handler or gets one of this source, a policy of this
-- source that is not listed loses its handler, and the policies of other sources keep theirs. The
-- manager stays valid.
pub reconcile-updated :
    (source : String) (ids : List String) (m m' : Manager)
    → IsValid m
    → reconcile source ids m ≡ some m'
    → IsValid m' × ((id : String) → managed m' id ≡ updated source ids (managed m) id)
unfolding reconcile view kept lookup
reconcile-updated source ids m m' valid e =
    let m0 : Manager = record m { keep = [] } in
    let m1 : Manager = ensure_all source ids m0 in
    let (valid1, view1, kept1) = ensure_all-managed source ids m0 valid in
    let (valid', _, view') = visit_all-managed source (keys m1.handlers) m1 m' valid1 e in
    (
      valid',
      λ id.
          view' id
          ∙ rw (dropped_of_keys source id m1)
              (rw (view1 id, kept1 id) (update_steps (contains id ids) source (managed m id))),
    )
