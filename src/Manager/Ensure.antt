-- ===== src/Manager/Ensure.antt =====
-- What a listing of policy IDs does to the handlers of policy/manager.go: the entries that it adds.
use nomad_autoscaler.Prelude.{
  ℕ, String, str_eq, ◌≡◌, refl, subst, ap, ◌∙◌, Bool, true, false, ◌||◌, List, [], ◌∷◌, length,
  Option, none, some, lookup, insert, is_some, arith, if◌then◌else◌, inl, inr, eq_iff, Bool-cases,
  Option-cases, lookup-insert,
}
use nomad_autoscaler.Handler.{new_handler}
use nomad_autoscaler.Manager.{Manager, Routine, starting, kept, create, ensure, ensure_all}
use nomad_autoscaler.Manager.Pointers.{read-eq-some, read-at, read-append, read-append_last}
use nomad_autoscaler.Manager.Validity.{policy_of, source_of, IsValid, create-Valid}
use nomad_autoscaler.Manager.View.{view, managed, contains}
use nomad_autoscaler.Manager.Listing.{unmanaged}

abbrev pub source_or : Option String → String → String
source_or none s = s
source_or (some t) s = t

or_again :
    (here there : Bool) (source : String) (old : Option String)
    → (let now = if here then some (source_or old source) else old in
        if there then some (source_or now source) else now)
      ≡ (if here || there then some (source_or old source) else old)
or_again here there source none = ground arith
or_again here there source (some s) = ground arith

managed_of_entry :
    (m : Manager) (id : String) (a : ℕ)
    → IsValid m
    → lookup id m.handlers ≡ some a
    → (s : String) × (managed m id ≡ some s)
unfolding view
managed_of_entry m id a valid at =
    let (r, at_r, _) = read-eq-some policy_of m.routines a id (valid.entries id a at).0 in
    (source_of r, rw at (read-at source_of m.routines a r at_r))

kept_insert :
    (k id : String) (m : Manager)
    → is_some (lookup id (insert k true m.keep)) ≡ (str_eq k id || is_some (lookup id m.keep))
kept_insert k id m = rw (lookup-insert k id true m.keep) (ground arith)

create-view {ℓ} :
    {A : Type ℓ} (f : Routine → A) (k source id : String) (m : Manager)
    → IsValid m
    → view f (create k source m) id ≡ (
        if str_eq k id
        then some (f (record { phase = starting; handler = new_handler k source }))
        else view f m id)
unfolding view create
create-view f k source id m valid =
    let r : Routine = record { phase = starting; handler = new_handler k source } in
    rw (lookup-insert k id (length m.routines) m.handlers) (elim (Bool-cases (str_eq k id)) [
      | inl here ↦ rw here (read-append_last f m.routines r)
      | inr other ↦ rw other (elim (Option-cases (lookup id m.handlers)) [
        | inl missing ↦ rw missing refl
        | inr (b, at) ↦
            let (t, at_t, _) = read-eq-some policy_of m.routines b id (valid.entries id b at).0 in
            let there = read-at f m.routines b t at_t in
            rw (at, there) (read-append f m.routines r b (f t) there)
      ])
    ])

-- A policy that is listed has the source that manages it already, or else the listing one.
source_or_new :
    (k source id : String) (m : Manager)
    → managed m k ≡ none
    → (if str_eq k id then some source else managed m id)
      ≡ (if str_eq k id then some (source_or (managed m id) source) else managed m id)
source_or_new k source id m missing =
    ground (arith, eq_iff k id, ap (λ q. source_or q source) missing)

source_or_old :
    (k source id s : String) (m : Manager)
    → managed m k ≡ some s
    → managed m id ≡ (if str_eq k id then some (source_or (managed m id) source) else managed m id)
source_or_old k source id s m at = elim (Bool-cases (str_eq k id)) [
  | inl here ↦
      subst
        (λ q.
          managed m q ≡ (if str_eq k q then some (source_or (managed m q) source) else managed m q))
        ((eq_iff k id).0 here) (rw at (ground arith))
  | inr other ↦ rw other refl
]

-- A handler for a listed policy: it is kept, or the source gets one.
ensure-managed :
    (source k : String) (m : Manager)
    → IsValid m
    → IsValid (ensure source k m)
      × ((id : String)
          → managed (ensure source k m) id
            ≡ (if str_eq k id then some (source_or (managed m id) source) else managed m id))
      × ((id : String) → kept id (ensure source k m) ≡ (str_eq k id || kept id m))
unfolding ensure kept view new_handler
ensure-managed source k m valid =
    let m1 : Manager = record m { keep = insert k true m.keep } in
    let marked = λ (id : String). kept_insert k id m in
    elim (Option-cases (lookup k m.handlers)) [
      | inl missing ↦
          let made : ensure source k m ≡ create k source m1 = rw (missing, ensure) refl in
          rw made (
            create-Valid valid k source,
            λ id.
                create-view source_of k source id m1 valid
                ∙ source_or_new k source id m (unmanaged k m missing),
            marked,
          )
      | inr (a, at) ↦
          let same : ensure source k m ≡ m1 = rw (at, ensure) refl in
          let (s, at_s) = managed_of_entry m k a valid at in
          rw same (valid, λ id. source_or_old k source id s m at_s, marked)
    ]

pub ensure_all-managed :
    (source : String) (ids : List String) (m : Manager)
    → IsValid m
    → IsValid (ensure_all source ids m)
      × ((id : String)
          → managed (ensure_all source ids m) id
            ≡ (if contains id ids then some (source_or (managed m id) source) else managed m id))
      × ((id : String) → kept id (ensure_all source ids m) ≡ (contains id ids || kept id m))
unfolding ensure_all
ensure_all-managed source [] m valid = (valid, λ id. refl, λ id. refl)
ensure_all-managed source (k ∷ ids) m valid =
    let (valid1, view1, kept1) = ensure-managed source k m valid in
    let (valid2, view2, kept2) = ensure_all-managed source ids (ensure source k m) valid1 in
    (
      valid2,
      λ id.
          view2 id ∙ rw (view1 id) (or_again (str_eq k id) (contains id ids) source (managed m id)),
      λ id. kept2 id ∙ rw (kept1 id) (ground arith),
    )

-- An entry that is not listed keeps what it points at.
pub ensure-view_ne {ℓ} :
    {A : Type ℓ} (f : Routine → A) (source k id : String) (m : Manager)
    → IsValid m
    → str_eq k id ≡ false
    → view f (ensure source k m) id ≡ view f m id
unfolding ensure view
ensure-view_ne f source k id m valid other =
    let m1 : Manager = record m { keep = insert k true m.keep } in
    elim (Option-cases (lookup k m.handlers)) [
      | inl missing ↦
          let made : ensure source k m ≡ create k source m1 = rw (missing, ensure) refl in
          rw made (create-view f k source id m1 valid ∙ rw other refl)
      | inr (a, at) ↦ let same : ensure source k m ≡ m1 = rw (at, ensure) refl in rw same refl
    ]

pub ensure_all-view_ne {ℓ} :
    {A : Type ℓ} (f : Routine → A) (source id : String) (ids : List String) (m : Manager)
    → IsValid m
    → contains id ids ≡ false
    → view f (ensure_all source ids m) id ≡ view f m id
unfolding ensure_all
ensure_all-view_ne f source id [] m valid other = refl
ensure_all-view_ne f source id (k ∷ ids) m valid other =
    let (valid1, _, _) = ensure-managed source k m valid in
    ensure_all-view_ne f source id ids (ensure source k m) valid1 (ground arith)
    ∙ ensure-view_ne f source k id m valid (ground arith)
