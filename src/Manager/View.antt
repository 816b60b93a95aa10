-- ===== src/Manager/View.antt =====
-- The abstract view of the manager of policy/manager.go, and what stopHandler does to it.
use nomad_autoscaler.Prelude.{
  ℕ, String, str_eq, ◌≡◌, refl, sym, ◌∙◌, Bool, false, ◌||◌, List, [], ◌∷◌, get_elem?, set, Option,
  none, some, lookup, delete, arith, if◌then◌else◌, ◌>>=◌, >>=-eq-some, >>=-some-eq-some, inl, inr,
  Bool-cases, lookup-delete,
}
use nomad_autoscaler.Handler.{Handler, stop}
use nomad_autoscaler.Manager.{Manager, Routine, Phase, stop_handler}
use nomad_autoscaler.Manager.Pointers.{read, read-at, read-set}
use nomad_autoscaler.Manager.Validity.{
  policy_of, source_of, stop-PhaseOk, IsValid, delete-Valid, set-Valid,
}

-- An attribute of the routine that a policy's entry points at.
unfoldable pub view {ℓ} : {A : Type ℓ} → (Routine → A) → Manager → String → Option A
view f m id = lookup id m.handlers >>= λ a. read f m.routines a

-- The abstract view of a manager: the source that manages a policy, if it has a handler.
abbrev pub managed : Manager → String → Option String
managed = view source_of

abbrev pub contains : String → List String → Bool
contains id [] = false
contains id (k ∷ ks) = str_eq k id || contains id ks

abbrev pub is_from : String → Option String → Bool
is_from source none = false
is_from source (some s) = str_eq s source

pub stop-keeps :
    (h h' : Handler) → stop h ≡ some h' → (h'.policy_id ≡ h.policy_id) × (h'.source ≡ h.source)
unfolding stop
stop-keeps h h' e = ground arith

pub stop_handler-eq-some :
    (a : ℕ) (m m' : Manager)
    → stop_handler a m ≡ some m'
    → (r : Routine) × (h : Handler) × (get_elem? m.routines a ≡ some r)
      × (stop r.handler ≡ some h)
      × (m' ≡ record m {
        routines = set m.routines a (record r { handler = h });
        handlers = delete h.policy_id m.handlers;
      })
unfolding stop_handler
stop_handler-eq-some a m m' e =
    let after = λ (r : Routine) (h : Handler). record m {
      routines = set m.routines a (record r { handler = h });
      handlers = delete h.policy_id m.handlers;
    } in
    let (r, at, e') =
      >>=-eq-some (get_elem? m.routines a) (λ r. stop r.handler >>= λ h. some (after r h)) e in
    let (h, stops, same) = >>=-some-eq-some (stop r.handler) (after r) e' in
    (r, h, at, stops, sym same)

-- A view does not change when the routines keep the attribute.
view_through {ℓ} :
    {A : Type ℓ} (f : Routine → A) (entry : Option ℕ) (rs rs' : List Routine)
    → ((b : ℕ) → read f rs' b ≡ read f rs b)
    → (entry >>= λ b. read f rs' b) ≡ (entry >>= λ b. read f rs b)
view_through f none rs rs' same = refl
view_through f (some b) rs rs' same = same b

policy_of_entry :
    (k : String) (a : ℕ) (r : Routine) (m : Manager)
    → IsValid m
    → lookup k m.handlers ≡ some a
    → get_elem? m.routines a ≡ some r
    → policy_of r ≡ k
policy_of_entry k a r m valid at at_r =
    let named = (valid.entries k a at).0 in let there = read-at policy_of m.routines a r at_r in cc

-- Stopping the handler at an entry takes the entry out and leaves the other policies alone.
pub stop_handler-view {ℓ} :
    {A : Type ℓ} (f : Routine → A)
    → ((r : Routine) (h : Handler) → stop r.handler ≡ some h → f (record r { handler = h }) ≡ f r)
    → (k : String) (a : ℕ) (m m' : Manager) → IsValid m
    → lookup k m.handlers ≡ some a
    → stop_handler a m ≡ some m'
    → IsValid m'
      × (m'.keep ≡ m.keep)
      × ((id : String) → view f m' id ≡ (if str_eq k id then none else view f m id))
unfolding view
stop_handler-view f stable k a m m' valid at e =
    let (r, h, at_r, stops, is_m') = stop_handler-eq-some a m m' e in
    let (same_id, _) = stop-keeps r.handler h stops in
    let is_k : h.policy_id ≡ k = same_id ∙ policy_of_entry k a r m valid at at_r in
    let r' : Routine = record r { handler = h } in
    let rs = set m.routines a r' in
    let good = stop-PhaseOk r.phase r.handler h (valid.phases a r at_r) stops in
    let valid' = delete-Valid (set-Valid valid a r r' at_r same_id refl good) h.policy_id in
    rw is_m' (
      valid',
      refl,
      λ id.
          (rw is_k (
            rw (lookup-delete k id m.handlers) elim (Bool-cases (str_eq k id)) [
              | inl here ↦ rw here refl
              | inr other ↦ rw other (
                  view_through f (lookup id m.handlers) m.routines rs
                    (λ b. read-set f m.routines a b r r' at_r (stable r h stops)))
            ])),
    )

abbrev pub phase_of : Routine → Phase
phase_of r = r.phase

-- `Stop` keeps the source of a handler.
pub source_of-stable :
    (r : Routine) (h : Handler)
    → stop r.handler ≡ some h
    → source_of (record r { handler = h }) ≡ source_of r
source_of-stable r h stops = (stop-keeps r.handler h stops).1
