-- ===== src/Manager/Listing.antt =====
-- What a listing of policy IDs does to the handlers of policy/manager.go: the entries that it stops.
use nomad_autoscaler.Prelude.{
  ℕ, String, str_eq, ◌≡◌, refl, subst, ◌∙◌, Bool, true, false, not, ◌&&◌, get_elem?, none, some,
  lookup, arith, if◌then◌else◌, >>=-eq-some, inl, inr, eq_iff, Bool-cases, Option-cases,
}
use nomad_autoscaler.Handler.{Handler, stop}
use nomad_autoscaler.Manager.{Manager, Routine, stop_handler, visit, visit_entry, kept}
use nomad_autoscaler.Manager.Pointers.{read-at}
use nomad_autoscaler.Manager.Validity.{source_of, IsValid}
use nomad_autoscaler.Manager.View.{view, managed, is_from, stop_handler-view}

-- The policy is managed by `source` and not in the list.
abbrev pub is_dropped : String → Manager → String → Bool
is_dropped source m id = not (kept id m) && is_from source (managed m id)

pub dropped_of_entry :
    (source k : String) (a : ℕ) (r : Routine) (m : Manager)
    → lookup k m.handlers ≡ some a
    → get_elem? m.routines a ≡ some r
    → is_dropped source m k ≡ (not (kept k m) && str_eq r.handler.source source)
unfolding view
dropped_of_entry source k a r m at at_r = rw (at, read-at source_of m.routines a r at_r)

pub unmanaged : (k : String) (m : Manager) → lookup k m.handlers ≡ none → managed m k ≡ none
unfolding view
unmanaged k m missing = rw missing

pub not_dropped :
    (source k : String) (m : Manager) → managed m k ≡ none → is_dropped source m k ≡ false
not_dropped source k m gone = rw gone (ground arith)

module _ {ℓ} {A : Type ℓ} (f : Routine → A)
    (stable : (r : Routine) (h : Handler)
      → stop r.handler ≡ some h
      → f (record r { handler = h }) ≡ f r) where
  -- What a visit of the entry of `k` leaves of a view.
  abbrev Visited : String → String → Manager → Manager → Type ℓ
  Visited source k m m' =
      IsValid m'
      × (m'.keep ≡ m.keep)
      × ((id : String)
          → view f m' id ≡ (if str_eq k id && is_dropped source m id then none else view f m id))

  -- An entry that is not dropped is left as it is.
  same-Visited :
      (source k : String) (m m' : Manager)
      → IsValid m
      → m ≡ m'
      → is_dropped source m k ≡ false
      → Visited source k m m'
  same-Visited source k m m' valid same stays = subst (Visited source k m) same (
    valid,
    refl,
    λ id. elim (Bool-cases (str_eq k id)) [
      | inl here ↦
          let stays' : is_dropped source m id ≡ false =
            subst (λ q. is_dropped source m q ≡ false) ((eq_iff k id).0 here) stays in
          rw (here, stays') refl
      | inr other ↦ rw other refl
    ],
  )

  visit_entry-Visited :
      (source k : String) (a : ℕ) (m m' : Manager)
      → IsValid m
      → lookup k m.handlers ≡ some a
      → visit_entry source k a m ≡ some m'
      → Visited source k m m'
  unfolding visit_entry
  visit_entry-Visited source k a m m' valid at e =
      let (r, at_r, e') =
        >>=-eq-some (get_elem? m.routines a)
          (λ r.
            if not (kept k m) && str_eq r.handler.source source then stop_handler a m else some m)
          e in
      let dropped = dropped_of_entry source k a r m at at_r in
      elim (Bool-cases (not (kept k m) && str_eq r.handler.source source)) [
        | inl goes ↦
            let (valid', same_keep, seen) =
              stop_handler-view f stable k a m m' valid at (rw goes at e') in
            (
              valid',
              same_keep,
              λ id. elim (Bool-cases (str_eq k id)) [
                | inl here ↦
                    let gone : is_dropped source m id ≡ true =
                      subst (λ q. is_dropped source m q ≡ true) ((eq_iff k id).0 here)
                        (dropped ∙ goes) in
                    seen id ∙ rw (here, gone) refl
                | inr other ↦ seen id ∙ rw other refl
              ],
            )
        | inr stays ↦ same-Visited source k m m' valid (ground arith) (dropped ∙ stays)
      ]

  -- One entry: its handler is stopped if its policy is dropped, and nothing else changes.
  pub visit-view :
      (source k : String) (m m' : Manager)
      → IsValid m
      → visit source k m ≡ some m'
      → IsValid m'
        × (m'.keep ≡ m.keep)
        × ((id : String)
            → view f m' id ≡ (if str_eq k id && is_dropped source m id then none else view f m id))
  unfolding visit
  visit-view source k m m' valid e = elim (Option-cases (lookup k m.handlers)) [
    | inl missing ↦
        let e' : some m ≡ some m' = rw (missing, visit) at e in
        same-Visited source k m m' valid (cc) (not_dropped source k m (unmanaged k m missing))
    | inr (a, at) ↦ visit_entry-Visited source k a m m' valid at (rw (at, visit) at e)
  ]
