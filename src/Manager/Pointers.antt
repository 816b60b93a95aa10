-- ===== src/Manager/Pointers.antt =====
-- What the manager reads through the pointers of policy/manager.go, and which writes leave it alone.
use nomad_autoscaler.Prelude.{
  ℕ, ◌<◌, ◌==◌, ◌≡◌, subst, true, false, List, [], ◌∷◌, ◌++◌, length, get_elem?, set, Option, some,
  ◌>>=◌, arith, inl, inr, Bool-cases, ==_iff, get_elem?-set, get_elem?-append_last,
  get_elem?-length, >>=-some-eq-some,
}
use nomad_autoscaler.Manager.{Routine}

module _ {ℓ} {A : Type ℓ} (f : Routine → A) (rs : List Routine) where
  -- A property of the routine at an address.
  unfoldable pub read : ℕ → Option A
  read a = get_elem? rs a >>= λ r. some (f r)

  pub read-at : (a : ℕ) (r : Routine) → get_elem? rs a ≡ some r → read a ≡ some (f r)
  unfolding read
  read-at a r at = rw at

  pub read-eq-some :
      (a : ℕ) (x : A) → read a ≡ some x → (r : Routine) × (get_elem? rs a ≡ some r) × (f r ≡ x)
  unfolding read
  read-eq-some a x e = >>=-some-eq-some (get_elem? rs a) f e

  pub read-lt-length : (a : ℕ) (x : A) → read a ≡ some x → a < length rs
  read-lt-length a x e = let (r, at, _) = read-eq-some a x e in get_elem?-length rs a r at

pub read-set_ne {ℓ} :
    {A : Type ℓ} (f : Routine → A) (rs : List Routine) (i j : ℕ) (r r' : Routine)
    → get_elem? rs i ≡ some r
    → (i == j) ≡ false
    → read f (set rs i r') j ≡ read f rs j
unfolding read
read-set_ne f rs i j r r' at other = rw (get_elem?-set rs i j r' r at, other)

pub read-set {ℓ} :
    {A : Type ℓ} (f : Routine → A) (rs : List Routine) (i j : ℕ) (r r' : Routine)
    → get_elem? rs i ≡ some r
    → f r' ≡ f r
    → read f (set rs i r') j ≡ read f rs j
unfolding read
read-set f rs i j r r' at same = elim (Bool-cases (i == j)) [
  | inl here ↦
      let at' : get_elem? rs j ≡ some r =
        subst (λ k. get_elem? rs k ≡ some r) ((==_iff i j).0 here) at in
      rw (get_elem?-set rs i j r' r at, here, at', same)
  | inr other ↦ read-set_ne f rs i j r r' at other
]

-- A new routine at the end leaves the others where they are.
pub read-append {ℓ} :
    {A : Type ℓ} (f : Routine → A) (rs : List Routine) (r : Routine) (a : ℕ) (x : A)
    → read f rs a ≡ some x
    → read f (rs ++ r ∷ []) a ≡ some x
unfolding read
read-append f rs r a x e =
    let inside = read-lt-length f rs a x e in
    let other : (length rs == a) ≡ false = ground arith in
    rw (get_elem?-append_last rs r a, other) e

pub read-append_last {ℓ} :
    {A : Type ℓ} (f : Routine → A) (rs : List Routine) (r : Routine)
    → read f (rs ++ r ∷ []) (length rs) ≡ some (f r)
unfolding read
read-append_last f rs r =
    let here : (length rs == length rs) ≡ true = ground arith in
    rw (get_elem?-append_last rs r (length rs), here)
