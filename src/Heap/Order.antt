-- ===== src/Heap/Order.antt =====
-- The order of a heap, and what is left of it between two rounds of a loop.
use nomad_autoscaler.Prelude.{
  ℕ, zero, suc, ◌<◌, ◌≢◌, ◌≡◌, Bool, true, false, List, arith, Bool-cases, inl, inr,
}
use nomad_autoscaler.Heap.{parent}
use nomad_autoscaler.Heap.Array.{entry}

-- What `Less` must satisfy: it orders the entries up to ties.
pub record IsStrictOrder {A : Type 0} (less : A → A → Bool) : Type 0 where
  pub asymmetric : (a b : A) → less a b ≡ true → less b a ≡ false
  pub tie_trans : (a b c : A) → less b a ≡ false → less c b ≡ false → less c a ≡ false

module _ {A : Type 0} (missing : A) (less : A → A → Bool) where
  -- The entry at `i` is not behind the entry at `j`.
  abbrev pub InOrder : List A → ℕ → ℕ → Type 0
  InOrder p i j = less (entry missing p j) (entry missing p i) ≡ false

  -- The first `n` entries form a heap.
  abbrev pub IsHeap : ℕ → List A → Type 0
  IsHeap n p = (c : ℕ) → 0 < c → c < n → InOrder p (parent c) c

  -- The parent of `i` is in order with the children of `i`.
  abbrev pub IsBridged : ℕ → List A → ℕ → Type 0
  IsBridged n p i = (c : ℕ) → 0 < c → c < n → parent c ≡ i → 0 < i → InOrder p (parent i) c

  -- Only edges at `i` may be out of order.
  pub record IsBroken (n : ℕ) (p : List A) (i : ℕ) : Type 0 where
    pub edges : (c : ℕ) → 0 < c → c < n → c ≢ i → parent c ≢ i → InOrder p (parent c) c
    pub bridged : IsBridged n p i

  -- Only the edge from `i` to its parent may be out of order.
  pub record IsRising (n : ℕ) (p : List A) (i : ℕ) : Type 0 where
    pub edges : (c : ℕ) → 0 < c → c < n → c ≢ i → InOrder p (parent c) c
    pub bridged : IsBridged n p i

  -- Only edges from `i` to its children may be out of order.
  pub record IsSinking (n : ℕ) (p : List A) (i : ℕ) : Type 0 where
    pub edges : (c : ℕ) → 0 < c → c < n → parent c ≢ i → InOrder p (parent c) c
    pub bridged : IsBridged n p i

  pub IsSinking-IsBroken : (n : ℕ) (p : List A) (i : ℕ) → IsSinking n p i → IsBroken n p i
  IsSinking-IsBroken n p i v = record { edges = λ c h k _ e. v.edges c h k e; bridged = v.bridged }

  module _ (order : IsStrictOrder less) where
    pub irreflexive : (a : A) → less a a ≡ false
    irreflexive a = elim (Bool-cases (less a a)) [ inl e ↦ order.asymmetric a a e | inr e ↦ e ]

    root_least_below :
        (k : ℕ) (n : ℕ) (p : List A) (c : ℕ) → IsHeap n p → c < k → c < n → InOrder p 0 c
    root_least_below zero n p c h f b = absurd (omega arith)
    root_least_below (suc k) n p zero h f b = irreflexive (entry missing p 0)
    root_least_below (suc k) n p (suc c) h f b =
        order.tie_trans _ _ _
          (root_least_below k n p (parent (suc c)) h (omega arith) (omega arith))
          (h (suc c) (omega arith) b)

    -- No entry of a heap is before its root.
    pub root_least : (n : ℕ) (p : List A) (c : ℕ) → IsHeap n p → c < n → InOrder p 0 c
    root_least n p c h b = root_least_below (suc c) n p c h (omega arith) b
