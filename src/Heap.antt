-- ===== src/Heap.antt =====
-- Go's `container/heap` as policyeval/broker.go uses it: `Push`, `Pop` and `Fix` over a slice whose
-- `Less` compares entries. `missing` stands for an entry out of range, which no call here reads.
pub mod Array
pub mod Order
pub mod Up
pub mod Down
pub mod Queue
use nomad_autoscaler.Prelude.{
  ℕ, zero, suc, ◌+◌, ◌-◌, ◌*◌, ◌/◌, Bool, true, false, not, ◌||◌, ◌&&◌, List, [], ◌∷◌, ◌++◌, length,
  take, ltb, leb, ◌==◌, if◌then◌else◌,
}
use Array.{entry, swap}

abbrev pub parent : ℕ → ℕ
parent j = (j - 1) / 2

module _ {A : Type 0} (missing : A) (less : A → A → Bool) where
  abbrev pub less_at : List A → ℕ → ℕ → Bool
  less_at p i j = less (entry missing p i) (entry missing p j)

  -- Each round goes to the parent, so `j + 1` rounds are enough.
  unfoldable pub up_loop : ℕ → List A → ℕ → List A
  up_loop zero p j = p
  up_loop (suc f) p j =
      let rest = up_loop f (swap missing p (parent j) j) (parent j) in
      if parent j == j || not (less_at p j (parent j)) then p else rest

  unfoldable pub up : List A → ℕ → List A
  unfolding up_loop
  up p j = up_loop (suc j) p j

  -- The lesser child of `i` among the first `n` entries; the left one exists.
  unfoldable pub lesser_child : List A → ℕ → ℕ → ℕ
  lesser_child p i n =
      let left = 2 * i + 1 in
      if ltb (left + 1) n && less_at p (left + 1) left then left + 1 else left

  -- Each round goes to a child, whose index is larger, so `n` rounds are enough. The second value
  -- is the index that the loop ends with.
  unfoldable pub down_loop : ℕ → List A → ℕ → ℕ → List A × ℕ
  unfolding lesser_child
  down_loop zero p i n = (p, i)
  down_loop (suc f) p i n =
      let j = lesser_child p i n in
      let rest = down_loop f (swap missing p i j) j n in
      if leb n (2 * i + 1) || not (less_at p j i) then (p, i) else rest

  unfoldable pub down : List A → ℕ → ℕ → List A × Bool
  unfolding down_loop
  down p i n = let (q, k) = down_loop (suc n) p i n in (q, ltb i k)

  unfoldable pub push : List A → A → List A
  unfolding up
  push p x = up (p ++ x ∷ []) (length p)

  -- The slice is not empty.
  unfoldable pub pop : List A → A × List A
  unfolding down
  pop p =
      let n = length p - 1 in
      let q = (down (swap missing p 0 n) 0 n).0 in (entry missing q n, take n q)

  unfoldable pub fix : List A → ℕ → List A
  unfolding down up
  fix p i = let (q, moved) = down p i (length p) in if moved then q else up q i
