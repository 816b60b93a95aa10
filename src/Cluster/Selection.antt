-- ===== src/Cluster/Selection.antt =====
-- Which nodes identifyTargets of sdk/helper/scaleutils/nomad.go selects.
use nomad_autoscaler.Prelude.{
  ℕ, zero, suc, String, str_eq, ◌≡◌, ◌≢◌, ◌⊎◌, subst, refl, sym, ◌∙◌, true, List, [], ◌∷◌, length,
  take, All, if◌then◌else◌, ℤ, pos_part, arith, eq_iff, inl, inr, Bool-cases, ap, false, not, ◌&&◌,
  pos, ltb_ℤ,
}
use nomad_autoscaler.Plugins.{ok}
use nomad_autoscaler.Cluster.{
  Node, NodeError, PoolIdentifier, identifier_key_class, Attempt, succeeded, rejected, ◌>>=◌,
  unstable, unsupported_identifier,
}
use nomad_autoscaler.Cluster.Filter.{is_nil, identify_nodes, filter_by_class}
use nomad_autoscaler.Cluster.ScaleIn.{
  Client, list_nodes, drop_node_id, filter_out_node_id, cap_num, select_nodes, identify_targets,
}
use nomad_autoscaler.Cluster.Stability.{
  selectable, selectables, problems, filter_by_class-eq, take-all,
}

-- The nodes but the one with the ID, if that is known.
unfoldable pub others : String → List Node → List Node
others cur [] = []
others cur (n ∷ ns) =
    if not (str_eq cur "") && str_eq n.id cur then others cur ns else n ∷ others cur ns

-- The nodes to remove, as a specification: the first `num` selectable nodes but the autoscaler's own, or
-- all of these if there are fewer.
unfoldable pub victims : ℤ → String → String → List Node → List Node
victims num cur class nodes = take (pos_part num) (others cur (selectables class nodes))

unknown-others : (ns : List Node) → others "" ns ≡ ns
unfolding others
unknown-others [] = refl
unknown-others (n ∷ ns) = ap (λ l. n ∷ l) (unknown-others ns)

drop_node_id-others :
    (cur : String) (ns : List Node) → str_eq cur "" ≡ false → drop_node_id cur ns ≡ others cur ns
unfolding drop_node_id others
drop_node_id-others cur [] known = refl
drop_node_id-others cur (n ∷ ns) known = ground (arith, drop_node_id-others cur ns known)

filter_out_node_id-others :
    (ns : List Node) (cur : String) → filter_out_node_id ns cur ≡ others cur ns
unfolding filter_out_node_id
filter_out_node_id-others ns cur = elim (Bool-cases (str_eq cur "")) [
  | inl unknown ↦
      subst (λ q. filter_out_node_id ns q ≡ others q ns) (sym ((eq_iff cur "").0 unknown))
        (sym (unknown-others ns))
  | inr known ↦ rw known (drop_node_id-others cur ns known)
]

take-cap_num :
    (num : ℤ) (ns : List Node)
    → take (pos_part (cap_num num (length ns))) ns ≡ take (pos_part num) ns
unfolding cap_num
take-cap_num num ns = elim (Bool-cases (ltb_ℤ (pos (length ns)) num)) [
  | inl few ↦ rw few (
      take-all (length ns) ns (omega arith)
      ∙ sym (take-all (pos_part num) ns (ground (arith, few))))
  | inr enough ↦ rw enough refl
]

-- A node that may be removed: it is selectable, and not the autoscaler's own if that is known.
abbrev pub IsRemovable : String → String → Node → Type 0
IsRemovable cur class n = (selectable class n ≡ true) × ((cur ≡ "") ⊎ (n.id ≢ cur))

pub >>=-eq-succeeded {ℓ κ} :
    {A : Type ℓ} {B : Type κ} (m : Attempt A) (f : A → Attempt B) {b : B}
    → (m >>= f) ≡ succeeded b
    → (a : A) × (m ≡ succeeded a) × (f a ≡ succeeded b)
>>=-eq-succeeded (succeeded a) f e = (a, refl, e)
>>=-eq-succeeded (rejected r) f e = cc

identify_nodes-class :
    (p : PoolIdentifier) (nodes : List Node)
    → identify_nodes p nodes ≡ (
        if str_eq p.identifier_key identifier_key_class
        then filter_by_class nodes p.value
        else rejected (unsupported_identifier p.identifier_key))
unfolding identify_nodes
identify_nodes-class p nodes = refl

filtered-eq-succeeded :
    (bad : List NodeError) (good pool : List Node)
    → (if is_nil bad then succeeded good else rejected (unstable (take 10 bad))) ≡ succeeded pool
    → (bad ≡ []) × (pool ≡ good)
unfolding is_nil
filtered-eq-succeeded [] good pool e = (refl, cc)
filtered-eq-succeeded (b ∷ bad) good pool e = cc

pub identify_nodes-eq-succeeded :
    (p : PoolIdentifier) (nodes pool : List Node)
    → identify_nodes p nodes ≡ succeeded pool
    → (problems p.value nodes ≡ []) × (pool ≡ selectables p.value nodes)
identify_nodes-eq-succeeded p nodes pool e =
    elim (Bool-cases (str_eq p.identifier_key identifier_key_class)) [
      | inl by_class ↦
          let same =
            identify_nodes-class p nodes ∙ rw by_class (filter_by_class-eq nodes p.value) in
          filtered-eq-succeeded (problems p.value nodes) (selectables p.value nodes) pool
            (sym same ∙ e)
      | inr other ↦
          let same : identify_nodes p nodes ≡ rejected (unsupported_identifier p.identifier_key) =
            identify_nodes-class p nodes ∙ rw other refl in
          cc
    ]

-- A stable pool by class is identified.
pub identify_nodes-stable :
    (p : PoolIdentifier) (nodes : List Node)
    → str_eq p.identifier_key identifier_key_class ≡ true
    → problems p.value nodes ≡ []
    → identify_nodes p nodes ≡ succeeded (selectables p.value nodes)
unfolding is_nil
identify_nodes-stable p nodes by_class stable =
    identify_nodes-class p nodes ∙ rw by_class (filter_by_class-eq nodes p.value ∙ rw stable refl)

select_nodes-eq-succeeded :
    (num : ℤ) (strategy : String) (nodes chosen : List Node)
    → select_nodes num strategy nodes ≡ succeeded chosen
    → chosen ≡ take (pos_part (cap_num num (length nodes))) nodes
unfolding select_nodes
select_nodes-eq-succeeded num strategy nodes chosen e = ground arith

pub list_nodes-eq-succeeded :
    (c : Client) (nodes : List Node) → list_nodes c ≡ succeeded nodes → c.list_nodes ≡ ok nodes
unfolding list_nodes
list_nodes-eq-succeeded c nodes e = ground arith

-- Where targets are identified, the pool is stable and they are the specified nodes.
pub identify_targets-victims :
    (c : Client) (cur : String) (num : ℤ) (p : PoolIdentifier) (strategy : String)
    (chosen : List Node)
    → identify_targets c cur num p strategy ≡ succeeded chosen
    → (nodes : List Node) × (c.list_nodes ≡ ok nodes)
      × (problems p.value nodes ≡ [])
      × (chosen ≡ victims num cur p.value nodes)
unfolding identify_targets victims
identify_targets-victims c cur num p strategy chosen e =
    let pick =
      λ (filtered : List Node). select_nodes num strategy (filter_out_node_id filtered cur) in
    let (nodes, listed, e1) =
      >>=-eq-succeeded (list_nodes c) (λ nodes. identify_nodes p nodes >>= pick) e in
    let (filtered, identified, e2) = >>=-eq-succeeded (identify_nodes p nodes) pick e1 in
    let (stable, is_pool) = identify_nodes-eq-succeeded p nodes filtered identified in
    let chosen_is =
      select_nodes-eq-succeeded num strategy (filter_out_node_id filtered cur) chosen e2 in
    (
      nodes,
      list_nodes-eq-succeeded c nodes listed,
      stable,
      chosen_is
          ∙ (take-cap_num num (filter_out_node_id filtered cur)
              ∙ ap (take (pos_part num))
                  (filter_out_node_id-others filtered cur ∙ ap (others cur) is_pool)),
    )

All-take {ℓ} : (P : Node → Type ℓ) (n : ℕ) (ns : List Node) → All P ns → All P (take n ns)
All-take P zero ns h = tt
All-take P (suc n) [] h = tt
All-take P (suc n) (x ∷ ns) (hx, h) = (hx, All-take P n ns h)

selectables-All :
    (class : String) (ns : List Node) → All (λ n. selectable class n ≡ true) (selectables class ns)
unfolding selectables
selectables-All class [] = tt
selectables-All class (n ∷ ns) = elim (Bool-cases (selectable class n)) [
  | inl takes ↦ rw takes (takes, selectables-All class ns)
  | inr skips ↦ rw skips (selectables-All class ns)
]

others-All :
    (class cur : String) (ns : List Node)
    → All (λ n. selectable class n ≡ true) ns
    → All (IsRemovable cur class) (others cur ns)
unfolding others
others-All class cur [] h = tt
others-All class cur (n ∷ ns) (hn, h) = elim (Bool-cases (str_eq cur "")) [
  | inl unknown ↦
      rw (unknown, others) ((hn, inl ((eq_iff cur "").0 unknown)), others-All class cur ns h)
  | inr known ↦ elim (Bool-cases (str_eq n.id cur)) [
    | inl same ↦ rw (known, same, others) (others-All class cur ns h)
    | inr other ↦
        rw (known, other, others)
          ((hn, inr (λ same. ground (arith, eq_iff n.id cur))), others-All class cur ns h)
  ]
]

pub victims-IsRemovable :
    (num : ℤ) (cur class : String) (nodes : List Node)
    → All (IsRemovable cur class) (victims num cur class nodes)
unfolding victims
victims-IsRemovable num cur class nodes =
    All-take (IsRemovable cur class) _ _
      (others-All class cur (selectables class nodes) (selectables-All class nodes))
