-- ===== src/Cluster/Stability.antt =====
-- filterByClass of sdk/helper/scaleutils/filter.go against a specification of the nodes that it
-- selects and of those that make a pool unstable.
use mathlib.Core.List.{append_assoc, append-nil}
use nomad_autoscaler.Prelude.{
  ℕ, zero, suc, String, str_eq, ◌≡◌, refl, ap, ◌∙◌, Bool, false, not, ◌&&◌, List, [], ◌∷◌, ◌++◌,
  length, take, leb, ◌≤◌, if◌then◌else◌, Option, none, some, arith, length-append, inl, inr,
  Bool-cases, Option-cases, sym,
}
use nomad_autoscaler.Cluster.{
  Node, NodeError, is_initializing, is_draining, is_ineligible, unstable, succeeded, rejected,
}
use nomad_autoscaler.Cluster.Filter.{
  outside_class, Filtered, is_nil, append_error, filter_node, filter_nodes, filter_by_class,
}

-- A node is of its class, and without one it is of the default class.
unfoldable pub is_in_class : String → Node → Bool
is_in_class id n =
    if str_eq n.node_class "" then str_eq id "autoscaler-default-pool" else str_eq n.node_class id

outside_class-is_in_class : (id : String) (n : Node) → outside_class id n ≡ not (is_in_class id n)
unfolding outside_class is_in_class
outside_class-is_in_class id n = ground arith

-- Why a node of the pool makes it unstable, if it does: it is initializing, or it is ready and takes no
-- work.
unfoldable pub problem : String → Node → Option NodeError
problem id n =
    if is_in_class id n && str_eq n.status "initializing"
    then some (is_initializing n.id)
    else if is_in_class id n
        && (str_eq n.status "ready" && not (str_eq n.scheduling_eligibility "eligible"))
    then some (if n.drain then is_draining n.id else is_ineligible n.id)
    else none

-- A node of the pool that may be selected.
unfoldable pub selectable : String → Node → Bool
selectable id n =
    is_in_class id n
    && (not (str_eq n.status "initializing") && str_eq n.scheduling_eligibility "eligible")

unfoldable pub problems : String → List Node → List NodeError
problems id [] = []
problems id (n ∷ ns) = elim (problem id n) [ some e ↦ e ∷ problems id ns | none ↦ problems id ns ]

unfoldable pub selectables : String → List Node → List Node
selectables id [] = []
selectables id (n ∷ ns) = if selectable id n then n ∷ selectables id ns else selectables id ns

filter_node-problem :
    (id : String) (n : Node) (f : Filtered) (e : NodeError)
    → problem id n ≡ some e
    → filter_node id n f ≡ append_error e f
unfolding filter_node problem selectable
filter_node-problem id n f e bad = ground (arith, outside_class-is_in_class id n)

filter_node-fine :
    (id : String) (n : Node) (f : Filtered)
    → problem id n ≡ none
    → filter_node id n f
      ≡ (if selectable id n && is_nil f.errors then record f { out = f.out ++ n ∷ [] } else f)
unfolding filter_node problem selectable
filter_node-fine id n f fine = ground (arith, outside_class-is_in_class id n)

pub take-all {ℓ} : {A : Type ℓ} (n : ℕ) (xs : List A) → length xs ≤ n → take n xs ≡ xs
take-all zero [] h = refl
take-all zero (x ∷ xs) h = absurd (omega arith)
take-all (suc n) [] h = refl
take-all (suc n) (x ∷ xs) h = ap (λ ys. x ∷ ys) (take-all n xs (omega arith))

take-append : (n : ℕ) (xs ys : List NodeError) → n ≡ length xs → take n (xs ++ ys) ≡ xs
take-append zero [] ys h = refl
take-append zero (x ∷ xs) ys h = absurd (omega arith)
take-append (suc n) [] ys h = absurd (omega arith)
take-append (suc n) (x ∷ xs) ys h = ap (λ zs. x ∷ zs) (take-append n xs ys (omega arith))

filter_node-unstable :
    (id : String) (n : Node) (f : Filtered)
    → problem id n ≡ none
    → is_nil f.errors ≡ false
    → filter_node id n f ≡ f
filter_node-unstable id n f fine bad = ground (arith, filter_node-fine id n f fine)

is_nil-append_last : (xs : List NodeError) (e : NodeError) → is_nil (xs ++ e ∷ []) ≡ false
unfolding is_nil
is_nil-append_last [] e = refl
is_nil-append_last (x ∷ xs) e = refl

problems-nil : (id : String) → problems id [] ≡ []
unfolding problems
problems-nil id = refl

problems-fine :
    (id : String) (n : Node) (ns : List Node)
    → problem id n ≡ none
    → problems id (n ∷ ns) ≡ problems id ns
unfolding problems
problems-fine id n ns fine = rw (fine, problems) refl

problems-bad :
    (id : String) (n : Node) (ns : List Node) (e : NodeError)
    → problem id n ≡ some e
    → problems id (n ∷ ns) ≡ e ∷ problems id ns
unfolding problems
problems-bad id n ns e bad = rw (bad, problems) refl

-- Once there is an error, the rest of the nodes adds errors, up to ten.
filter_nodes-unstable :
    (id : String) (ns : List Node) (f : Filtered)
    → is_nil f.errors ≡ false
    → length f.errors ≤ 10
    → filter_nodes id ns f ≡ rejected (unstable (take 10 (f.errors ++ problems id ns)))
unfolding filter_nodes append_error
filter_nodes-unstable id [] f bad few =
    rw (bad, problems-nil id, append-nil f.errors, take-all 10 f.errors few) refl
filter_nodes-unstable id (n ∷ ns) f bad few = elim (Bool-cases (leb 10 (length f.errors))) [
  | inl full ↦
      let cut = take-append 10 f.errors (problems id (n ∷ ns)) (ground arith) in rw (full, cut) refl
  | inr more ↦ elim (Option-cases (problem id n)) [
    | inl fine ↦
        rw (more, filter_node-unstable id n f fine bad, problems-fine id n ns fine)
          (filter_nodes-unstable id ns f bad few)
    | inr (e, is_bad) ↦
        let f' : Filtered = append_error e f in
        let few' : length f'.errors ≤ 10 = ground (arith, length-append f.errors (e ∷ [])) in
        let bad' : is_nil f'.errors ≡ false = is_nil-append_last f.errors e in
        rw (more, filter_node-problem id n f e is_bad, problems-bad id n ns e is_bad)
          (filter_nodes-unstable id ns f' bad' few'
            ∙ ap (λ es. rejected (unstable (take 10 es)))
                (append_assoc f.errors (e ∷ []) (problems id ns)))
  ]
]

selectables-cons :
    (id : String) (n : Node) (ns : List Node)
    → selectables id (n ∷ ns)
      ≡ (if selectable id n then n ∷ selectables id ns else selectables id ns)
unfolding selectables
selectables-cons id n ns = refl

filter_nodes-stable :
    (id : String) (ns : List Node) (out : List Node)
    → filter_nodes id ns (record { errors = []; out = out }) ≡ (
        if is_nil (problems id ns)
        then succeeded (out ++ selectables id ns)
        else rejected (unstable (take 10 (problems id ns))))
unfolding filter_nodes append_error is_nil
filter_nodes-stable id [] out = unfold problems selectables in ap succeeded (sym (append-nil out))
filter_nodes-stable id (n ∷ ns) out =
    let f : Filtered = record { errors = []; out = out } in
    elim (Option-cases (problem id n)) [
      | inl fine ↦ elim (Bool-cases (selectable id n)) [
        | inl takes ↦
            let added : filter_node id n f ≡ record { errors = []; out = out ++ n ∷ [] } =
              filter_node-fine id n f fine ∙ rw takes refl in
            rw (added, problems-fine id n ns fine, selectables-cons id n ns, takes)
              (filter_nodes-stable id ns (out ++ n ∷ [])
                ∙ ap
                    (λ all.
                      if is_nil (problems id ns)
                      then succeeded all
                      else rejected (unstable (take 10 (problems id ns))))
                    (append_assoc out (n ∷ []) (selectables id ns)))
        | inr skips ↦
            let same : filter_node id n f ≡ f = filter_node-fine id n f fine ∙ rw skips refl in
            rw (same, problems-fine id n ns fine, selectables-cons id n ns, skips)
              (filter_nodes-stable id ns out)
      ]
      | inr (e, is_bad) ↦
          rw (filter_node-problem id n f e is_bad, problems-bad id n ns e is_bad)
            (filter_nodes-unstable id ns (record { errors = e ∷ []; out = out }) refl (omega arith))
    ]

-- The filter by class gives the selectable nodes of the pool, in their order, if no node makes the pool
-- unstable, and otherwise the reasons of the first ten such nodes, each once and in their order. The
-- nodes of the pool are those of the class, where a node without a class is of the default one. A node is
-- selectable if it is eligible and not initializing; it makes the pool unstable if it is initializing, or
-- ready and not eligible.
pub filter_by_class-eq :
    (nodes : List Node) (id : String)
    → filter_by_class nodes id ≡ (
        if is_nil (problems id nodes)
        then succeeded (selectables id nodes)
        else rejected (unstable (take 10 (problems id nodes))))
unfolding filter_by_class
filter_by_class-eq nodes id = filter_nodes-stable id nodes []
