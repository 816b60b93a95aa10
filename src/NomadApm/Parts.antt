-- ===== src/NomadApm/Parts.antt =====
-- The parts of a query with a head `<type>_<op>_<metric>`, as the APM plugin for Nomad reads them.
use nomad_autoscaler.Prelude.{
  ℕ, String, Bool, str_append, ◌≡◌, refl, true, false, List, [], ◌∷◌, some, arith, eq_iff, str_eq,
  split_n, has_code, has_code-append, cut-append, append_assoc, ◌∙◌, ap, split_n-append,
  split_n_last, Bool-cases, inl, inr, subst, sym, if◌then◌else◌,
}
use nomad_autoscaler.NomadApm.{
  parsed, contains, three_parts, query_type, parse_task_group_query, parse_node_pool_query,
  task_group_parts, task_group_op, node_parts, node_op, task_group_operations, task_group_metrics,
  node_metrics,
}
use Prim.Native.Char.{Char, code}
use Prim.Native.String.append
use Prim.Native.String.{[] as nil, ◌∷◌ as cons}

abbrev lacks : ℕ → List String → Bool
lacks n [] = true
lacks n (s ∷ ss) = if has_code n s then false else lacks n ss

pub contains-has_code :
    (n : ℕ) (names : List String) (s : String)
    → lacks n names ≡ true
    → contains names s ≡ true
    → has_code n s ≡ false
unfolding contains
contains-has_code n [] s none_has among = absurd (cc)
contains-has_code n (name ∷ names) s none_has among = elim (Bool-cases (has_code n name)) [
  | inl has ↦ absurd (ground arith)
  | inr lacking ↦ elim (Bool-cases (str_eq name s)) [
    | inl same ↦ subst (λ t. has_code n t ≡ false) (ground (arith, eq_iff name s)) lacking
    | inr other ↦ contains-has_code n names s (ground arith) (ground arith)
  ]
]

-- A text of three parts with the same character between them.
three_parts-split_n :
    (n : ℕ) (sep a b c : String)
    → (d : Char) → (code d ≡ n)
    → (sep ≡ cons d nil)
    → has_code n a ≡ false
    → has_code n b ≡ false
    → three_parts (split_n 3 n (str_append a (str_append sep (str_append b (str_append sep c)))))
      ≡ some (a, b, c)
unfolding three_parts
three_parts-split_n n sep a b c d is_d is_sep lacks_a lacks_b =
    rw
      (
        is_sep,
        append.cons,
        append.nil,
        append.cons,
        append.nil,
        split_n-append 1 n d a _ is_d lacks_a,
        split_n-append 0 n d b c is_d lacks_b,
        split_n_last n c,
      )
      refl

-- The text of a query in front of its first `/`.
abbrev pub head_of : String → String → String → String
head_of type_part op metric =
    str_append type_part (str_append "_" (str_append op (str_append "_" metric)))

-- A query as the processor writes it is read as three parts, and its head as three parts.
head_of-split_n :
    (type_part op metric : String)
    → has_code 95 type_part ≡ false
    → has_code 95 op ≡ false
    → three_parts (split_n 3 95 (head_of type_part op metric)) ≡ some (type_part, op, metric)
head_of-split_n type_part op metric lacks_type lacks_op =
    three_parts-split_n 95 "_" type_part op metric "_" refl refl lacks_type lacks_op

query-split_n :
    (type_part op metric b c : String)
    → has_code 47 type_part ≡ false
    → has_code 47 op ≡ false
    → has_code 47 metric ≡ false
    → has_code 47 b ≡ false
    → three_parts (
        split_n 3 47 (
          str_append
            (head_of type_part op metric)
            (str_append "/" (str_append b (str_append "/" c)))))
      ≡ some (head_of type_part op metric, b, c)
unfolding has_code
query-split_n type_part op metric b c in_type in_op in_metric in_b =
    three_parts-split_n 47 "/" (head_of type_part op metric) b c "/" refl refl
      (ground (
        arith,
        has_code-append 47 type_part (str_append "_" (str_append op (str_append "_" metric))),
        has_code-append 47 "_" (str_append op (str_append "_" metric)),
        has_code-append 47 op (str_append "_" metric),
        has_code-append 47 "_" metric,
      ))
      in_b

query_type-append :
    (type_part rest : String)
    → has_code 95 type_part ≡ false
    → query_type (str_append type_part (str_append "_" rest)) ≡ type_part
unfolding query_type
query_type-append type_part rest lacking =
    rw (append.cons, append.nil, query_type, cut-append 95 "_" type_part rest refl lacking) refl

-- The text behind the head of a query.
abbrev pub tail_of : String → String → String
tail_of b c = str_append "/" (str_append b (str_append "/" c))

pub query-head_of :
    (type_part op metric tail : String)
    → str_append (head_of type_part op metric) tail
      ≡ str_append
          (str_append type_part "_")
          (str_append (str_append op (str_append "_" metric)) tail)
query-head_of type_part op metric tail =
    ap (λ s. str_append s tail) (sym (append_assoc type_part "_" _)) ∙ append_assoc _ _ tail

pub query_type-head_of :
    (type_part op metric tail : String)
    → has_code 95 type_part ≡ false
    → query_type (str_append (head_of type_part op metric) tail) ≡ type_part
query_type-head_of type_part op metric tail lacking =
    ap query_type
      (append_assoc type_part _ tail ∙ ap (str_append type_part) (append_assoc "_" _ tail))
    ∙ query_type-append type_part _ lacking

task_group_parts-some :
    (q main group job type_part op metric : String)
    → three_parts (split_n 3 95 main) ≡ some (type_part, op, metric)
    → task_group_parts q (some (main, group, job)) ≡ task_group_op group job op metric
unfolding task_group_parts
task_group_parts-some q main group job type_part op metric parts = rw (task_group_parts, parts) refl

pub parse_task_group_query-head_of :
    (op metric group job : String)
    → has_code 47 op ≡ false
    → has_code 95 op ≡ false
    → has_code 47 metric ≡ false
    → has_code 47 group ≡ false
    → contains task_group_operations op ≡ true
    → contains task_group_metrics metric ≡ true
    → parse_task_group_query (str_append (head_of "taskgroup" op metric) (tail_of group job))
      ≡ parsed (record { metric = metric; job = job; group = group; operation = op })
unfolding parse_task_group_query has_code
parse_task_group_query-head_of op metric group job no_slash no_bar in_metric in_group op_known
      metric_known =
    let whole : String = str_append (head_of "taskgroup" op metric) (tail_of group job) in
    ap (task_group_parts whole)
      (query-split_n "taskgroup" op metric group job refl no_slash in_metric in_group)
    ∙ (task_group_parts-some whole _ group job "taskgroup" op metric
          (head_of-split_n "taskgroup" op metric refl no_bar)
        ∙ rw (task_group_op, metric_known, op_known) refl)

node_parts-some :
    (q main value key type_part op metric : String)
    → three_parts (split_n 3 95 main) ≡ some (type_part, op, metric)
    → node_parts q (some (main, value, key))
      ≡ node_op (record { identifier_key = key; value = value }) op metric
unfolding node_parts
node_parts-some q main value key type_part op metric parts = rw (node_parts, parts) refl

pub parse_node_pool_query-head_of :
    (metric value key : String)
    → has_code 47 metric ≡ false
    → has_code 47 value ≡ false
    → contains node_metrics metric ≡ true
    → parse_node_pool_query
        (str_append (head_of "node" "percentage-allocated" metric) (tail_of value key))
      ≡ parsed (record {
        metric = metric;
        pool_identifier = record { identifier_key = key; value = value };
        operation = "percentage-allocated";
      })
unfolding parse_node_pool_query has_code
parse_node_pool_query-head_of metric value key in_metric in_value metric_known =
    let op : String = "percentage-allocated" in
    let whole : String = str_append (head_of "node" op metric) (tail_of value key) in
    ap (node_parts whole) (query-split_n "node" op metric value key refl refl in_metric in_value)
    ∙ (node_parts-some whole _ value key "node" op metric
          (head_of-split_n "node" op metric refl refl)
        ∙ rw (node_op, metric_known) refl)
