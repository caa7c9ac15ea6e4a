-- ===== src/Search/Tree/Conditions.antt =====
-- components/shared/Search/queryTree.ts: the conditions of a tree that a condition was added to or
-- removed from.
use otel_desktop_viewer.Prelude.{
  ℕ, suc, ◌≡◌, refl, sym, ◌∙◌, ◌==◌, false, not, List, [], ◌∷◌, ◌++◌, append-nil, append_assoc,
  keep_if, All, Option, none, some, arith, Bool-cases, inl, inr,
}
use otel_desktop_viewer.Search.Query.{
  Query, LogicalOperator, QueryNode, condition, group, Children, nil, cons,
}
use otel_desktop_viewer.Search.Editor.{is_blank}
use otel_desktop_viewer.Search.Tree.{
  added, same_operator, push, add_to, add_condition_to_tree, without, restructured,
  remove_condition_from_tree, conditions_of, conditions_in, get_all_conditions,
}

conditions_in-push :
    (children : Children) (tree : QueryNode)
    → conditions_in (push children tree) ≡ conditions_in children ++ conditions_of tree
unfolding conditions_of
conditions_in-push nil tree = append-nil (conditions_of tree)
conditions_in-push (cons t ts) tree =
    rw (conditions_in-push ts tree)
      (sym (append_assoc (conditions_of t) (conditions_in ts) (conditions_of tree)))

add_to-conditions :
    (tree : Option QueryNode) (q : Query) (op : Option LogicalOperator) (n : ℕ) (t : QueryNode)
    (m : ℕ)
    → add_to tree q op n ≡ added t m
    → conditions_of t ≡ get_all_conditions tree ++ ((m, q) ∷ [])
unfolding conditions_of get_all_conditions
add_to-conditions none q op n t m h = ground arith
add_to-conditions (some (condition id old)) q none n t m h = cc
add_to-conditions (some (condition id old)) q (some op) n t m h = ground arith
add_to-conditions (some (group id old children)) q none n t m h =
    ground (arith, conditions_in-push children (condition (suc n) q))
add_to-conditions (some (group id old children)) q (some op) n t m h =
    elim (Bool-cases (same_operator op old)) [
      | inl e ↦ ground (arith, conditions_in-push children (condition (suc n) q))
      | inr e ↦ ground (arith, conditions_in-push children (condition (suc n) q))
    ]

-- When adding a condition to a tree gives a tree, its conditions are those of the old tree, in
-- their order, and then the new one, under the last id that was given out.
pub add_condition_to_tree-get_all_conditions :
    (tree : Option QueryNode) (q : Query) (op : Option LogicalOperator) (n : ℕ) (t : QueryNode)
    (m : ℕ)
    → add_condition_to_tree tree q op n ≡ added t m
    → get_all_conditions (some t) ≡ get_all_conditions tree ++ ((m, q) ∷ [])
unfolding add_condition_to_tree get_all_conditions
add_condition_to_tree-get_all_conditions tree q op n t m h = elim (Bool-cases (is_blank q.value)) [
  | inl b ↦ ground arith
  | inr b ↦ add_to-conditions tree q op n t m (rw b at h)
]

-- No condition of the list has the id.
abbrev Absent : ℕ → List (ℕ × Query) → Type 0
Absent id cs = All (λ c. (c.0 == id) ≡ false) cs

-- The id is neither a group's nor below one.
abbrev pub OnlyDirect : ℕ → Children → Type 0
OnlyDirect id nil = Unit
OnlyDirect id (cons (condition own q) ts) = OnlyDirect id ts
OnlyDirect id (cons (group own op children) ts) =
    ((own == id) ≡ false) × (Absent id (conditions_in children) × OnlyDirect id ts)

abbrev pub IsDirect : ℕ → Option QueryNode → Type 0
IsDirect id none = Unit
IsDirect id (some (condition own q)) = Unit
IsDirect id (some (group own op children)) = OnlyDirect id children

-- The conditions with another id.
abbrev pub others : ℕ → List (ℕ × Query) → List (ℕ × Query)
others id cs = keep_if (λ c. not (c.0 == id)) cs

others-append :
    (id : ℕ) (cs ds : List (ℕ × Query)) → others id (cs ++ ds) ≡ others id cs ++ others id ds
others-append id [] ds = refl
others-append id (c ∷ cs) ds = ground (arith, others-append id cs ds)

others-Absent : (id : ℕ) (cs : List (ℕ × Query)) → Absent id cs → others id cs ≡ cs
others-Absent id [] h = refl
others-Absent id (c ∷ cs) (h, hs) = rw (h, others-Absent id cs hs)

conditions_in-without :
    (id : ℕ) (children : Children)
    → OnlyDirect id children
    → conditions_in (without id children) ≡ others id (conditions_in children)
unfolding conditions_of
conditions_in-without id nil h = refl
conditions_in-without id (cons (condition own q) ts) h = elim (Bool-cases (own == id)) [
  | inl e ↦ rw e (conditions_in-without id ts h)
  | inr e ↦ rw (e, conditions_in-without id ts h)
]
conditions_in-without id (cons (group own op cs) ts) (e, (absent, h)) = rw (
  e,
  others-append id (conditions_in cs) (conditions_in ts),
  others-Absent id (conditions_in cs) absent,
  conditions_in-without id ts h,
)

restructured-conditions :
    (own : ℕ) (op : LogicalOperator) (children : Children)
    → get_all_conditions (restructured own op children) ≡ conditions_in children
unfolding get_all_conditions conditions_of
restructured-conditions own op nil = refl
restructured-conditions own op (cons t nil) = sym (append-nil (conditions_of t))
restructured-conditions own op (cons t (cons u ts)) = refl

-- Removing an id that is neither a nested group's nor of a condition inside a nested group leaves
-- exactly the conditions that have another id, in their order.
pub remove_condition_from_tree-get_all_conditions :
    (tree : Option QueryNode) (id : ℕ)
    → IsDirect id tree
    → get_all_conditions (remove_condition_from_tree tree id) ≡ others id (get_all_conditions tree)
unfolding remove_condition_from_tree get_all_conditions conditions_of
remove_condition_from_tree-get_all_conditions none id h = refl
remove_condition_from_tree-get_all_conditions (some (condition own q)) id h = ground arith
remove_condition_from_tree-get_all_conditions (some (group own op children)) id h =
    restructured-conditions own op (without id children) ∙ conditions_in-without id children h
