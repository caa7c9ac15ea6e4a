-- ===== src/Search/Tree.antt =====
-- components/shared/Search/queryTree.ts: building a query out of conditions, and reading it.
pub mod Conditions
use otel_desktop_viewer.Prelude.{
  ℕ, suc, ◌==◌, if◌then◌else◌, Bool, true, false, not, List, [], ◌∷◌, ◌++◌, Option, none, some,
}
use otel_desktop_viewer.Search.Query.{
  Query, LogicalOperator, and_op, or_op, QueryNode, condition, group, Children, nil, cons, pair,
}
use otel_desktop_viewer.Search.Editor.{is_blank}

-- What `addConditionToTree` does: the tree and the last number that `generateID` gave, or one of
-- its two errors.
pub data Added : Type 0 where
  added : QueryNode → ℕ → Added
  no_value : Added
  no_operator : Added

abbrev pub same_operator : LogicalOperator → LogicalOperator → Bool
same_operator and_op and_op = true
same_operator and_op or_op = false
same_operator or_op and_op = false
same_operator or_op or_op = true

-- `children.push`
abbrev pub push : Children → QueryNode → Children
push nil tree = cons tree nil
push (cons t ts) tree = cons t (push ts tree)

-- The new group of the old tree and the condition.
abbrev pub wrapped : QueryNode → Query → LogicalOperator → ℕ → Added
wrapped tree q op n = added (group (suc n) op (pair tree (condition (suc (suc n)) q))) (suc (suc n))

abbrev pub pushed : ℕ → LogicalOperator → Children → Query → ℕ → Added
pushed id op children q n = added (group id op (push children (condition (suc n) q))) (suc n)

abbrev pub add_to : Option QueryNode → Query → Option LogicalOperator → ℕ → Added
add_to none q op n = added (condition (suc n) q) (suc n)
add_to (some (condition id old)) q none n = no_operator
add_to (some (condition id old)) q (some op) n = wrapped (condition id old) q op n
add_to (some (group id old children)) q none n = pushed id old children q n
add_to (some (group id old children)) q (some op) n =
    if same_operator op old
    then pushed id old children q n
    else wrapped (group id old children) q op n

unfoldable pub add_condition_to_tree : Option QueryNode → Query → Option LogicalOperator → ℕ → Added
add_condition_to_tree tree q op n = if is_blank q.value then no_value else add_to tree q op n

abbrev pub id_of : QueryNode → ℕ
id_of (condition id q) = id
id_of (group id op children) = id

-- `children.filter(child => child.id !== id)`
abbrev pub without : ℕ → Children → Children
without id nil = nil
without id (cons t ts) = if id_of t == id then without id ts else cons t (without id ts)

-- An empty group goes, and a single child takes the group's place.
abbrev pub restructured : ℕ → LogicalOperator → Children → Option QueryNode
restructured id op nil = none
restructured id op (cons t nil) = some t
restructured id op (cons t (cons u ts)) = some (group id op (cons t (cons u ts)))

unfoldable pub remove_condition_from_tree : Option QueryNode → ℕ → Option QueryNode
remove_condition_from_tree none id = none
remove_condition_from_tree (some (condition own q)) id =
    if own == id then none else some (condition own q)
remove_condition_from_tree (some (group own op children)) id =
    restructured own op (without id children)

unfoldable mutual
  pub conditions_of : QueryNode → List (ℕ × Query)
  conditions_of (condition id q) = (id, q) ∷ []
  conditions_of (group id op children) = conditions_in children

  pub conditions_in : Children → List (ℕ × Query)
  conditions_in nil = []
  conditions_in (cons t ts) = conditions_of t ++ conditions_in ts

unfoldable pub get_all_conditions : Option QueryNode → List (ℕ × Query)
unfolding conditions_of
get_all_conditions none = []
get_all_conditions (some tree) = conditions_of tree

-- One operator between two neighbours.
abbrev pub operators_between : LogicalOperator → Children → List LogicalOperator
operators_between op nil = []
operators_between op (cons t nil) = []
operators_between op (cons t (cons u ts)) = op ∷ operators_between op (cons u ts)

unfoldable pub get_logical_operators : Option QueryNode → List LogicalOperator
get_logical_operators none = []
get_logical_operators (some (condition id q)) = []
get_logical_operators (some (group id op children)) = operators_between op children
