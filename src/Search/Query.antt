-- ===== src/Search/Query.antt =====
-- constants/operators.ts, the search fields of constants/fields.ts, and the types of
-- components/shared/Search/queryTree.ts.
use otel_desktop_viewer.Prelude.{ℕ, Text, codes, List, [], ◌∷◌, Option, none, some}

-- The entries of `OPERATORS`, in the order of `Object.values`.
pub data Operator : Type 0 where
  equals not_equals greater_than less_than greater_than_or_equal less_than_or_equal : Operator
  regex contains not_contains starts_with ends_with : Operator
  in_set not_in_set : Operator

unfoldable pub symbol : Operator → Text
symbol equals = codes "="
symbol not_equals = codes "!="
symbol greater_than = codes ">"
symbol less_than = codes "<"
symbol greater_than_or_equal = codes ">="
symbol less_than_or_equal = codes "<="
symbol regex = codes "REGEXP"
symbol contains = codes "CONTAINS"
symbol not_contains = codes "NOT CONTAINS"
symbol starts_with = codes "^"
symbol ends_with = codes "$"
symbol in_set = codes "IN"
symbol not_in_set = codes "NOT IN"

abbrev pub operators : List Operator
operators =
    equals ∷ not_equals ∷ greater_than ∷ less_than ∷ greater_than_or_equal ∷ less_than_or_equal
    ∷ regex ∷ contains ∷ not_contains ∷ starts_with ∷ ends_with ∷ in_set ∷ not_in_set ∷ []

-- What arrays support: equality, membership checks, and contains.
abbrev array_operators : List Operator
array_operators = equals ∷ not_equals ∷ contains ∷ not_contains ∷ in_set ∷ not_in_set ∷ []

pub data FieldType : Type 0 where
  string int64 float64 boolean : FieldType
  strings int64s float64s booleans : FieldType

-- A text that is no field type, `none`, takes the default of the switch.
unfoldable pub get_operators_for_field_type : Option FieldType → List Operator
get_operators_for_field_type (some string) =
    equals ∷ not_equals ∷ contains ∷ not_contains ∷ starts_with ∷ ends_with ∷ regex ∷ in_set
    ∷ not_in_set ∷ []
get_operators_for_field_type (some int64) =
    equals ∷ not_equals ∷ greater_than ∷ less_than ∷ greater_than_or_equal ∷ less_than_or_equal
    ∷ in_set ∷ not_in_set ∷ []
get_operators_for_field_type (some float64) =
    equals ∷ not_equals ∷ greater_than ∷ less_than ∷ greater_than_or_equal ∷ less_than_or_equal
    ∷ in_set ∷ not_in_set ∷ []
get_operators_for_field_type (some boolean) = equals ∷ not_equals ∷ in_set ∷ not_in_set ∷ []
get_operators_for_field_type (some strings) = array_operators
get_operators_for_field_type (some int64s) = array_operators
get_operators_for_field_type (some float64s) = array_operators
get_operators_for_field_type (some booleans) = array_operators
get_operators_for_field_type none = equals ∷ not_equals ∷ []

-- A search field: the parts that the query language reads.
pub data FieldDefinition : Type 0 where
  field_scope : Text → List Operator → FieldDefinition
  attribute_scope : Text → List Operator → FieldDefinition
  global : FieldDefinition

pub record Query : Type 0 where
  pub field : FieldDefinition
  pub operator : Operator
  pub value : Text

pub data LogicalOperator : Type 0 where
  and_op or_op : LogicalOperator

-- The number n stands for the id `query-n`.
mutual
  pub data QueryNode : Type 0 where
    condition : ℕ → Query → QueryNode
    group : ℕ → LogicalOperator → Children → QueryNode

  pub data Children : Type 0 where
    nil : Children
    cons : QueryNode → Children → Children

-- The children of a group with two of them.
abbrev pub pair : QueryNode → QueryNode → Children
pair a b = cons a (cons b nil)
