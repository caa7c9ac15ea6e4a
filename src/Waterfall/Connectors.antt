-- ===== src/Waterfall/Connectors.antt =====
-- components/traces/Waterfall/WaterfallView.svelte: the lines that connect the rows of the tree, from
-- the depths of the rows, which the server counts from 0.
pub mod Agreement
use otel_desktop_viewer.Prelude.{
  ℕ, zero, suc, ◌==◌, ltb, leb, ◌≡◌, refl, ap, Bool, true, false, not, Bool-cases, if◌then◌else◌,
  List, [], ◌∷◌, any, take, length, Option, none, some, arith,
}

pub record TreeConnectorMeta : Type 0 where
  children_count : ℕ
  last_child : Bool
  ancestor_has_next_sibling : List Bool

abbrev pub increment_at : List ℕ → ℕ → List ℕ
increment_at [] i = []
increment_at (n ∷ counts) zero = suc n ∷ counts
increment_at (n ∷ counts) (suc i) = n ∷ increment_at counts i

-- The last element of the trimmed stack, if there is one, gets another child.
abbrev pub count_child : List ℕ → List ℕ → List ℕ
count_child [] counts = counts
count_child (i ∷ []) counts = increment_at counts i
count_child (i ∷ j ∷ stack) counts = count_child (j ∷ stack) counts

abbrev pub push : List ℕ → ℕ → List ℕ
push [] i = i ∷ []
push (x ∷ stack) i = x ∷ push stack i

-- At depth 0 the trimmed stack is empty.
unfoldable pub count_children : ℕ → List ℕ → List ℕ → List ℕ → List ℕ
count_children i stack counts [] = counts
count_children i stack counts (depth ∷ depths) =
    count_children (suc i) (push (take depth stack) i) (count_child (take depth stack) counts)
      depths

abbrev pub zeros : List ℕ → List ℕ
zeros [] = []
zeros (depth ∷ depths) = 0 ∷ zeros depths

unfoldable pub children_counts : List ℕ → List ℕ
unfolding count_children
children_counts depths = count_children 0 [] (zeros depths) depths

-- `tail` holds the depths of the rows below.
unfoldable pub is_last_child : ℕ → List ℕ → Bool
is_last_child depth [] = true
is_last_child depth (next ∷ tail) =
    if leb next depth then ltb next depth else is_last_child depth tail

unfoldable pub subtree : ℕ → List ℕ → List ℕ
subtree d [] = []
subtree d (next ∷ tail) = if leb next d then [] else next ∷ subtree d tail

unfoldable pub has_next_sibling : ℕ → List ℕ → Bool
unfolding subtree
has_next_sibling d tail = any (λ next. next == suc d) (subtree d tail)

-- The flags of `n` depths from `d`.
unfoldable pub flags_from : ℕ → ℕ → List ℕ → List Bool
unfolding has_next_sibling
flags_from d zero tail = []
flags_from d (suc n) tail = has_next_sibling d tail ∷ flags_from (suc d) n tail

abbrev pub meta_of : ℕ → ℕ → List ℕ → TreeConnectorMeta
unfolding is_last_child flags_from
meta_of count zero tail = record {
  children_count = count;
  last_child = false;
  ancestor_has_next_sibling = [];
}
meta_of count (suc depth) tail = record {
  children_count = count;
  last_child = is_last_child (suc depth) tail;
  ancestor_has_next_sibling = flags_from 0 (suc depth) tail;
}

unfoldable pub metas : List ℕ → List ℕ → List TreeConnectorMeta
metas (count ∷ counts) (depth ∷ depths) = meta_of count depth depths ∷ metas counts depths
metas [] depths = []
metas counts [] = []

unfoldable pub compute_tree_meta : List ℕ → List TreeConnectorMeta
unfolding children_counts metas
compute_tree_meta depths = metas (children_counts depths) depths
