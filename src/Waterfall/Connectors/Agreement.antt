-- ===== src/Waterfall/Connectors/Agreement.antt =====
-- components/traces/Waterfall/WaterfallView.svelte: the corner and the lines of a row agree.
use otel_desktop_viewer.Prelude.{
  ℕ, zero, suc, ◌+◌, ◌≡◌, refl, ap, sym, ◌∙◌, Bool, false, not, List, [], ◌∷◌, arith,
}
use otel_desktop_viewer.Waterfall.Connectors.{
  TreeConnectorMeta, is_last_child, subtree, has_next_sibling, flags_from, meta_of, metas,
  children_counts, compute_tree_meta,
}

abbrev pub last_flag : Bool → List Bool → Bool
last_flag f [] = f
last_flag f (g ∷ flags) = last_flag g flags

abbrev pub Agrees : Bool → List Bool → Type 0
Agrees last_child [] = last_child ≡ false
Agrees last_child (f ∷ flags) = last_child ≡ not (last_flag f flags)

abbrev pub AllAgree : List TreeConnectorMeta → Type 0
AllAgree [] = Unit
AllAgree (m ∷ ms) = Agrees m.last_child m.ancestor_has_next_sibling × AllAgree ms

is_last_child-has_next_sibling :
    (d : ℕ) (tail : List ℕ) → is_last_child (suc d) tail ≡ not (has_next_sibling d tail)
unfolding is_last_child has_next_sibling subtree
is_last_child-has_next_sibling d [] = refl
is_last_child-has_next_sibling d (next ∷ tail) =
    ground (arith, is_last_child-has_next_sibling d tail)

last_flag-flags_from :
    (d n : ℕ) (tail : List ℕ)
    → last_flag (has_next_sibling d tail) (flags_from (suc d) n tail)
      ≡ has_next_sibling (d + n) tail
unfolding flags_from
last_flag-flags_from d zero tail = ap (λ k. has_next_sibling k tail) (omega arith)
last_flag-flags_from d (suc n) tail =
    last_flag-flags_from (suc d) n tail ∙ ap (λ k. has_next_sibling k tail) (omega arith)

corner :
    (d : ℕ) (tail : List ℕ)
    → is_last_child (suc d) tail ≡ not (last_flag (has_next_sibling 0 tail) (flags_from 1 d tail))
corner d tail =
    is_last_child-has_next_sibling d tail
    ∙ ap (λ k. not (has_next_sibling k tail)) (omega arith)
    ∙ ap not (sym (last_flag-flags_from 0 d tail))

metas-AllAgree : (counts depths : List ℕ) → AllAgree (metas counts depths)
unfolding metas flags_from meta_of
metas-AllAgree [] depths = tt
metas-AllAgree (count ∷ counts) [] = tt
metas-AllAgree (count ∷ counts) (zero ∷ depths) = (refl, metas-AllAgree counts depths)
metas-AllAgree (count ∷ counts) (suc d ∷ depths) = (corner d depths, metas-AllAgree counts depths)

-- A row has the corner of a last child just where its line towards its parent does not go on, and a
-- row without lines does not have it.
pub compute_tree_meta-AllAgree : (depths : List ℕ) → AllAgree (compute_tree_meta depths)
unfolding compute_tree_meta
compute_tree_meta-AllAgree depths = metas-AllAgree (children_counts depths) depths
