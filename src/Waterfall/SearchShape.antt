-- ===== src/Waterfall/SearchShape.antt =====
-- The shape that a search gives the tree: `hasRelevantDescendant` and `computeSearchCollapsedParents`
-- of components/traces/Waterfall/waterfall-tree.ts, `computeAncestorsOfMatched` of
-- components/traces/Waterfall/WaterfallView.svelte.
mod Ancestry
mod Ends
pub mod Matches
use otel_desktop_viewer.Prelude.{
  ℕ, zero, suc, ◌+◌, ◌≡◌, refl, String, same, has, Bool, true, false, not, ◌&&◌, ◌||◌,
  if◌then◌else◌, List, [], ◌∷◌, ◌++◌, length, Option, none, some, map_get, arith,
}
use otel_desktop_viewer.Waterfall.Ancestors.{ParentMap, parent_id}
use otel_desktop_viewer.Waterfall.Children.{Index, kids}
use otel_desktop_viewer.Waterfall.Structure.{Row}

abbrev pub then_set :
    Option (List String) → (List String → Option (List String)) → Option (List String)
then_set none f = none
then_set (some ids) f = f ids

-- The inner loop of `computeAncestorsOfMatched`; `none` stands for fuel that ran out, here and below.
unfoldable pub climb_matched : ℕ → ParentMap → List String → Option String → Option (List String)
climb_matched zero parents ancestors pid = none
climb_matched (suc fuel) parents ancestors none = some ancestors
climb_matched (suc fuel) parents ancestors (some pid) =
    let more = climb_matched fuel parents (pid ∷ ancestors) (parent_id parents pid) in
    if has ancestors pid then some ancestors else more

unfoldable pub ancestors_from : ParentMap → List String → List String → Option (List String)
unfolding climb_matched
ancestors_from parents ancestors [] = some ancestors
ancestors_from parents ancestors (id ∷ matched) =
    then_set (climb_matched (length parents + 2) parents ancestors (parent_id parents id))
      (λ more. ancestors_from parents more matched)

unfoldable pub compute_ancestors_of_matched : List String → ParentMap → Option (List String)
unfolding ancestors_from
compute_ancestors_of_matched matched parents = ancestors_from parents [] matched

-- An answer, and the spans that were visited.
abbrev pub Visit : Type 0
Visit = Option (Bool × List String)

abbrev pub then_visit : Visit → (List String → Visit) → Visit
then_visit none f = none
then_visit (some (true, seen)) f = some (true, seen)
then_visit (some (false, seen)) f = f seen

-- The loop over the children, with what is asked of each.
unfoldable pub visit_kids :
    (String → List String → Visit) → List String → List String → List String → Visit
visit_kids descend relevant [] seen = some (false, seen)
visit_kids descend relevant (kid ∷ more) seen =
    let below = then_visit (descend kid seen) (λ seen'. visit_kids descend relevant more seen') in
    if has relevant kid then some (true, seen) else below

unfoldable pub has_relevant_descendant : ℕ → String → Index → List String → List String → Visit
unfolding visit_kids
has_relevant_descendant zero sid children relevant seen = none
has_relevant_descendant (suc fuel) sid children relevant seen =
    let descend = λ (kid : String) (seen' : List String).
      has_relevant_descendant fuel kid children relevant seen' in
    let below = visit_kids descend relevant (kids children sid) (sid ∷ seen) in
    if has seen sid then some (false, seen) else below

-- `(childrenBySpanID.get(sid)?.length ?? 0) > 0`
abbrev pub is_list : List String → Bool
is_list [] = false
is_list (x ∷ xs) = true

abbrev pub has_kids : Index → String → Bool
has_kids children sid = is_list (kids children sid)

abbrev pub is_barren : Visit → Option Bool
is_barren none = none
is_barren (some (found, seen)) = some (not found)

-- Whether the search folds the span away.
abbrev pub folds : List String → List String → Index → String → Option Bool
folds matched relevant children sid =
    let visited =
      is_barren (has_relevant_descendant (length children + 2) sid children relevant []) in
    if has_kids children sid
    then (if has relevant sid then (if has matched sid then visited else some false) else some true)
    else some false

abbrev pub add_if : Option Bool → String → Option (List String) → Option (List String)
add_if none sid rest = none
add_if (some true) sid none = none
add_if (some true) sid (some ids) = some (sid ∷ ids)
add_if (some false) sid rest = rest

-- The loop over the rows.
unfoldable pub folded : List Row → List String → List String → Index → Option (List String)
unfolding has_relevant_descendant
folded [] matched relevant children = some []
folded (r ∷ rows) matched relevant children =
    add_if (folds matched relevant children r.span_id) r.span_id
      (folded rows matched relevant children)

unfoldable pub compute_search_collapsed_parents :
    List Row → List String → List String → Index → Option (List String)
unfolding folded
compute_search_collapsed_parents rows matched ancestors children =
    folded rows matched (matched ++ ancestors) children
