-- ===== src/Waterfall/Lens.antt =====
-- components/traces/Waterfall/WaterfallView.svelte: what is collapsed, which the reader's gestures
-- write and a search covers.
pub mod Toggles
pub mod Refines
use otel_desktop_viewer.Prelude.{
  ◌≡◌, refl, String, same, has, Bool, true, false, not, ◌&&◌, if◌then◌else◌, List, [], ◌∷◌, ◌++◌,
  any, map, Option, none, some, map_set, add_key, remove_key, arith,
}
use otel_desktop_viewer.Waterfall.Structure.{Row, Maps, build_structural_maps}
use otel_desktop_viewer.Waterfall.Children.{Index}
use otel_desktop_viewer.Waterfall.SearchShape.{
  compute_ancestors_of_matched, compute_search_collapsed_parents, then_set, has_kids,
}
use otel_desktop_viewer.Waterfall.CollapseStore.{
  CollapseStore, collapsed_for_trace, set_collapsed_for_trace,
}

pub record SpanRow : Type 0 where
  pub row : Row
  pub matched : Bool

-- The answer of the server that is shown, and its trace.
pub record Response : Type 0 where
  pub trace_id : String
  pub spans : List SpanRow

abbrev pub rows_of : List SpanRow → List Row
rows_of [] = []
rows_of (s ∷ spans) = s.row ∷ rows_of spans

abbrev pub matched_ids : List SpanRow → List String
matched_ids [] = []
matched_ids (s ∷ spans) = if s.matched then s.row.span_id ∷ matched_ids spans else matched_ids spans

abbrev is_matched : SpanRow → Bool
is_matched s = s.matched

abbrev is_unmatched : SpanRow → Bool
is_unmatched s = not s.matched

-- Some rows match and some do not.
unfoldable pub has_active_search : List SpanRow → Bool
has_active_search spans = any is_matched spans && any is_unmatched spans

-- The walks end, so that the sets are there.
abbrev set_of : Option (List String) → List String
set_of none = []
set_of (some ids) = ids

abbrev shape_of : List Row → List String → List String
shape_of rows matched =
    let maps = build_structural_maps rows in
    set_of (
      then_set (compute_ancestors_of_matched matched maps.parent_by_span_id) (λ ancestors.
        compute_search_collapsed_parents rows matched ancestors maps.children_by_span_id))

unfoldable pub search_shape : List SpanRow → Option (List String)
unfolding has_active_search
search_shape spans =
    if has_active_search spans then some (shape_of (rows_of spans) (matched_ids spans)) else none

-- `collapsedByTrace`, and the toggles that were made during the search.
pub record Lens : Type 0 where
  pub store : CollapseStore
  pub search_overrides : List (String × Bool)

-- The loop of `effectiveCollapsed`.
unfoldable pub apply_overrides : List String → List (String × Bool) → List String
apply_overrides out [] = out
apply_overrides out ((id, collapsed) ∷ overrides) =
    apply_overrides (if collapsed then add_key out id else remove_key out id) overrides

abbrev pub collapsed_under : Option (List String) → String → Lens → List String
collapsed_under none trace_id lens = collapsed_for_trace lens.store trace_id
collapsed_under (some shape) trace_id lens = apply_overrides shape lens.search_overrides

unfoldable pub effective_collapsed : Response → Lens → List String
unfolding search_shape apply_overrides
effective_collapsed r lens = collapsed_under (search_shape r.spans) r.trace_id lens

abbrev pub toggled : List String → String → List String
toggled ids id = if has ids id then remove_key ids id else add_key ids id

abbrev pub toggle_under : Option (List String) → String → String → Lens → Lens
toggle_under none trace_id id lens = record lens {
  store =
      set_collapsed_for_trace trace_id (toggled (collapsed_for_trace lens.store trace_id) id)
        lens.store;
}
toggle_under (some shape) trace_id id lens = record lens {
  search_overrides =
      map_set lens.search_overrides id (not (has (apply_overrides shape lens.search_overrides) id));
}

unfoldable pub toggle_collapse : Response → String → Lens → Lens
unfolding search_shape
toggle_collapse r id lens = toggle_under (search_shape r.spans) r.trace_id id lens

-- The rows that have children.
unfoldable pub collapsible_span_ids : List Row → Index → List String
collapsible_span_ids [] children = []
collapsible_span_ids (r ∷ rows) children =
    if has_kids children r.span_id
    then r.span_id ∷ collapsible_span_ids rows children
    else collapsible_span_ids rows children

abbrev pub set_each : Bool → List String → List (String × Bool) → List (String × Bool)
set_each collapsed [] m = m
set_each collapsed (id ∷ ids) m = set_each collapsed ids (map_set m id collapsed)

abbrev pub set_all_under : Option (List String) → String → Bool → List String → Lens → Lens
set_all_under none trace_id collapsed ids lens = record lens {
  store = set_collapsed_for_trace trace_id (if collapsed then ids else []) lens.store;
}
set_all_under (some shape) trace_id collapsed ids lens = record lens {
  search_overrides = set_each collapsed ids [];
}

unfoldable pub set_all : Response → Bool → Lens → Lens
unfolding search_shape collapsible_span_ids
set_all r collapsed lens =
    let rows = rows_of r.spans in
    let ids = collapsible_span_ids rows (build_structural_maps rows).children_by_span_id in
    set_all_under (search_shape r.spans) r.trace_id collapsed ids lens

-- The effect that follows a new response.
unfoldable pub respond : Lens → Lens
respond lens = record lens { search_overrides = [] }

pub data Gesture : Type 0 where
  toggle : String → Gesture
  all_to : Bool → Gesture

abbrev pub gesture : Response → Gesture → Lens → Lens
gesture r (toggle id) lens = toggle_collapse r id lens
gesture r (all_to collapsed) lens = set_all r collapsed lens

unfoldable pub gestures : Response → List Gesture → Lens → Lens
gestures r [] lens = lens
gestures r (g ∷ gs) lens = gestures r gs (gesture r g lens)
