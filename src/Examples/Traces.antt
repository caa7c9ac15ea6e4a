-- ===== src/Examples/Traces.antt =====
-- The search shape and the lens of the waterfall (components/traces/Waterfall), and the series of a
-- metric (contexts/metric-view-context.svelte.ts), on concrete data.
use otel_desktop_viewer.Prelude.{
  ℕ, zero, suc, ◌≡◌, ◌⊎◌, refl, String, has, Bool, true, false, List, [], ◌∷◌, any, none, some, inl,
}
use otel_desktop_viewer.Prelude.Int.{pos}
use otel_desktop_viewer.Waterfall.Structure.{Row, build_structural_maps}
use otel_desktop_viewer.Waterfall.Ancestors.{ParentMap, ancestor_ids_of}
use otel_desktop_viewer.Waterfall.Visibility.{has_collapsed_ancestor, has_collapsed_ancestor-any}
use otel_desktop_viewer.Waterfall.SearchShape.{
  compute_ancestors_of_matched, compute_search_collapsed_parents,
}
use otel_desktop_viewer.Waterfall.SearchShape.Matches.{compute_search_collapsed_parents-shows}
use otel_desktop_viewer.Waterfall.CollapseStore.{is_tracked}
use otel_desktop_viewer.Waterfall.Lens.{
  Gesture, SpanRow, Response, Lens, has_active_search, search_shape, effective_collapsed, respond,
  toggle, all_to, gestures,
}
use otel_desktop_viewer.Waterfall.Lens.Toggles.{gestures-restored}
use otel_desktop_viewer.Waterfall.Lens.Refines.{
  arrange_all, in_shape, collapsible, gestures-arrange,
}
use otel_desktop_viewer.Waterfall.Keys.{or_selected, visible_rows, handle_grid_keydown}
use otel_desktop_viewer.Waterfall.Keys.Selects.{IsAllowed, handle_grid_keydown-IsAllowed}
use otel_desktop_viewer.Waterfall.Connectors.{
  children_counts, count_children, is_last_child, compute_tree_meta,
}
use otel_desktop_viewer.Waterfall.Connectors.Agreement.{AllAgree, compute_tree_meta-AllAgree}
use otel_desktop_viewer.Metrics.Palette.{
  Palette, colors_of, hex_at, slots_from, categorical_palette, metric_type_stem,
}
use otel_desktop_viewer.Metrics.Colors.{AreDistinct}
use otel_desktop_viewer.Metrics.SeriesView.{SeriesView, seed_gauge_sum, toggle_timeseries_visible}
use otel_desktop_viewer.Metrics.SeriesView.Painted.{
  Painted, Reaches, open_gauge_sum, stay, Reaches-Painted,
}
use otel_desktop_viewer.Metrics.SeriesView.Painted.{toggle as toggled}
use otel_desktop_viewer.Metrics.Visible.{sum, max_visible_timeseries}
use otel_desktop_viewer.Metrics.Aggregation.{
  includes, available_aggregation_views, seed_aggregation_view, coerce_aggregation_view,
  seed_aggregation_view-offered,
}

abbrev row : String → ℕ → Row
row id depth = record { span_id = id; depth = pos depth }

-- A root with two children, the first of which has a child of its own.
abbrev rows : List Row
rows = row "root" 0 ∷ row "left" 1 ∷ row "leaf" 2 ∷ row "right" 1 ∷ []

abbrev parents : ParentMap
parents =
    ("root", none) ∷ ("left", some "root") ∷ ("leaf", some "left") ∷ ("right", some "root") ∷ []

has_collapsed_ancestor-any_example :
    (ids : List String) × (ancestor_ids_of "leaf" parents ≡ some ids)
    × (has_collapsed_ancestor "leaf" parents ("root" ∷ []) ≡ some (any (has ("root" ∷ [])) ids))
has_collapsed_ancestor-any_example = has_collapsed_ancestor-any "leaf" parents ("root" ∷ [])

compute_search_collapsed_parents-shows_example :
    let maps = build_structural_maps rows in
    (ancestors : List String) × (shape : List String) × (compute_ancestors_of_matched
        ("leaf" ∷ [])
        maps.parent_by_span_id
      ≡ some ancestors)
    × (compute_search_collapsed_parents rows ("leaf" ∷ []) ancestors maps.children_by_span_id
        ≡ some shape)
    × (has_collapsed_ancestor "leaf" maps.parent_by_span_id shape ≡ some false)
compute_search_collapsed_parents-shows_example =
    compute_search_collapsed_parents-shows rows ("leaf" ∷ []) "leaf" refl

abbrev span : String → ℕ → Bool → SpanRow
span id depth matched = record { row = row id depth; matched = matched }

-- The trace without a search, and with one that matches a root alone.
abbrev cleared : Response
cleared = record { trace_id = "t"; spans = span "root" 0 true ∷ span "leaf" 1 true ∷ [] }

abbrev searching : Response
searching = record { trace_id = "t"; spans = span "root" 0 true ∷ span "leaf" 1 false ∷ [] }

abbrev lens : Lens
lens = record { store = ("t", "root" ∷ []) ∷ []; search_overrides = [] }

no_search : search_shape cleared.spans ≡ none
unfolding search_shape has_active_search
no_search = refl

abbrev shape : List String
shape = elim (search_shape searching.spans) [ none ↦ [] | some ids ↦ ids ]

a_search : search_shape searching.spans ≡ some shape
unfolding search_shape has_active_search
a_search = refl

is_known : is_tracked lens.store "t" ≡ true
unfolding is_tracked
is_known = refl

abbrev turns : List Gesture
turns = toggle "leaf" ∷ all_to true ∷ toggle "root" ∷ []

gestures-arrange_example :
    has (effective_collapsed cleared (gestures cleared turns lens)) "root"
    ≡ arrange_all
        (in_shape (search_shape cleared.spans))
        (collapsible cleared)
        turns
        (has (effective_collapsed cleared lens))
        "root"
gestures-arrange_example = gestures-arrange cleared turns lens "root" tt (inl is_known)

gestures-restored_example :
    effective_collapsed cleared
      (respond (gestures searching (toggle "root" ∷ all_to true ∷ []) (respond lens)))
    ≡ effective_collapsed cleared lens
gestures-restored_example =
    gestures-restored searching cleared shape (toggle "root" ∷ all_to true ∷ []) lens a_search
      no_search

-- The palette of a Gauge, with an interpolation that marks the parts on the colour they go from.
abbrev marked : String → ℕ → String
marked color zero = color
marked color (suc n) = String.◌∷◌ "/" (marked color n)

abbrev palette : Palette
palette = record {
  metric_type = "Gauge";
  theme = "rose-pine";
  interpolate_hcl = λ from to part parts. marked from part;
}

palette-distinct : AreDistinct (colors_of palette max_visible_timeseries)
unfolding categorical_palette metric_type_stem hex_at slots_from
palette-distinct = (
  refl,
  (
    refl,
    (
      refl,
      (
        refl,
        (
          refl,
          (
            refl,
            (
              refl,
              (
                refl,
                (
                  refl,
                  (
                    refl,
                    (
                      refl,
                      (
                        refl,
                        (
                          refl,
                          (
                            refl,
                            (refl, (refl, (refl, (refl, (refl, (refl, (refl, (refl, tt)))))))),
                          ),
                        ),
                      ),
                    ),
                  ),
                ),
              ),
            ),
          ),
        ),
      ),
    ),
  ),
)

abbrev fresh : SeriesView
fresh = record { visible_series = []; timeseries_color_by_key = []; storage = [] }

abbrev opened : SeriesView
opened = seed_gauge_sum palette none ("cpu" ∷ "gpu" ∷ []) fresh

abbrev without_cpu : SeriesView
without_cpu = toggle_timeseries_visible palette false 2 none "cpu" false opened

without_cpu-Reaches : Reaches fresh without_cpu
without_cpu-Reaches =
    toggled palette false 2 none "cpu" false opened
      (open_gauge_sum palette none ("cpu" ∷ "gpu" ∷ []) fresh palette-distinct stay)

Reaches-Painted_example : Painted without_cpu
Reaches-Painted_example = Reaches-Painted fresh without_cpu (tt, tt, tt) without_cpu-Reaches

seed_aggregation_view-offered_example :
    let offered = available_aggregation_views "Sum" "Cumulative" (some false) 1 in
    (includes offered (seed_aggregation_view none [] "Sum" "Cumulative" (some false) 1) ≡ true)
    × (includes offered (coerce_aggregation_view none sum "Sum" "Cumulative" (some false) 1 []).0
        ≡ true)
    × ((includes offered sum ≡ false)
        ⊎ (coerce_aggregation_view none sum "Sum" "Cumulative" (some false) 1 [] ≡ (sum, [])))
seed_aggregation_view-offered_example =
    seed_aggregation_view-offered none [] "Sum" "Cumulative" (some false) 1 sum

-- `ArrowDown` from the root whose first child is collapsed.
handle_grid_keydown-IsAllowed_example :
    IsAllowed rows parents
      ("left" ∷ [])
      (λ id. has ("root" ∷ "left" ∷ []) id)
      (or_selected none (some "root"))
      (handle_grid_keydown "ArrowDown" none
        (some "root")
        (λ id. has ("root" ∷ "left" ∷ []) id)
        parents
        ("left" ∷ [])
        (visible_rows rows parents ("left" ∷ [])))
handle_grid_keydown-IsAllowed_example =
    handle_grid_keydown-IsAllowed "ArrowDown" none (some "root")
      (λ id. has ("root" ∷ "left" ∷ []) id) rows parents ("left" ∷ [])

compute_tree_meta-AllAgree_example : AllAgree (compute_tree_meta (0 ∷ 1 ∷ 2 ∷ 1 ∷ []))
compute_tree_meta-AllAgree_example = compute_tree_meta-AllAgree (0 ∷ 1 ∷ 2 ∷ 1 ∷ [])

-- Three rows under the first, two of them its children.
four_rows : children_counts (0 ∷ 1 ∷ 2 ∷ 1 ∷ []) ≡ 2 ∷ 1 ∷ 0 ∷ 0 ∷ []
unfolding children_counts count_children
four_rows = refl

four_corners : is_last_child 1 (2 ∷ 1 ∷ []) ≡ false
unfolding is_last_child
four_corners = refl
