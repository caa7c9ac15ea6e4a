-- ===== src/Examples/Views.antt =====
-- The waterfall (components/traces/Waterfall) and the views of metrics on concrete data.
use otel_desktop_viewer.Prelude.{
  ℕ, Option, ◌≤◌, ◌≡◌, inr, refl, String, same, if◌then◌else◌, true, false, List, [], ◌∷◌, ◌++◌,
  length, take, none, some, map_get, arith,
}
use otel_desktop_viewer.Prelude.Int.{pos}
use otel_desktop_viewer.Waterfall.Structure.{
  Row, build_structural_maps, drawn_parent, above_after, build_structural_maps-drawn,
}
use otel_desktop_viewer.Waterfall.Children.{
  SpanNode, kids, reporting, build_children_by_span_id, build_children_by_span_id-reporting,
}
use otel_desktop_viewer.Waterfall.Ancestors.{ParentMap, ancestor_ids_of, Walk, ancestor_ids_of-Walk}
use otel_desktop_viewer.Waterfall.CollapseStore.{
  CollapseStore, max_tracked_traces, collapsed_for_trace, set_collapsed_for_trace,
  set_collapsed_for_trace-bounded, collapsed-set,
}
use otel_desktop_viewer.Metrics.Storage.{
  Storage, object, string, array, read_object, metric_view_storage_key,
}
use otel_desktop_viewer.Metrics.Visible.{
  sum, PersistedMetricView, or_empty_view, load_persisted_view, write_persisted_view,
  save_persisted_timeseries_visible, save_persisted_aggregation_view,
  load_persisted_show_all_series_aggregate, load_persisted_show_all_series_quantile_aggregate,
  persisted_visible_keys, resolve_timeseries_visible, reconcile_timeseries_visible,
}
use otel_desktop_viewer.Metrics.Persistence.{
  written_view, load_persisted_view-write, save_persisted_timeseries_visible-keeps, or_none_drawn,
  save_persisted_aggregation_view-keeps,
}
use otel_desktop_viewer.Metrics.Resolution.{
  AllIn, resolve_timeseries_visible_sound, reconcile_timeseries_visible_sound,
  save_persisted_aggregation_view-hides,
}
use otel_desktop_viewer.Rows.{
  key_deltas, resolve_next_pos, on_select, calls, selects, handle_keydown,
}
use otel_desktop_viewer.Rows.Bounds.{IsForRow, handle_keydown-IsForRow}

abbrev root : Row
root = record { span_id = "root"; depth = pos 0 }

abbrev child : Row
child = record { span_id = "child"; depth = pos 1 }

abbrev leaf : Row
leaf = record { span_id = "leaf"; depth = pos 2 }

abbrev second : Row
second = record { span_id = "second"; depth = pos 1 }

build_structural_maps-drawn_example :
    map_get
      (build_structural_maps ((root ∷ child ∷ leaf ∷ []) ++ second ∷ [])).parent_by_span_id
      "second"
    ≡ some (drawn_parent 1 (above_after (root ∷ child ∷ leaf ∷ []) []))
build_structural_maps-drawn_example =
    build_structural_maps-drawn (root ∷ child ∷ leaf ∷ []) second [] refl

-- Two spans that are each other's parent.
abbrev cycle : ParentMap
cycle = ("a", some "b") ∷ ("b", some "a") ∷ []

ancestor_ids_of-Walk_example :
    (ids : List String) × (ancestor_ids_of "a" cycle ≡ some ids) × Walk cycle ("a" ∷ []) "a" ids
ancestor_ids_of-Walk_example = ancestor_ids_of-Walk "a" cycle

abbrev store : CollapseStore
store = ("trace-1", "root" ∷ []) ∷ ("trace-2", []) ∷ []

set_collapsed_for_trace-bounded_example :
    length (set_collapsed_for_trace "trace-3" ("child" ∷ []) store) ≤ max_tracked_traces
set_collapsed_for_trace-bounded_example =
    set_collapsed_for_trace-bounded "trace-3" ("child" ∷ []) store (omega arith)

collapsed-set_example :
    collapsed_for_trace (set_collapsed_for_trace "trace-3" ("child" ∷ []) store) "trace-1"
    ≡ (if same "trace-3" "trace-1" then "child" ∷ [] else collapsed_for_trace store "trace-1")
collapsed-set_example = collapsed-set "trace-3" "trace-1" ("child" ∷ []) store (inr (omega arith))

abbrev view : PersistedMetricView
view = record {
  visible_keys = "cpu" ∷ "gpu" ∷ [];
  aggregation_view = some sum;
  show_all_series_aggregate = some true;
  show_all_series_quantile_aggregate = some false;
}

abbrev saved : Storage
saved =
    (
      "metrics:view:m1",
      object (("visibleKeys", array (some "cpu" ∷ [])) ∷ ("aggregationView", string "sum") ∷ []),
    )
    ∷ []

load_persisted_view-write_example :
    load_persisted_view (write_persisted_view "m1" view saved) "m1" ≡ some (written_view view)
load_persisted_view-write_example = load_persisted_view-write "m1" view saved

save_persisted_timeseries_visible-keeps_example :
    let after = save_persisted_timeseries_visible "m1" [] saved in
    (persisted_visible_keys after "m1" ≡ some [])
    × ((or_empty_view (load_persisted_view after "m1")).aggregation_view
        ≡ (or_empty_view (load_persisted_view saved "m1")).aggregation_view)
    × (load_persisted_show_all_series_aggregate after "m1"
        ≡ load_persisted_show_all_series_aggregate saved "m1")
    × (load_persisted_show_all_series_quantile_aggregate after "m1"
        ≡ load_persisted_show_all_series_quantile_aggregate saved "m1")
save_persisted_timeseries_visible-keeps_example =
    save_persisted_timeseries_visible-keeps "m1" [] saved

save_persisted_aggregation_view-keeps_example :
    let after = save_persisted_aggregation_view "m1" sum saved in
    ((or_empty_view (load_persisted_view after "m1")).aggregation_view ≡ some sum)
    × (persisted_visible_keys after "m1" ≡ some (or_none_drawn (persisted_visible_keys saved "m1")))
    × (load_persisted_show_all_series_aggregate after "m1"
        ≡ load_persisted_show_all_series_aggregate saved "m1")
    × (load_persisted_show_all_series_quantile_aggregate after "m1"
        ≡ load_persisted_show_all_series_quantile_aggregate saved "m1")
save_persisted_aggregation_view-keeps_example = save_persisted_aggregation_view-keeps "m1" sum saved

resolve_timeseries_visible_sound_example :
    let drawn = resolve_timeseries_visible saved ("gpu" ∷ "cpu" ∷ []) "m1" 10 (some 22) in
    AllIn ("gpu" ∷ "cpu" ∷ []) drawn × (length drawn ≤ 22)
resolve_timeseries_visible_sound_example =
    resolve_timeseries_visible_sound saved ("gpu" ∷ "cpu" ∷ []) "m1" 10 22 (omega arith)

reconcile_timeseries_visible_sound_example :
    let drawn =
      reconcile_timeseries_visible saved ("gone" ∷ []) ("gpu" ∷ "cpu" ∷ []) "m1" (some 22) in
    AllIn ("gpu" ∷ "cpu" ∷ []) drawn × (length drawn ≤ 22)
reconcile_timeseries_visible_sound_example =
    reconcile_timeseries_visible_sound saved ("gone" ∷ []) ("gpu" ∷ "cpu" ∷ []) "m1" 22
      (omega arith)

untouched : load_persisted_view saved "m2" ≡ none
unfolding load_persisted_view read_object map_get metric_view_storage_key
untouched = refl

save_persisted_aggregation_view-hides_example :
    (resolve_timeseries_visible saved ("gpu" ∷ "cpu" ∷ []) "m2" 10 (some 22)
      ≡ take 10 ("gpu" ∷ "cpu" ∷ []))
    × (resolve_timeseries_visible
          (save_persisted_aggregation_view "m2" sum saved)
          ("gpu" ∷ "cpu" ∷ [])
          "m2"
          10
          (some 22)
        ≡ [])
save_persisted_aggregation_view-hides_example =
    save_persisted_aggregation_view-hides saved ("gpu" ∷ "cpu" ∷ []) "m2" sum 10 22 untouched

-- `PageDown` in a table of four rows, of which the second has the focus.
abbrev rows : List (Option String)
rows = some "a" ∷ some "b" ∷ none ∷ some "d" ∷ []

-- The second row.
abbrev second_row : Option ℕ
second_row = some 1

page_down : handle_keydown 10 false "PageDown" rows second_row ≡ selects "d" 3
unfolding handle_keydown key_deltas resolve_next_pos
page_down = refl

enter : handle_keydown 10 false "Enter" rows second_row ≡ calls on_select "b"
unfolding handle_keydown
enter = refl

handle_keydown-IsForRow_example :
    IsForRow false rows second_row (handle_keydown 10 false "PageDown" rows second_row)
handle_keydown-IsForRow_example = handle_keydown-IsForRow 10 false "PageDown" rows second_row

abbrev spans : List SpanNode
spans =
    record { span_id = "root"; parent_span_id = none }
    ∷ record { span_id = "child"; parent_span_id = some "root" }
    ∷ record { span_id = "second"; parent_span_id = some "root" }
    ∷ []

build_children_by_span_id-reporting_example :
    kids (build_children_by_span_id spans) "root" ≡ reporting "root" spans
build_children_by_span_id-reporting_example = build_children_by_span_id-reporting "root" spans refl
