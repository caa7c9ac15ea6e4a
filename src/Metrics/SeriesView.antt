-- ===== src/Metrics/SeriesView.antt =====
-- contexts/metric-view-context.svelte.ts: the series of a metric that are drawn and their colours.
-- A palette is that of the metric's type and of the theme at the time.
pub mod Painted
use Prim.Native.String.{compare}
use Prim.Native.Nat.{Ordering}
use otel_desktop_viewer.Prelude.{
  ℕ, suc, ◌≡◌, ltb, max, String, same, has, Bool, true, false, not, ◌&&◌, if◌then◌else◌, List, [],
  ◌∷◌, length, take, Option, none, some, has_key, add_key, remove_key, arith,
}
use otel_desktop_viewer.Metrics.Storage.{Storage}
use otel_desktop_viewer.Metrics.Visible.{
  max_visible_timeseries, default_visible_timeseries, resolve_timeseries_visible,
  reconcile_timeseries_visible, save_persisted_timeseries_visible,
}
use otel_desktop_viewer.Metrics.Palette.{Palette, colors_of}
use otel_desktop_viewer.Metrics.Colors.{
  Colors, seed_color_assignments, acquire_color, release_color, sync_color_assignments,
}

pub record SeriesView : Type 0 where
  pub visible_series : List String
  pub timeseries_color_by_key : Colors
  pub storage : Storage

-- `[...keys].sort()`
abbrev insert_key : String → List String → List String
insert_key k [] = k ∷ []
insert_key k (j ∷ ks) = elim (compare k j) [ Ordering.gt ↦ j ∷ insert_key k ks | _ ↦ k ∷ j ∷ ks ]

abbrev sort_keys : List String → List String
sort_keys [] = []
sort_keys (k ∷ ks) = insert_key k (sort_keys ks)

abbrev same_keys : List String → List String → Bool
same_keys [] [] = true
same_keys [] (k ∷ ks) = false
same_keys (j ∷ js) [] = false
same_keys (j ∷ js) (k ∷ ks) = same j k && same_keys js ks

unfoldable pub visible_key_lists_equal : List String → List String → Bool
visible_key_lists_equal a b = same_keys (sort_keys a) (sort_keys b)

-- `timeseriesChartColors`, by the number of series in the legend and of those that are visible.
abbrev pub chart_colors : Palette → Bool → ℕ → ℕ → List String
chart_colors palette is_histogram legend visible =
    colors_of palette (if is_histogram then max (max legend visible) 1 else max_visible_timeseries)

abbrev pub all_assigned : Colors → List String → Bool
all_assigned assigned [] = true
all_assigned assigned (key ∷ visible) = has_key assigned key && all_assigned assigned visible

-- `ensureColorAssignments`
unfoldable pub ensure_color_assignments :
    List String → List String → List String → SeriesView → SeriesView
unfolding seed_color_assignments
ensure_color_assignments pool [] legend_keys v = record v { timeseries_color_by_key = [] }
ensure_color_assignments pool (k ∷ visible) legend_keys v =
    if all_assigned v.timeseries_color_by_key (k ∷ visible) then v else record v {
      timeseries_color_by_key = seed_color_assignments pool (k ∷ visible) legend_keys;
    }

-- The part of `seedForMetric` that seeds the series of a Gauge or a Sum.
abbrev gauge_sum_visible : Storage → Option String → List String → List String
gauge_sum_visible s none keys = take max_visible_timeseries keys
gauge_sum_visible s (some id) keys =
    resolve_timeseries_visible s keys id default_visible_timeseries (some max_visible_timeseries)

unfoldable pub seed_gauge_sum : Palette → Option String → List String → SeriesView → SeriesView
unfolding seed_color_assignments
seed_gauge_sum palette stream_id keys v =
    let visible = gauge_sum_visible v.storage stream_id keys in
    record v {
      visible_series = visible;
      timeseries_color_by_key =
          seed_color_assignments (colors_of palette max_visible_timeseries) visible keys;
    }

-- The part of `seedForMetric` that seeds the series of a histogram, which has no cap.
abbrev histogram_visible : Storage → Option String → List String → List String
histogram_visible s none keys = []
histogram_visible s (some id) [] = []
histogram_visible s (some id) (k ∷ keys) =
    resolve_timeseries_visible s (k ∷ keys) id default_visible_timeseries none

unfoldable pub seed_histogram : Palette → Option String → List String → SeriesView → SeriesView
unfolding seed_color_assignments
seed_histogram palette stream_id keys v =
    let visible = histogram_visible v.storage stream_id keys in
    record v {
      visible_series = visible;
      timeseries_color_by_key =
          seed_color_assignments (colors_of palette (max (length keys) 1)) visible keys;
    }

-- The effect on new telemetry of the same stream, after its early returns.
unfoldable pub adopt_visible : Palette → Bool → List String → List String → SeriesView → SeriesView
unfolding visible_key_lists_equal ensure_color_assignments sync_color_assignments
adopt_visible palette is_histogram next keys v =
    if visible_key_lists_equal v.visible_series next
    then ensure_color_assignments
        (chart_colors palette is_histogram (length keys) (length v.visible_series)) v.visible_series
        keys v
    else record v {
      visible_series = next;
      timeseries_color_by_key =
          sync_color_assignments (chart_colors palette is_histogram (length keys) (length next))
            v.timeseries_color_by_key next keys;
    }

abbrev pub is_empty : List String → Bool
is_empty [] = true
is_empty (k ∷ ks) = false

abbrev pub next_visible : Bool → String → List String → SeriesView → List String
next_visible is_histogram stream_id keys v =
    reconcile_timeseries_visible v.storage v.visible_series keys stream_id
      (if is_histogram then none else some max_visible_timeseries)

unfoldable pub refresh_series : Palette → Bool → String → List String → SeriesView → SeriesView
unfolding adopt_visible
refresh_series palette is_histogram stream_id keys v =
    let next = next_visible is_histogram stream_id keys v in
    let adopted = adopt_visible palette is_histogram next keys v in
    if is_histogram && is_empty keys then v else adopted

abbrev saved_for : Option String → List String → Storage → Storage
saved_for none visible s = s
saved_for (some id) visible s = save_persisted_timeseries_visible id visible s

-- The end of `toggleTimeseriesVisible`.
abbrev pub show_series : Option String → Colors → List String → SeriesView → SeriesView
show_series stream_id colors visible v = record {
  visible_series = visible;
  timeseries_color_by_key = colors;
  storage = saved_for stream_id visible v.storage;
}

abbrev pub checked_with :
    Option String → String → Colors × Option String → SeriesView → SeriesView → SeriesView
checked_with stream_id key (assigned, none) v otherwise = otherwise
checked_with stream_id key (assigned, some c) v otherwise =
    show_series stream_id assigned (add_key v.visible_series key) v

-- A histogram asks a larger palette when its own is used up.
unfoldable pub toggle_timeseries_visible :
    Palette → Bool → ℕ → Option String → String → Bool → SeriesView → SeriesView
unfolding acquire_color release_color
toggle_timeseries_visible palette is_histogram legend stream_id key true v =
    let pool = chart_colors palette is_histogram legend (length v.visible_series) in
    let assigned = v.timeseries_color_by_key in
    let larger = colors_of palette (max (max (length pool) (suc (length assigned))) legend) in
    let grown = checked_with stream_id key (acquire_color larger assigned key) v v in
    checked_with stream_id key (acquire_color pool assigned key) v
      (if is_histogram then grown else v)
toggle_timeseries_visible palette is_histogram legend stream_id key false v =
    show_series stream_id (release_color v.timeseries_color_by_key key)
      (remove_key v.visible_series key) v

unfoldable pub clear_all_timeseries_visible : Option String → SeriesView → SeriesView
clear_all_timeseries_visible stream_id v = show_series stream_id [] [] v

-- A series that a link names is drawn too.
unfoldable pub reveal_series : String → SeriesView → SeriesView
reveal_series key v = record v { visible_series = add_key v.visible_series key }
