-- ===== src/Metrics/Link.antt =====
-- contexts/metric-view-context.svelte.ts: the sub-view of a metric and the URL that restores it.
pub mod Restores
use otel_desktop_viewer.Prelude.{
  ℕ, add_key, remove_key, ◌≡◌, String, same, has, Bool, true, false, if◌then◌else◌, List, [], ◌∷◌,
  ◌++◌, map, Option, none, some,
}
use otel_desktop_viewer.Metrics.Visible.{
  AggregationView, raw, view_name, view_named, save_persisted_aggregation_view,
}
use otel_desktop_viewer.Metrics.SeriesView.{SeriesView, reveal_series}
use otel_desktop_viewer.Route.Router.{
  RouteQuery, HistoryMode, push, replace, UrlCodec, Browser, read_route,
}
use otel_desktop_viewer.Route.MetricView.{
  Htab, histogram, Hscope, window, bucket, Kind, timeseries, histogram_kind, MetricViewQuery,
  ParseContext, parse_metric_view_query, metric_view_queries_equal, set_metric_view_query,
}

-- A series: its key and the ids of its datapoints.
pub record Timeseries : Type 0 where
  pub attributes_key : String
  pub datapoints : List String

-- The metric that is open, with the aggregations that it offers.
pub record Metric : Type 0 where
  pub id : String
  pub timeseries : List Timeseries
  pub is_histogram_kind : Bool
  pub available_aggregation_views : List AggregationView

pub data SelectionSource : Type 0 where
  chart : SelectionSource
  detail : SelectionSource

pub record View : Type 0 where
  pub aggregation_view : AggregationView
  pub active_histogram_tab : Htab
  pub histogram_scope : Hscope
  pub selected_datapoint_id : Option String
  pub chosen_series_key : Option String
  pub selection_source : Option SelectionSource
  pub selected_histogram_bucket_start : Option ℕ
  pub selected_quantile_key : Option String
  pub expanded_datapoints : List String
  pub series : SeriesView
  pub url_snapshot : Option MetricViewQuery

abbrev pub series_keys : List Timeseries → List String
series_keys [] = []
series_keys (t ∷ ts) = t.attributes_key ∷ series_keys ts

abbrev pub datapoint_ids : List Timeseries → List String
datapoint_ids [] = []
datapoint_ids (t ∷ ts) = t.datapoints ++ datapoint_ids ts

abbrev pub metric_parse_context : Metric → ParseContext
metric_parse_context m = record {
  is_histogram_kind = m.is_histogram_kind;
  allowed_aggs = map view_name m.available_aggregation_views;
  datapoint_ids = datapoint_ids m.timeseries;
  series_keys = series_keys m.timeseries;
}

-- The series that owns a datapoint.
abbrev pub owner_of : List Timeseries → String → Option String
owner_of [] id = none
owner_of (t ∷ ts) id = if has t.datapoints id then some t.attributes_key else owner_of ts id

abbrev pub known_series : List Timeseries → Option String → Option String
known_series ts none = none
known_series ts (some key) = if has (series_keys ts) key then some key else none

abbrev pub or_chosen : Option String → Option String → Option String
or_chosen none chosen = chosen
or_chosen (some key) chosen = some key

abbrev pub owner_of_selected : List Timeseries → Option String → Option String
owner_of_selected ts none = none
owner_of_selected ts (some id) = owner_of ts id

-- The datapoint decides, then the series that was chosen.
unfoldable pub selected_series_key : Metric → View → Option String
selected_series_key m v =
    or_chosen (owner_of_selected m.timeseries v.selected_datapoint_id)
      (known_series m.timeseries v.chosen_series_key)

abbrev pub agg_of : AggregationView → Option String
agg_of v = if same (view_name v) "raw" then none else some (view_name v)

unfoldable pub view_state_to_metric_view_query : Metric → View → MetricViewQuery
unfolding selected_series_key
view_state_to_metric_view_query m v = record {
  kind =
      if m.is_histogram_kind
      then histogram_kind v.active_histogram_tab v.histogram_scope
      else timeseries (agg_of v.aggregation_view);
  dp = v.selected_datapoint_id;
  series = selected_series_key m v;
}

-- A view's name that was parsed is one of the metric's.
abbrev named_or : Option AggregationView → AggregationView → AggregationView
named_or none v = v
named_or (some named) v = named

abbrev pub apply_agg : Option String → Bool → AggregationView → AggregationView
apply_agg none true v = raw
apply_agg none false v = v
apply_agg (some agg) reset v = named_or (view_named agg) v

abbrev pub apply_kind : Kind → Bool → View → View
apply_kind (timeseries agg) reset v = record v {
  aggregation_view = apply_agg agg reset v.aggregation_view;
}
apply_kind (histogram_kind tab scope) reset v = record v {
  active_histogram_tab = tab;
  histogram_scope = scope;
}

abbrev source_of : Option String → Option SelectionSource
source_of none = none
source_of (some id) = some detail

abbrev revealed : Option String → SeriesView → SeriesView
revealed none s = s
revealed (some key) s = reveal_series key s

-- `applyMetricUrlToView` of a query that was parsed.
unfoldable pub apply_query : MetricViewQuery → Bool → View → View
apply_query q reset v =
    let kept = apply_kind q.kind reset v in
    record kept {
      selected_datapoint_id = q.dp;
      selection_source = source_of q.dp;
      chosen_series_key = q.series;
      series = revealed q.series kept.series;
      url_snapshot = some q;
    }

unfoldable pub apply_metric_url_to_view : Metric → RouteQuery → Bool → View → View
unfolding apply_query
apply_metric_url_to_view m query reset v =
    apply_query (parse_metric_view_query query (metric_parse_context m)) reset v

abbrev pub is_snapshot : Option MetricViewQuery → MetricViewQuery → Bool
is_snapshot none q = false
is_snapshot (some s) q = metric_view_queries_equal q s

module _ {ℓ} {Url : Type ℓ} (codec : UrlCodec Url) (m : Metric) where
  -- The listener of effect (1b).
  unfoldable pub on_route_change : View → Browser Url → View
  unfolding apply_metric_url_to_view
  on_route_change v b =
      let query = (read_route codec b).query in
      let from_url = parse_metric_view_query query (metric_parse_context m) in
      if is_snapshot v.url_snapshot from_url then v else apply_metric_url_to_view m query true v

  -- The write, and the listener that hears of it.
  unfoldable pub write_metric_url : HistoryMode → View → Browser Url → View × Browser Url
  unfolding on_route_change view_state_to_metric_view_query
  write_metric_url mode v b =
      let q = view_state_to_metric_view_query m v in
      let after = set_metric_view_query codec q mode b in
      (on_route_change (record v { url_snapshot = some q }) after, after)

  unfoldable pub set_active_histogram_tab : Htab → View → Browser Url → View × Browser Url
  unfolding write_metric_url
  set_active_histogram_tab tab v b =
      write_metric_url push (record v { active_histogram_tab = tab }) b

  unfoldable pub set_histogram_scope : Hscope → View → Browser Url → View × Browser Url
  unfolding write_metric_url
  set_histogram_scope scope v b = write_metric_url replace (record v { histogram_scope = scope }) b

  unfoldable pub set_aggregation_view : AggregationView → View → Browser Url → View × Browser Url
  unfolding write_metric_url
  set_aggregation_view next v b =
      let storage = save_persisted_aggregation_view m.id next v.series.storage in
      let saved : SeriesView = record v.series { storage = storage } in
      write_metric_url replace (record v { aggregation_view = next; series = saved }) b

  abbrev toggled_id : Option String → String → Option String
  toggled_id none id = some id
  toggled_id (some old) id = if same old id then none else some id

  -- The tab and the scope that a pick moves a histogram to.
  abbrev picked : Bool → Option String → View → View
  picked false id v = v
  picked true none v = record v { histogram_scope = window }
  picked true (some id) v = record v { active_histogram_tab = histogram; histogram_scope = bucket }

  abbrev toggled_expansion : Bool → String → View → View
  toggled_expansion false id v = v
  toggled_expansion true id v =
      let open_ids = v.expanded_datapoints in
      record v {
        expanded_datapoints =
            if has open_ids id then remove_key open_ids id else add_key open_ids id;
      }

  -- A click on a datapoint, which is expanded when it has exemplars.
  unfoldable pub on_datapoint_click : String → Bool → View → Browser Url → View × Browser Url
  unfolding write_metric_url
  on_datapoint_click id has_exemplars v b =
      let selected = toggled_id v.selected_datapoint_id id in
      let next : View = record v {
        selected_datapoint_id = selected;
        selection_source = source_of selected;
        selected_histogram_bucket_start = none;
        selected_quantile_key = none;
      } in
      write_metric_url push
        (toggled_expansion has_exemplars id (picked m.is_histogram_kind selected next)) b
