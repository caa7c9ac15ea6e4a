-- ===== src/Route/MetricView.antt =====
-- route/metric-view-query.ts: the view of a metric that the URL keeps.
pub mod RoundTrip
use package.text.Mathlib.TextEquality.{eq_iff}
use otel_desktop_viewer.Prelude.{
  IsObject, map_set-IsObject, ◌≡◌, ◌↔◌, refl, ap, ◌∙◌, String, Text, same, has, Bool, true, false,
  ◌&&◌, ◌||◌, Bool-cases, inl, inr, if◌then◌else◌, List, [], ◌∷◌, Option, none, some, map_get,
  map_set, map_get-set, arith,
}
use otel_desktop_viewer.Route.Router.{
  RouteQuery, HistoryMode, push, replace, metric_view_params, UrlCodec, Browser, url_of, read_route,
  navigate, navigate_current_route, without_params, present, get-without_params, get-present,
  present-IsObject, without_params-IsObject, back_after, href-navigate, back-navigate,
}

pub data Htab : Type 0 where
  heatmap : Htab
  quantiles : Htab
  histogram : Htab

pub data Hscope : Type 0 where
  window : Hscope
  bucket : Hscope

-- The variant, and the two ids that every variant has.
pub data Kind : Type 0 where
  timeseries : Option String → Kind
  histogram_kind : Htab → Hscope → Kind

pub record MetricViewQuery : Type 0 where
  pub kind : Kind
  pub dp : Option String
  pub series : Option String

pub record ParseContext : Type 0 where
  pub is_histogram_kind : Bool
  pub allowed_aggs : List String
  pub datapoint_ids : List String
  pub series_keys : List String

abbrev pub htab_text : Htab → String
htab_text heatmap = "heatmap"
htab_text quantiles = "quantiles"
htab_text histogram = "histogram"

abbrev pub hscope_text : Hscope → String
hscope_text window = "window"
hscope_text bucket = "bucket"

-- `raw && allowed.includes(raw) ? raw : null`
abbrev pub parse_optional_member : Option String → List String → Option String
parse_optional_member none allowed = none
parse_optional_member (some raw) allowed =
    if same raw "" then none else if has allowed raw then some raw else none

abbrev parse_datapoint_param : RouteQuery → List String → Option String
parse_datapoint_param query datapoint_ids = parse_optional_member (map_get query "dp") datapoint_ids

abbrev parse_series_param : RouteQuery → List String → Option String
parse_series_param query series_keys = parse_optional_member (map_get query "series") series_keys

-- `parseEnumMember` at the tabs and at the scopes.
abbrev pub parse_htab : Option String → Htab
parse_htab none = heatmap
parse_htab (some raw) =
    if same raw "quantiles" then quantiles else if same raw "histogram" then histogram else heatmap

abbrev pub parse_hscope : Option String → Hscope
parse_hscope none = window
parse_hscope (some raw) = if same raw "bucket" then bucket else window

abbrev pub parse_histogram_metric_view_query :
    RouteQuery → Option String → Option String → MetricViewQuery
parse_histogram_metric_view_query query dp series = record {
  kind = histogram_kind (parse_htab (map_get query "htab")) (parse_hscope (map_get query "hscope"));
  dp = dp;
  series = series;
}

abbrev pub parse_timeseries_metric_view_query :
    RouteQuery → List String → Option String → Option String → MetricViewQuery
parse_timeseries_metric_view_query query allowed_aggs dp series = record {
  kind = timeseries (parse_optional_member (map_get query "agg") allowed_aggs);
  dp = dp;
  series = series;
}

unfoldable pub parse_metric_view_query : RouteQuery → ParseContext → MetricViewQuery
parse_metric_view_query query ctx =
    let dp = parse_datapoint_param query ctx.datapoint_ids in
    let series = parse_series_param query ctx.series_keys in
    if ctx.is_histogram_kind
    then parse_histogram_metric_view_query query dp series
    else parse_timeseries_metric_view_query query ctx.allowed_aggs dp series

-- `===` on ids that may be null, and on the tabs and scopes.
abbrev pub same_option : Option String → Option String → Bool
same_option none none = true
same_option none (some b) = false
same_option (some a) none = false
same_option (some a) (some b) = same a b

abbrev pub same_kind : Kind → Kind → Bool
same_kind (timeseries a) (timeseries b) = same_option a b
same_kind (timeseries a) (histogram_kind u t) = false
same_kind (histogram_kind s r) (timeseries b) = false
same_kind (histogram_kind s r) (histogram_kind u t) =
    same (htab_text s) (htab_text u) && same (hscope_text r) (hscope_text t)

unfoldable pub metric_view_queries_equal : MetricViewQuery → MetricViewQuery → Bool
metric_view_queries_equal a b =
    if same_option a.dp b.dp
    then (if same_option a.series b.series then same_kind a.kind b.kind else false)
    else false

-- An entry that is not null.
abbrev pub entry : String → Option String → RouteQuery → RouteQuery
entry name none es = es
entry name (some v) es = (name, v) ∷ es

abbrev ids_of : MetricViewQuery → RouteQuery
ids_of v = entry "dp" v.dp (entry "series" v.series [])

abbrev kind_entries : Kind → RouteQuery → RouteQuery
kind_entries (timeseries agg) es = entry "agg" agg es
kind_entries (histogram_kind tab scope) es =
    ("htab", htab_text tab) ∷ ("hscope", hscope_text scope) ∷ es

unfoldable pub metric_view_query_to_params : MetricViewQuery → RouteQuery
metric_view_query_to_params v = kind_entries v.kind (ids_of v)

-- The spread of an object over another.
unfoldable pub assign : RouteQuery → RouteQuery → RouteQuery
assign q [] = q
assign q ((k, v) ∷ es) = assign (map_set q k v) es

unfoldable pub merge_route_query_with_metric_view : RouteQuery → MetricViewQuery → RouteQuery
unfolding assign without_params metric_view_query_to_params
merge_route_query_with_metric_view route_query v =
    assign (without_params route_query metric_view_params) (metric_view_query_to_params v)

module _ {ℓ} {Url : Type ℓ} (codec : UrlCodec Url) where
  unfoldable pub set_metric_view_query : MetricViewQuery → HistoryMode → Browser Url → Browser Url
  unfolding merge_route_query_with_metric_view navigate_current_route
  set_metric_view_query v mode b =
      let query = merge_route_query_with_metric_view (read_route codec b).query v in
      navigate_current_route codec query mode b
