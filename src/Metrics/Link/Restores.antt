-- ===== src/Metrics/Link/Restores.antt =====
-- contexts/metric-view-context.svelte.ts: what a link to a metric restores.
use package.text.Mathlib.TextEquality.{eq_iff}
use otel_desktop_viewer.Prelude.{
  ◌≡◌, refl, sym, ap, ◌∙◌, String, Text, same, has, Bool, true, false, Bool-cases, inl, inr,
  if◌then◌else◌, List, [], ◌∷◌, map, Option, none, some, IsObject, arith,
}
use otel_desktop_viewer.Metrics.Visible.{AggregationView, raw, sum, avg, rate, view_name}
use otel_desktop_viewer.Metrics.Aggregation.{includes}
use otel_desktop_viewer.Route.Router.{RouteQuery, HistoryMode, UrlCodec, Browser, read_route}
use otel_desktop_viewer.Route.MetricView.{
  heatmap, quantiles, histogram, window, bucket, Kind, timeseries, histogram_kind, MetricViewQuery,
  metric_view_queries_equal, same_option, same_kind,
}
use otel_desktop_viewer.Route.MetricView.RoundTrip.{
  IsMember, IsKindFor, IsViewFor, set_metric_view_query-parse,
}
use otel_desktop_viewer.Metrics.Link.{
  Timeseries, Metric, View, series_keys, datapoint_ids, metric_parse_context, owner_of,
  known_series, owner_of_selected, or_chosen, selected_series_key, agg_of,
  view_state_to_metric_view_query, apply_agg, apply_kind, apply_query, apply_metric_url_to_view,
  on_route_change, write_metric_url,
}

same_option_refl : (o : Option String) → same_option o o ≡ true
same_option_refl none = refl
same_option_refl (some a) = ground (arith, eq_iff a a)

same_kind_refl : (k : Kind) → same_kind k k ≡ true
same_kind_refl (timeseries a) = same_option_refl a
same_kind_refl (histogram_kind heatmap window) = refl
same_kind_refl (histogram_kind heatmap bucket) = refl
same_kind_refl (histogram_kind quantiles window) = refl
same_kind_refl (histogram_kind quantiles bucket) = refl
same_kind_refl (histogram_kind histogram window) = refl
same_kind_refl (histogram_kind histogram bucket) = refl

metric_view_queries_equal_refl : (q : MetricViewQuery) → metric_view_queries_equal q q ≡ true
unfolding metric_view_queries_equal
metric_view_queries_equal_refl q =
    rw (same_option_refl q.dp, same_option_refl q.series) (same_kind_refl q.kind)

-- Of the ids and keys of the metric none is empty.
abbrev pub AreNamed : Metric → Type 0
AreNamed m =
    (has (datapoint_ids m.timeseries) "" ≡ false) × (has (series_keys m.timeseries) "" ≡ false)

has-IsMember :
    (ids : List String) (k : String) → has ids "" ≡ false → has ids k ≡ true → IsMember ids (some k)
has-IsMember ids k named h = (
  h,
  elim (Bool-cases (same k "")) [
    | inr f ↦ f
    | inl t ↦
        let e : k ≡ "" = ground (arith, eq_iff k "") in
        let both : false ≡ true = sym named ∙ sym (ap (has ids) e) ∙ h in cc
  ],
)

abbrev pub IsSelectable : List String → Option String → Type 0
IsSelectable ids none = Unit
IsSelectable ids (some id) = has ids id ≡ true

IsSelectable-IsMember :
    (ids : List String) (o : Option String)
    → has ids "" ≡ false
    → IsSelectable ids o
    → IsMember ids o
IsSelectable-IsMember ids none named h = tt
IsSelectable-IsMember ids (some id) named h = has-IsMember ids id named h

owner_of-IsSelectable :
    (ts : List Timeseries) (id : String) → IsSelectable (series_keys ts) (owner_of ts id)
owner_of-IsSelectable [] id = tt
owner_of-IsSelectable (t ∷ ts) id = elim (Bool-cases (has t.datapoints id)) [
  | inl e ↦ rw e (ground (arith, eq_iff t.attributes_key t.attributes_key))
  | inr f ↦ rw f (grown (owner_of ts id) (owner_of-IsSelectable ts id))
]
  where
    grown :
        (o : Option String)
        → IsSelectable (series_keys ts) o
        → IsSelectable (series_keys (t ∷ ts)) o
    grown none h = tt
    grown (some k) h = ground arith

known_series-IsSelectable :
    (ts : List Timeseries) (o : Option String) → IsSelectable (series_keys ts) (known_series ts o)
known_series-IsSelectable ts none = tt
known_series-IsSelectable ts (some k) = elim (Bool-cases (has (series_keys ts) k)) [
  | inl t ↦ rw t t
  | inr f ↦ rw f tt
]

or_chosen-IsSelectable :
    (ids : List String) (o p : Option String)
    → IsSelectable ids o
    → IsSelectable ids p
    → IsSelectable ids (or_chosen o p)
or_chosen-IsSelectable ids none p h g = g
or_chosen-IsSelectable ids (some k) p h g = h

owner_of_selected-IsSelectable :
    (ts : List Timeseries) (o : Option String)
    → IsSelectable (series_keys ts) (owner_of_selected ts o)
owner_of_selected-IsSelectable ts none = tt
owner_of_selected-IsSelectable ts (some id) = owner_of-IsSelectable ts id

selected_series_key-IsSelectable :
    (m : Metric) (v : View) → IsSelectable (series_keys m.timeseries) (selected_series_key m v)
unfolding selected_series_key
selected_series_key-IsSelectable m v =
    or_chosen-IsSelectable (series_keys m.timeseries) _ _
      (owner_of_selected-IsSelectable m.timeseries v.selected_datapoint_id)
      (known_series-IsSelectable m.timeseries v.chosen_series_key)

has-view_name :
    (views : List AggregationView) (v : AggregationView)
    → includes views v ≡ true
    → has (map view_name views) (view_name v) ≡ true
has-view_name [] v h = cc
has-view_name (w ∷ views) v h = ground (arith, has-view_name views v)

agg_of-IsMember :
    (views : List AggregationView) (v : AggregationView)
    → includes views v ≡ true
    → IsMember (map view_name views) (agg_of v)
agg_of-IsMember views raw h = tt
agg_of-IsMember views sum h = (has-view_name views sum h, refl)
agg_of-IsMember views avg h = (has-view_name views avg h, refl)
agg_of-IsMember views rate h = (has-view_name views rate h, refl)

-- The aggregation of the view that a link is applied to: `raw` is not written in the link, so it
-- is only restored where an aggregation that the link leaves out is reset.
abbrev pub linked_aggregation : Bool → AggregationView → AggregationView → AggregationView
linked_aggregation true written own = written
linked_aggregation false raw own = own
linked_aggregation false sum own = sum
linked_aggregation false avg own = avg
linked_aggregation false rate own = rate

apply_agg-of :
    (reset : Bool) (v w : AggregationView)
    → apply_agg (agg_of v) reset w ≡ linked_aggregation reset v w
apply_agg-of true raw w = refl
apply_agg-of true sum w = refl
apply_agg-of true avg w = refl
apply_agg-of true rate w = refl
apply_agg-of false raw w = refl
apply_agg-of false sum w = refl
apply_agg-of false avg w = refl
apply_agg-of false rate w = refl

-- The kind of the query that a view is written as.
abbrev kind_at : Bool → View → Kind
kind_at histograms v =
    if histograms
    then histogram_kind v.active_histogram_tab v.histogram_scope
    else timeseries (agg_of v.aggregation_view)

kind_at-IsKindFor :
    (m : Metric) (v : View) (histograms : Bool)
    → m.is_histogram_kind ≡ histograms
    → includes m.available_aggregation_views v.aggregation_view ≡ true
    → IsKindFor (metric_parse_context m) (kind_at histograms v)
kind_at-IsKindFor m v true e h = e
kind_at-IsKindFor m v false e h =
    (e, agg_of-IsMember m.available_aggregation_views v.aggregation_view h)

-- The aggregation is one that the metric offers, and the datapoint is one of its own.
abbrev pub IsViewOf : Metric → View → Type 0
IsViewOf m v =
    (includes m.available_aggregation_views v.aggregation_view ≡ true)
    × IsSelectable (datapoint_ids m.timeseries) v.selected_datapoint_id

view_state-IsViewFor :
    (m : Metric) (v : View)
    → AreNamed m
    → IsViewOf m v
    → IsViewFor (metric_parse_context m) (view_state_to_metric_view_query m v)
unfolding view_state_to_metric_view_query
view_state-IsViewFor m v (ids, keys) (offered, selectable) = (
  kind_at-IsKindFor m v m.is_histogram_kind refl offered,
  IsSelectable-IsMember (datapoint_ids m.timeseries) v.selected_datapoint_id ids selectable,
  IsSelectable-IsMember (series_keys m.timeseries) (selected_series_key m v) keys
      (selected_series_key-IsSelectable m v),
)

-- The view as whoever has the view `w` and opens its link sees it.
abbrev pub seen_by : Bool → View → View → View
seen_by reset w v = record v {
  aggregation_view = linked_aggregation reset v.aggregation_view w.aggregation_view;
}

kind_at-apply :
    (histograms reset : Bool) (v w : View)
    → kind_at histograms (apply_kind (kind_at histograms v) reset w)
      ≡ kind_at histograms (seen_by reset w v)
kind_at-apply true reset v w = refl
kind_at-apply false reset v w =
    ap (λ v'. timeseries (agg_of v')) (apply_agg-of reset v.aggregation_view w.aggregation_view)

known_series-twice :
    (ts : List Timeseries) (o : Option String)
    → known_series ts (known_series ts o) ≡ known_series ts o
known_series-twice ts none = refl
known_series-twice ts (some k) = elim (Bool-cases (has (series_keys ts) k)) [
  | inl t ↦ rw (t, t) refl
  | inr f ↦ rw f refl
]

or_chosen-twice :
    (ts : List Timeseries) (owner chosen : Option String)
    → or_chosen owner (known_series ts (or_chosen owner (known_series ts chosen)))
      ≡ or_chosen owner (known_series ts chosen)
or_chosen-twice ts none chosen = known_series-twice ts chosen
or_chosen-twice ts (some k) chosen = refl

-- A view that a link is applied to is written as the view of the link, but for the aggregation.
apply_query-state :
    (m : Metric) (reset : Bool) (v w : View)
    → view_state_to_metric_view_query m (apply_query (view_state_to_metric_view_query m v) reset w)
      ≡ view_state_to_metric_view_query m (seen_by reset w v)
unfolding view_state_to_metric_view_query apply_query selected_series_key
apply_query-state m reset v w =
    let query : Kind → Option String → MetricViewQuery =
      λ k s. record { kind = k; dp = v.selected_datapoint_id; series = s } in
    let owner = owner_of_selected m.timeseries v.selected_datapoint_id in
    let again = or_chosen owner (
      known_series m.timeseries
        (or_chosen owner (known_series m.timeseries v.chosen_series_key))) in
    ap (λ k. query k again) (kind_at-apply m.is_histogram_kind reset v w)
    ∙ ap (query (kind_at m.is_histogram_kind (seen_by reset w v)))
        (or_chosen-twice m.timeseries owner v.chosen_series_key)

-- After a write of the URL by a view of the metric, the view is as it was, since the listener knows
-- the write for its own. Whoever opens the URL on the same metric, with whatever view, then sees the
-- same datapoint and series, and the same tab and scope of a histogram or the same aggregation. The
-- aggregation `raw` is left out of the URL: a listener resets to it (`reset`), and a view that is
-- seeded for a link keeps its own there. The browser reads a URL with a safe path as it was written,
-- the ids and keys of the metric are not empty, and the aggregation and the datapoint of the view are
-- among those that the metric has.
pub write_metric_url-restores {ℓ} :
    {Url : Type ℓ} (codec : UrlCodec Url) (Safe : Text → Type 0)
    (reads : (path : Text) (q : RouteQuery)
      → Safe path
      → IsObject q
      → codec.parse_route (codec.format path q) ≡ record { path = path; query = q })
    (m : Metric) (mode : HistoryMode) (reset : Bool) (v w : View) (b : Browser Url)
    → Safe (read_route codec b).path
    → IsObject (read_route codec b).query
    → AreNamed m
    → IsViewOf m v
    → let (v', b') = write_metric_url codec m mode v b in
      (v' ≡ record v { url_snapshot = some (view_state_to_metric_view_query m v) })
      × (view_state_to_metric_view_query m
            (apply_metric_url_to_view m (read_route codec b').query reset w)
          ≡ view_state_to_metric_view_query m (seen_by reset w v))
unfolding write_metric_url on_route_change apply_metric_url_to_view
write_metric_url-restores codec Safe reads m mode reset v w b safe object named valid =
    let q = view_state_to_metric_view_query m v in
    let read =
      (set_metric_view_query-parse codec Safe reads q (metric_parse_context m) mode b "start" safe
        object (view_state-IsViewFor m v named valid) refl).0 in
    (
      rw (read, metric_view_queries_equal_refl q) refl,
      ap (λ p. view_state_to_metric_view_query m (apply_query p reset w)) read
          ∙ apply_query-state m reset v w,
    )
