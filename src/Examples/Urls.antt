-- ===== src/Examples/Urls.antt =====
-- The URL's state (route) and the time window (contexts/time-context.svelte.ts) with a browser of
-- structured URLs.
use Prim.Native.Char.{Char, code}
use package.text.Mathlib.TextEquality.{eq_iff}
use otel_desktop_viewer.Prelude.{
  ◌≤◌, length, get_elem?, ℕ, zero, suc, ◌==◌, ◌≡◌, refl, ap, String, Text, codes, same, false,
  Bool-cases, inl, inr, if◌then◌else◌, List, [], ◌∷◌, Option, none, some, map_get, has_key,
  IsObject, arith,
}
use otel_desktop_viewer.Prelude.Int.{ℤ, pos, negsuc}
use otel_desktop_viewer.Route.Router.{
  RouteQuery, Route, traces, push, replace, UrlCodec, Browser, read_route, non_blank, back_after,
}
use otel_desktop_viewer.Route.Item.{
  navigate_to_item, signal_id_from_path, read_id, item_value, IsEncoded, navigate_to_item-read,
}
use otel_desktop_viewer.Route.MetricView.{
  heatmap, window, MetricViewQuery, ParseContext, timeseries, parse_metric_view_query,
  set_metric_view_query,
}
use otel_desktop_viewer.Route.MetricView.RoundTrip.{IsViewFor, set_metric_view_query-parse}
use otel_desktop_viewer.Time.Selection.{
  Range, preset, missing, selection_to_query_range_ms, time_selection_from_args, parse_time_query,
}
use otel_desktop_viewer.Time.Window.{TimeContext, create_time_context, set_selection}
use otel_desktop_viewer.Time.Window.Agreement.{
  Reaches, start, select, Reaches-window, set_selection-keeps,
}
use otel_desktop_viewer.Metrics.Visible.{AggregationView, raw, sum, avg}
use otel_desktop_viewer.Metrics.Link.{
  Metric, View, view_state_to_metric_view_query, apply_metric_url_to_view, write_metric_url,
}
use otel_desktop_viewer.Metrics.Link.Restores.{seen_by, write_metric_url-restores}
use otel_desktop_viewer.Time.Recents.{
  RecentTimeRange, max_recent_time_ranges, record_recent_time_range,
}
use otel_desktop_viewer.Time.Recents.Newest.{IsNewestFirst, record_recent_time_range-newest}

-- Of two entries for a key the later one counts.
once : RouteQuery → RouteQuery
once [] = []
once ((k, v) ∷ q) = if has_key q k then once q else (k, v) ∷ once q

has_key-once : (q : RouteQuery) (k : String) → has_key q k ≡ false → has_key (once q) k ≡ false
unfolding once
has_key-once [] k h = refl
has_key-once ((j, v) ∷ q) k h = ground (arith, has_key-once q k)

once-IsObject : (q : RouteQuery) → IsObject (once q)
unfolding once
once-IsObject [] = tt
once-IsObject ((k, v) ∷ q) = elim (Bool-cases (has_key q k)) [
  | inl t ↦ rw t (once-IsObject q)
  | inr f ↦ rw f (has_key-once q k f, once-IsObject q)
]

once-same : (q : RouteQuery) → IsObject q → once q ≡ q
unfolding once
once-same [] h = refl
once-same ((k, v) ∷ q) (fresh, h) = rw fresh (ap (λ r. (k, v) ∷ r) (once-same q h))

-- A browser whose URLs are a path and parameters.
abbrev codec : UrlCodec Route
codec = record {
  format = λ path q. record { path = path; query = q };
  parse_route = λ u. record { path = u.path; query = once u.query };
}

abbrev Safe : Text → Type 0
Safe path = Unit

reads :
    (path : Text) (q : RouteQuery)
    → Safe path
    → IsObject q
    → codec.parse_route (codec.format path q) ≡ record { path = path; query = q }
reads path q safe h = rw (once-same q h) refl

abbrev browser : Browser Route
browser = record {
  href = record {
    path = codes "/traces/a";
    query = ("span", "1") ∷ ("start", "5") ∷ ("end", "9") ∷ [];
  };
  back = [];
}

browser-IsObject : IsObject (read_route codec browser).query
browser-IsObject = once-IsObject browser.href.query

-- Ids that need no escapes.
abbrev encode : Text → Text
encode id = id

abbrev decode : Text → Option Text
decode s = some s

abbrev item_query : Option (List (String × Option String))
item_query = some (("event", some "2") ∷ [])

abbrev b7 : Option Text
b7 = some (codes "b7")

b7-IsEncoded : IsEncoded encode decode b7
b7-IsEncoded = (refl, refl, λ h. cc)

navigate_to_item-read_example :
    let after = navigate_to_item codec encode traces b7 push item_query browser in
    (signal_id_from_path decode traces (read_route codec after).path ≡ read_id b7)
    × (map_get (read_route codec after).query "start"
        ≡ item_value (read_route codec browser).query item_query "start")
    × (after.back ≡ back_after push browser)
navigate_to_item-read_example =
    navigate_to_item-read codec encode decode Safe reads traces b7 push item_query browser "start"
      tt b7-IsEncoded browser-IsObject

abbrev rate_of_cpu : MetricViewQuery
rate_of_cpu = record { kind = timeseries (some "rate"); dp = none; series = some "cpu" }

abbrev metric : ParseContext
metric = record {
  is_histogram_kind = false;
  allowed_aggs = "raw" ∷ "rate" ∷ [];
  datapoint_ids = [];
  series_keys = "cpu" ∷ "gpu" ∷ [];
}

rate_of_cpu-IsViewFor : IsViewFor metric rate_of_cpu
rate_of_cpu-IsViewFor = ((refl, (refl, refl)), tt, (refl, refl))

set_metric_view_query-parse_example :
    let after = set_metric_view_query codec rate_of_cpu replace browser in
    (parse_metric_view_query (read_route codec after).query metric ≡ rate_of_cpu)
    × ((read_route codec after).path ≡ (read_route codec browser).path)
    × (map_get (read_route codec after).query "end"
        ≡ non_blank (map_get (read_route codec browser).query "end"))
    × (after.back ≡ back_after replace browser)
set_metric_view_query-parse_example =
    set_metric_view_query-parse codec Safe reads rate_of_cpu metric replace browser "end" tt
      browser-IsObject rate_of_cpu-IsViewFor refl

-- The CPU metric, its view with a datapoint selected, and the view of somebody who opens the link.
abbrev cpu : Metric
cpu = record {
  id = "m1";
  timeseries =
      record { attributes_key = "cpu"; datapoints = "p1" ∷ [] }
      ∷ record { attributes_key = "gpu"; datapoints = [] }
      ∷ [];
  is_histogram_kind = false;
  available_aggregation_views = raw ∷ sum ∷ avg ∷ [];
}

abbrev view_with : AggregationView → Option String → View
view_with v id = record {
  aggregation_view = v;
  active_histogram_tab = heatmap;
  histogram_scope = window;
  selected_datapoint_id = id;
  chosen_series_key = none;
  selection_source = none;
  selected_histogram_bucket_start = none;
  selected_quantile_key = none;
  expanded_datapoints = [];
  series = record { visible_series = []; timeseries_color_by_key = []; storage = [] };
  url_snapshot = none;
}

-- The link of an average over one datapoint, opened on a metric that draws the raw series.
abbrev shared_view : View
shared_view = view_with avg (some "p1")

write_metric_url-restores_example :
    let (v', b') = write_metric_url codec cpu push shared_view browser in
    (v' ≡ record shared_view {
      url_snapshot = some (view_state_to_metric_view_query cpu shared_view);
    })
    × (view_state_to_metric_view_query cpu
          (apply_metric_url_to_view cpu (read_route codec b').query false (view_with raw none))
        ≡ view_state_to_metric_view_query cpu (seen_by false (view_with raw none) shared_view))
write_metric_url-restores_example =
    write_metric_url-restores codec Safe reads cpu push false shared_view (view_with raw none)
      browser tt browser-IsObject (refl, refl) (refl, refl)

-- A window that is used again.
abbrev used : ℤ → ℕ → RecentTimeRange
used first at = record { start = first; end = pos 9; used_at = at }

record_recent_time_range-newest_example :
    let after =
      record_recent_time_range (pos 1) (pos 9) 50 (used (pos 3) 40 ∷ used (pos 1) 20 ∷ []) in
    (get_elem? after 0 ≡ some (used (pos 1) 50))
    × IsNewestFirst after
    × (length after ≤ max_recent_time_ranges)
record_recent_time_range-newest_example =
    record_recent_time_range-newest (pos 1) (pos 9) 50 (used (pos 3) 40 ∷ used (pos 1) 20 ∷ [])
      (omega arith, (omega arith, tt))

-- A number as a text, by as many marks as it counts.
marks : ℕ → String
marks zero = ""
marks (suc n) = String.◌∷◌ "1" (marks n)

count : String → ℕ
count String.[] = 0
count (String.◌∷◌ c s) = suc (count s)

count-marks : (n : ℕ) → count (marks n) ≡ n
unfolding count marks
count-marks zero = refl
count-marks (suc n) = ap suc (count-marks n)

abbrev text : ℤ → String
text (pos n) = String.◌∷◌ "+" (marks n)
text (negsuc n) = String.◌∷◌ "-" (marks n)

number : String → Option ℤ
number String.[] = none
number (String.◌∷◌ c s) = if code c == 43 then some (pos (count s)) else some (negsuc (count s))

some_text : (c : Char) (s : String) → same (String.◌∷◌ c s) "" ≡ false
some_text c s = elim (Bool-cases (same (String.◌∷◌ c s) "")) [
  | inl t ↦ let e : String.◌∷◌ c s ≡ "" = ground (arith, eq_iff (String.◌∷◌ c s) "") in cc
  | inr f ↦ f
]

full : (n : ℤ) → same (text n) "" ≡ false
full (pos n) = some_text "+" (marks n)
full (negsuc n) = some_text "-" (marks n)

back : (n : ℤ) → number (text n) ≡ some n
unfolding number
back (pos n) = ap (λ k. some (pos k)) (count-marks n)
back (negsuc n) = ap (λ k. some (negsuc k)) (count-marks n)

objects : (u : Route) → IsObject (codec.parse_route u).query
objects u = once-IsObject u.query

abbrev last_minute : Range
last_minute = record { start = pos 60; end = pos 120 }

abbrev first_context : TimeContext
first_context =
    create_time_context (parse_time_query number (read_route codec browser).query) missing none
      (pos 100)

-- The context after the reader chose a preset at 500.
abbrev chosen : TimeContext × Browser Route
chosen = set_selection codec text number last_minute preset (some 2) (pos 500) first_context browser

chosen-Reaches :
    Reaches codec text number Safe objects reads full back missing none chosen.0 chosen.1
chosen-Reaches =
    select last_minute preset (some 2) (pos 500) first_context browser (start (pos 100) browser tt)

abbrev chosen_range : Range
chosen_range =
    selection_to_query_range_ms (time_selection_from_args last_minute preset (some 2)) (pos 500)

set_selection-keeps_example :
    (chosen.0.selection ≡ time_selection_from_args last_minute preset (some 2))
    × (chosen.0.tz ≡ first_context.tz)
    × (parse_time_query number (read_route codec chosen.1).query ≡ some chosen_range)
    × ((read_route codec chosen.1).path ≡ (read_route codec browser).path)
    × (map_get (read_route codec chosen.1).query "span"
        ≡ non_blank (map_get (read_route codec browser).query "span"))
    × (chosen.1.back ≡ browser.back)
set_selection-keeps_example =
    set_selection-keeps codec text number Safe objects reads full back last_minute preset (some 2)
      (pos 500) first_context browser "span" tt refl refl

chosen_is_written : parse_time_query number (read_route codec chosen.1).query ≡ some chosen_range
chosen_is_written = set_selection-keeps_example.2

Reaches-window_example :
    (now : ℤ) × (selection_to_query_range_ms chosen.0.selection now ≡ chosen_range)
Reaches-window_example =
    Reaches-window codec text number Safe objects reads full back missing none chosen.0 chosen.1
      chosen_range chosen-Reaches chosen_is_written
