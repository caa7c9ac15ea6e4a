-- ===== src/Route/MetricView/RoundTrip.antt =====
-- route/metric-view-query.ts: what is written to the URL, as it is read.
use otel_desktop_viewer.Prelude.{
  IsObject, map_set-IsObject, ◌≡◌, refl, ap, ◌∙◌, String, Text, same, has, Bool, true, false,
  Bool-cases, inl, inr, if◌then◌else◌, List, [], ◌∷◌, Option, none, some, map_get, map_set,
  map_get-set, arith,
}
use otel_desktop_viewer.Route.Router.{
  RouteQuery, HistoryMode, metric_view_params, UrlCodec, Browser, url_of, read_route,
  navigate_current_route, without_params, present, non_blank, get-without_params, get-present,
  present-IsObject, without_params-IsObject, back_after, href-navigate, back-navigate,
}
use otel_desktop_viewer.Route.MetricView.{
  Htab, heatmap, quantiles, histogram, Hscope, window, bucket, Kind, timeseries, histogram_kind,
  MetricViewQuery, ParseContext, htab_text, hscope_text, parse_optional_member,
  parse_histogram_metric_view_query, parse_timeseries_metric_view_query, parse_htab, parse_hscope,
  parse_metric_view_query, entry, metric_view_query_to_params, assign,
  merge_route_query_with_metric_view, set_metric_view_query,
}

-- The last entry for a key, or what was there.
abbrev last_of : RouteQuery → String → Option String → Option String
last_of [] j old = old
last_of ((k, v) ∷ es) j old = last_of es j (if same k j then some v else old)

get-assign : (q es : RouteQuery) (j : String) → map_get (assign q es) j ≡ last_of es j (map_get q j)
unfolding assign
get-assign q [] j = refl
get-assign q ((k, v) ∷ es) j =
    get-assign (map_set q k v) es j ∙ ap (last_of es j) (map_get-set q k j v)

assign-IsObject : (q es : RouteQuery) → IsObject q → IsObject (assign q es)
unfolding assign
assign-IsObject q [] h = h
assign-IsObject q ((k, v) ∷ es) h = assign-IsObject (map_set q k v) es (map_set-IsObject q k v h)

last_of-entry :
    (name : String) (o : Option String) (es : RouteQuery) (j : String)
    → same name j ≡ true
    → last_of (entry name o es) j none ≡ last_of es j o
last_of-entry name none es j h = refl
last_of-entry name (some v) es j h = rw (last_of, h) refl

last_of-skip :
    (name : String) (o : Option String) (es : RouteQuery) (j : String) (old : Option String)
    → same name j ≡ false
    → last_of (entry name o es) j old ≡ last_of es j old
last_of-skip name none es j old h = refl
last_of-skip name (some v) es j old h = rw (last_of, h) refl

-- A value that is missing, or in the list and not empty.
abbrev pub IsMember : List String → Option String → Type 0
IsMember allowed none = Unit
IsMember allowed (some v) = (has allowed v ≡ true) × (same v "" ≡ false)

abbrev pub IsKindFor : ParseContext → Kind → Type 0
IsKindFor ctx (timeseries agg) = (ctx.is_histogram_kind ≡ false) × IsMember ctx.allowed_aggs agg
IsKindFor ctx (histogram_kind tab scope) = ctx.is_histogram_kind ≡ true

-- A view of the metric's kind, with the aggregations, datapoints and series that it has.
abbrev pub IsViewFor : ParseContext → MetricViewQuery → Type 0
IsViewFor ctx v =
    IsKindFor ctx v.kind × IsMember ctx.datapoint_ids v.dp × IsMember ctx.series_keys v.series

parse_optional_member-member :
    (o : Option String) (allowed : List String)
    → IsMember allowed o
    → parse_optional_member (non_blank o) allowed ≡ o
parse_optional_member-member none allowed h = refl
parse_optional_member-member (some v) allowed (here, full) = rw (full, full, here) refl

parse_optional_member-IsMember :
    (o : Option String) (allowed : List String) → IsMember allowed (parse_optional_member o allowed)
parse_optional_member-IsMember none allowed = tt
parse_optional_member-IsMember (some v) allowed = elim (Bool-cases (same v "")) [
  | inl e ↦ rw e tt
  | inr e ↦ elim (Bool-cases (has allowed v)) [ inl t ↦ rw (e, t) (t, e) | inr f ↦ rw (e, f) tt ]
]

parsed-IsViewFor :
    (query : RouteQuery) (ctx : ParseContext) (dp series : Option String) (histograms : Bool)
    → ctx.is_histogram_kind ≡ histograms
    → IsMember ctx.datapoint_ids dp
    → IsMember ctx.series_keys series
    → IsViewFor ctx (
        if histograms
        then parse_histogram_metric_view_query query dp series
        else parse_timeseries_metric_view_query query ctx.allowed_aggs dp series)
parsed-IsViewFor query ctx dp series true e in_ids in_keys = (e, in_ids, in_keys)
parsed-IsViewFor query ctx dp series false e in_ids in_keys =
    ((e, parse_optional_member-IsMember (map_get query "agg") ctx.allowed_aggs), in_ids, in_keys)

-- Every query is read as a view that the metric has, whatever the URL says.
pub parse_metric_view_query-IsViewFor :
    (query : RouteQuery) (ctx : ParseContext) → IsViewFor ctx (parse_metric_view_query query ctx)
unfolding parse_metric_view_query
parse_metric_view_query-IsViewFor query ctx =
    parsed-IsViewFor query ctx _ _ ctx.is_histogram_kind refl
      (parse_optional_member-IsMember (map_get query "dp") ctx.datapoint_ids)
      (parse_optional_member-IsMember (map_get query "series") ctx.series_keys)

-- What is written for a key, nothing of it blank.
abbrev written : MetricViewQuery → String → Option String
written v k = last_of (metric_view_query_to_params v) k none

module _ (q : RouteQuery) (object : IsObject q) (v : MetricViewQuery) where
  merged-IsObject : IsObject (merge_route_query_with_metric_view q v)
  unfolding merge_route_query_with_metric_view
  merged-IsObject =
      assign-IsObject (without_params q metric_view_params) (metric_view_query_to_params v)
        (without_params-IsObject q metric_view_params object)

  merged-get :
      (k : String)
      → map_get (present (merge_route_query_with_metric_view q v)) k
        ≡ non_blank (
            last_of
              (metric_view_query_to_params v)
              k
              (if has metric_view_params k then none else map_get q k))
  unfolding merge_route_query_with_metric_view
  merged-get k =
      get-present (merge_route_query_with_metric_view q v) k merged-IsObject
      ∙ ap non_blank (
          get-assign (without_params q metric_view_params) (metric_view_query_to_params v) k
          ∙ ap (last_of (metric_view_query_to_params v) k)
              (get-without_params q metric_view_params k))

module _ (kind : Kind) (dp series : Option String) where
  abbrev view : MetricViewQuery
  view = record { kind = kind; dp = dp; series = series }

written-dp : (kind : Kind) (dp series : Option String) → written (view kind dp series) "dp" ≡ dp
unfolding metric_view_query_to_params
written-dp (timeseries agg) dp series =
    last_of-skip "agg" agg (entry "dp" dp (entry "series" series [])) "dp" none refl
    ∙ last_of-entry "dp" dp (entry "series" series []) "dp" refl
    ∙ last_of-skip "series" series [] "dp" dp refl
written-dp (histogram_kind tab scope) dp series =
    last_of-entry "dp" dp (entry "series" series []) "dp" refl
    ∙ last_of-skip "series" series [] "dp" dp refl

written-series :
    (kind : Kind) (dp series : Option String) → written (view kind dp series) "series" ≡ series
unfolding metric_view_query_to_params
written-series (timeseries agg) dp series =
    last_of-skip "agg" agg (entry "dp" dp (entry "series" series [])) "series" none refl
    ∙ last_of-skip "dp" dp (entry "series" series []) "series" none refl
    ∙ last_of-entry "series" series [] "series" refl
written-series (histogram_kind tab scope) dp series =
    last_of-skip "dp" dp (entry "series" series []) "series" none refl
    ∙ last_of-entry "series" series [] "series" refl

skip-ids :
    (dp series : Option String) (k : String) (old : Option String)
    → same "dp" k ≡ false
    → same "series" k ≡ false
    → last_of (entry "dp" dp (entry "series" series [])) k old ≡ old
skip-ids dp series k old d s =
    last_of-skip "dp" dp (entry "series" series []) k old d
    ∙ last_of-skip "series" series [] k old s

written-agg :
    (agg dp series : Option String) → written (view (timeseries agg) dp series) "agg" ≡ agg
unfolding metric_view_query_to_params
written-agg agg dp series =
    last_of-entry "agg" agg (entry "dp" dp (entry "series" series [])) "agg" refl
    ∙ skip-ids dp series "agg" agg refl refl

written-htab :
    (tab : Htab) (scope : Hscope) (dp series : Option String)
    → written (view (histogram_kind tab scope) dp series) "htab" ≡ some (htab_text tab)
unfolding metric_view_query_to_params
written-htab tab scope dp series = skip-ids dp series "htab" (some (htab_text tab)) refl refl

written-hscope :
    (tab : Htab) (scope : Hscope) (dp series : Option String)
    → written (view (histogram_kind tab scope) dp series) "hscope" ≡ some (hscope_text scope)
unfolding metric_view_query_to_params
written-hscope tab scope dp series =
    skip-ids dp series "hscope" (some (hscope_text scope)) refl refl

parse_htab-text : (tab : Htab) → parse_htab (non_blank (some (htab_text tab))) ≡ tab
parse_htab-text heatmap = refl
parse_htab-text quantiles = refl
parse_htab-text histogram = refl

parse_hscope-text : (scope : Hscope) → parse_hscope (non_blank (some (hscope_text scope))) ≡ scope
parse_hscope-text window = refl
parse_hscope-text bucket = refl

module _ (q : RouteQuery) (object : IsObject q) (ctx : ParseContext) where
  parse-written :
      (kind : Kind) (dp series : Option String)
      → IsKindFor ctx kind
      → IsMember ctx.datapoint_ids dp
      → IsMember ctx.series_keys series
      → parse_metric_view_query
          (present (merge_route_query_with_metric_view q (view kind dp series)))
          ctx
        ≡ view kind dp series
  unfolding parse_metric_view_query
  parse-written (timeseries agg) dp series (plain, in_aggs) in_ids in_keys =
      let v = view (timeseries agg) dp series in
      let e1 = merged-get q object v "dp" ∙ ap non_blank (written-dp (timeseries agg) dp series) in
      let e2 =
        merged-get q object v "series" ∙ ap non_blank (written-series (timeseries agg) dp series) in
      let e3 = merged-get q object v "agg" ∙ ap non_blank (written-agg agg dp series) in
      rw
        (
          e1,
          e2,
          plain,
          e3,
          parse_optional_member-member dp ctx.datapoint_ids in_ids,
          parse_optional_member-member series ctx.series_keys in_keys,
          parse_optional_member-member agg ctx.allowed_aggs in_aggs,
        )
        refl
  parse-written (histogram_kind tab scope) dp series is_histogram in_ids in_keys =
      let v = view (histogram_kind tab scope) dp series in
      let e1 =
        merged-get q object v "dp"
        ∙ ap non_blank (written-dp (histogram_kind tab scope) dp series) in
      let e2 =
        merged-get q object v "series"
        ∙ ap non_blank (written-series (histogram_kind tab scope) dp series) in
      let e3 = merged-get q object v "htab" ∙ ap non_blank (written-htab tab scope dp series) in
      let e4 = merged-get q object v "hscope" ∙ ap non_blank (written-hscope tab scope dp series) in
      rw
        (
          e1,
          e2,
          is_histogram,
          e3,
          e4,
          parse_optional_member-member dp ctx.datapoint_ids in_ids,
          parse_optional_member-member series ctx.series_keys in_keys,
          parse_htab-text tab,
          parse_hscope-text scope,
        )
        refl

params-skip :
    (kind : Kind) (dp series : Option String) (k : String) (old : Option String)
    → has metric_view_params k ≡ false
    → last_of (metric_view_query_to_params (view kind dp series)) k old ≡ old
unfolding metric_view_query_to_params
params-skip (timeseries agg) dp series k old h =
    last_of-skip "agg" agg (entry "dp" dp (entry "series" series [])) k old (ground arith)
    ∙ skip-ids dp series k old (ground arith) (ground arith)
params-skip (histogram_kind tab scope) dp series k old h =
    let t : same "htab" k ≡ false = ground arith in
    let c : same "hscope" k ≡ false = ground arith in
    rw (last_of, t, last_of, c) (skip-ids dp series k old (ground arith) (ground arith))

-- A view of the metric that is written to the URL is the view that is read from it, at the path that
-- was there; every parameter of others that is not empty is kept; and the history grows by an entry
-- or by none with the mode. The browser reads a URL with a safe path as it was written.
pub set_metric_view_query-parse {ℓ} :
    {Url : Type ℓ} (codec : UrlCodec Url) (Safe : Text → Type 0)
    (reads : (path : Text) (q : RouteQuery)
      → Safe path
      → IsObject q
      → codec.parse_route (codec.format path q) ≡ record { path = path; query = q })
    (v : MetricViewQuery) (ctx : ParseContext) (mode : HistoryMode) (b : Browser Url) (k : String)
    → Safe (read_route codec b).path
    → IsObject (read_route codec b).query
    → IsViewFor ctx v
    → has metric_view_params k ≡ false
    → let after = set_metric_view_query codec v mode b in
      (parse_metric_view_query (read_route codec after).query ctx ≡ v)
      × ((read_route codec after).path ≡ (read_route codec b).path)
      × (map_get (read_route codec after).query k
          ≡ non_blank (map_get (read_route codec b).query k))
      × (after.back ≡ back_after mode b)
unfolding set_metric_view_query navigate_current_route
set_metric_view_query-parse codec Safe reads v ctx mode b k safe object (of_kind, in_ids, in_keys)
      other =
    let route = read_route codec b in
    let next = merge_route_query_with_metric_view route.query v in
    let to = url_of codec route.path next in
    let read =
      ap codec.parse_route (href-navigate codec to mode b)
      ∙ reads route.path (present next) safe
          (present-IsObject next (merged-IsObject route.query object v)) in
    let same_key : map_get (present next) k ≡ non_blank (map_get route.query k) =
      let old = map_get route.query k in
      let cleared : (if has metric_view_params k then none else old) ≡ old = rw other refl in
      merged-get route.query object v k
      ∙ ap non_blank (params-skip v.kind v.dp v.series k _ other ∙ cleared) in
    (
      ap (λ r. parse_metric_view_query r.query ctx) read
          ∙ parse-written route.query object ctx v.kind v.dp v.series of_kind in_ids in_keys,
      ap (λ r. r.path) read,
      ap (λ r. map_get r.query k) read ∙ same_key,
      back-navigate codec to mode b,
    )
