-- ===== src/Metrics/Aggregation.antt =====
-- components/metrics/utils/aggregation.ts: the views and badges that a metric offers, and the labels of
-- the aggregate lines; the view that contexts/metric-view-context.svelte.ts seeds and corrects.
use otel_desktop_viewer.Prelude.{
  ℕ, ◌≡◌, ◌⊎◌, refl, ap, ◌∙◌, leb, String, same, Bool, true, false, not, ◌&&◌, ◌||◌, Bool-cases,
  inl, inr, if◌then◌else◌, List, [], ◌∷◌, ◌++◌, Option, none, some, any, arith,
}
use otel_desktop_viewer.Metrics.Storage.{Storage}
use otel_desktop_viewer.Metrics.Visible.{
  AggregationView, raw, sum, avg, rate, view_name, allowed_view, load_persisted_aggregation_view,
  save_persisted_aggregation_view,
}

-- `null` for the monotonicity that a metric does not report.
abbrev is_true : Option Bool → Bool
is_true none = false
is_true (some b) = b

abbrev pub is_cumulative_temporality : String → Bool
is_cumulative_temporality temporality = same temporality "Cumulative"

abbrev is_rateable : String → String → Option Bool → Bool
is_rateable metric_type temporality is_monotonic =
    same metric_type "Sum" && (is_cumulative_temporality temporality && is_true is_monotonic)

unfoldable pub default_aggregation_view_for : String → String → Option Bool → ℕ → AggregationView
default_aggregation_view_for metric_type temporality is_monotonic series_count =
    if is_rateable metric_type temporality is_monotonic then rate else raw

-- `includes`
abbrev same_view : AggregationView → AggregationView → Bool
same_view a b = same (view_name a) (view_name b)

abbrev pub includes : List AggregationView → AggregationView → Bool
includes views v = any (λ w. same_view w v) views

unfoldable pub available_aggregation_views :
    String → String → Option Bool → ℕ → List AggregationView
available_aggregation_views metric_type temporality is_monotonic series_count =
    let several =
      if leb 2 series_count
      then (if same metric_type "Sum" then sum ∷ avg ∷ [] else avg ∷ [])
      else [] in
    let rated = if is_rateable metric_type temporality is_monotonic then rate ∷ [] else [] in
    if same metric_type "Sum" || same metric_type "Gauge"
    then raw ∷ (several ++ rated)
    else raw ∷ []

-- The view that `seedForMetric` gives a metric, before the URL is applied.
abbrev pub or_clamped :
    Option AggregationView → List AggregationView → AggregationView → AggregationView
or_clamped (some v) views default = v
or_clamped none views default = if includes views default then default else raw

abbrev pub persisted_for : Option String → Storage → List AggregationView → Option AggregationView
persisted_for none s views = none
persisted_for (some id) s views = load_persisted_aggregation_view s id views

unfoldable pub seed_aggregation_view :
    Option String → Storage → String → String → Option Bool → ℕ → AggregationView
unfolding available_aggregation_views default_aggregation_view_for
seed_aggregation_view stream_id s metric_type temporality is_monotonic series_count =
    let views = available_aggregation_views metric_type temporality is_monotonic series_count in
    or_clamped (persisted_for stream_id s views) views
      (default_aggregation_view_for metric_type temporality is_monotonic series_count)

abbrev save_view_for : Option String → AggregationView → Storage → Storage
save_view_for none v s = s
save_view_for (some id) v s = save_persisted_aggregation_view id v s

-- The effect that corrects a view which is not offered any more, and saves it.
unfoldable pub coerce_aggregation_view :
    Option String
    → AggregationView
    → String
    → String
    → Option Bool
    → ℕ
    → Storage
    → AggregationView × Storage
unfolding available_aggregation_views default_aggregation_view_for
coerce_aggregation_view stream_id v metric_type temporality is_monotonic series_count s =
    let next = default_aggregation_view_for metric_type temporality is_monotonic series_count in
    if includes (available_aggregation_views metric_type temporality is_monotonic series_count) v
    then (v, s)
    else (next, save_view_for stream_id next s)

pub data SeriesStat : Type 0 where
  min_stat max_stat avg_stat total_stat : SeriesStat

abbrev pub available_series_stat_badges : String → String → AggregationView → List SeriesStat
available_series_stat_badges metric_type temporality view =
    min_stat
    ∷ max_stat
    ∷ ((if not (same_view view rate) then avg_stat ∷ [] else [])
        ++ (if same metric_type "Sum" && (same temporality "Delta" && same_view view raw)
            then total_stat ∷ []
            else []))

abbrev pub available_rate_slope_overlay : String → String → Option Bool → AggregationView → Bool
available_rate_slope_overlay metric_type temporality is_monotonic view =
    is_rateable metric_type temporality is_monotonic && same_view view rate

offers : Bool → Bool → Bool → Bool → List AggregationView
offers summed gauged several rated =
    if summed || gauged
    then raw
      ∷ ((if several then (if summed then sum ∷ avg ∷ [] else avg ∷ []) else [])
          ++ (if rated then rate ∷ [] else []))
    else raw ∷ []

offers-rate : (gauged several : Bool) → includes (offers true gauged several true) rate ≡ true
unfolding offers
offers-rate gauged true = refl
offers-rate gauged false = refl

offers-raw :
    (summed gauged several rated : Bool) → includes (offers summed gauged several rated) raw ≡ true
unfolding offers
offers-raw true gauged several rated = refl
offers-raw false true several rated = refl
offers-raw false false several rated = refl

default-offers :
    (summed gauged several rated : Bool)
    → (rated ≡ true → summed ≡ true)
    → includes (offers summed gauged several rated) (if rated then rate else raw) ≡ true
default-offers true gauged several true h = offers-rate gauged several
default-offers false gauged several true h = let e : false ≡ true = h refl in cc
default-offers summed gauged several false h = offers-raw summed gauged several false

module _ (metric_type temporality : String) (is_monotonic : Option Bool) (series_count : ℕ) where
  abbrev views : List AggregationView
  views = available_aggregation_views metric_type temporality is_monotonic series_count

  default-offered :
      includes views
        (default_aggregation_view_for metric_type temporality is_monotonic series_count)
      ≡ true
  unfolding available_aggregation_views default_aggregation_view_for offers
  default-offered =
      default-offers (same metric_type "Sum") (same metric_type "Gauge") (leb 2 series_count)
        (is_rateable metric_type temporality is_monotonic) (λ h. ground arith)

  raw-offered : includes views raw ≡ true
  unfolding available_aggregation_views offers
  raw-offered =
      offers-raw (same metric_type "Sum") (same metric_type "Gauge") (leb 2 series_count)
        (is_rateable metric_type temporality is_monotonic)

or_clamped-offered :
    (o : Option AggregationView) (vs : List AggregationView) (default : AggregationView)
    → includes vs raw ≡ true
    → ((v : AggregationView) → o ≡ some v → includes vs v ≡ true)
    → includes vs (or_clamped o vs default) ≡ true
or_clamped-offered (some v) vs default plain saved = saved v refl
or_clamped-offered none vs default plain saved = elim (Bool-cases (includes vs default)) [
  | inl t ↦ rw t t
  | inr f ↦ rw f plain
]

some-view : (w v : AggregationView) → some w ≡ some v → v ≡ w
some-view w v h = cc

allowed_view-offered :
    (vs : List AggregationView) (o : Option AggregationView) (v : AggregationView)
    → allowed_view vs o ≡ some v
    → includes vs v ≡ true
allowed_view-offered vs none v h = cc
allowed_view-offered vs (some w) v h = elim (Bool-cases (includes vs w)) [
  | inl t ↦ let e : some w ≡ some v = rw t at h in ap (includes vs) (some-view w v e) ∙ t
  | inr f ↦ let e : none ≡ some v = rw f at h in cc
]

persisted_for-offered :
    (stream_id : Option String) (s : Storage) (vs : List AggregationView) (v : AggregationView)
    → persisted_for stream_id s vs ≡ some v
    → includes vs v ≡ true
unfolding load_persisted_aggregation_view
persisted_for-offered none s vs v h = cc
persisted_for-offered (some id) s vs v h = allowed_view-offered vs _ v h

-- For every metric and whatever was saved, the view that is seeded is one that the metric's menu
-- offers, and so is the view after the correction, which keeps a view that is offered and saves
-- nothing then.
pub seed_aggregation_view-offered :
    (stream_id : Option String) (s : Storage) (metric_type temporality : String)
    (is_monotonic : Option Bool) (series_count : ℕ) (v : AggregationView)
    → let offered = available_aggregation_views metric_type temporality is_monotonic series_count in
      let seeded =
        seed_aggregation_view stream_id s metric_type temporality is_monotonic series_count in
      let corrected =
        coerce_aggregation_view stream_id v metric_type temporality is_monotonic series_count s in
      (includes offered seeded ≡ true)
      × (includes offered corrected.0 ≡ true)
      × ((includes offered v ≡ false) ⊎ (corrected ≡ (v, s)))
unfolding seed_aggregation_view coerce_aggregation_view
seed_aggregation_view-offered stream_id s metric_type temporality is_monotonic series_count v =
    let vs = views metric_type temporality is_monotonic series_count in
    let plain = raw-offered metric_type temporality is_monotonic series_count in
    let seeded =
      or_clamped-offered (persisted_for stream_id s vs) vs
        (default_aggregation_view_for metric_type temporality is_monotonic series_count) plain
        (persisted_for-offered stream_id s vs) in
    elim (Bool-cases (includes vs v)) [
      | inl t ↦ (seeded, rw t t, rw t (inr refl))
      | inr f ↦
          (seeded, rw f (default-offered metric_type temporality is_monotonic series_count), inl f)
    ]
