-- ===== src/Metrics/Persistence.antt =====
-- components/metrics/utils/metric-timeseries-visible.ts: what a visit reads of what an earlier one
-- wrote, and the repair of the entries that an old bug emptied.
use package.text.Mathlib.TextEquality.{eq_iff}
use otel_desktop_viewer.Prelude.{
  ◌≡◌, refl, ap, ◌∙◌, ◌++◌, String, same, Bool, true, false, List, [], ◌∷◌, map, Option, none, some,
  map_get, map_set, map_get-set, arith, Bool-cases, inl, inr,
}
use otel_desktop_viewer.Metrics.Storage.{
  Value, scalar, object, Storage, storage_version_key, metric_view_storage_key, read_object,
}
use otel_desktop_viewer.Metrics.Visible.{
  AggregationView, raw, sum, avg, rate, PersistedMetricView, view_of, flag_of, strings,
  view_from_object, load_persisted_view, when_true, view_field, serialize_persisted_view,
  write_persisted_view, or_empty_view, merge_persisted_view, keys_patch,
  save_persisted_timeseries_visible, kept_keys, save_persisted_aggregation_view, is_some_true,
  load_persisted_show_all_series_aggregate, load_persisted_show_all_series_quantile_aggregate,
  keys_of, persisted_visible_keys, repair_entries, is_version_1,
  repair_empty_persisted_visible_keys,
}

strings-map : (ks : List String) → strings (map some ks) ≡ ks
strings-map [] = refl
strings-map (k ∷ ks) = ap (λ js. k ∷ js) (strings-map ks)

-- A flag is written when it is set.
abbrev pub written_flag : Option Bool → Option Bool
written_flag (some true) = some true
written_flag (some false) = none
written_flag none = none

-- A view as it is read back.
abbrev pub written_view : PersistedMetricView → PersistedMetricView
written_view view = record view {
  show_all_series_aggregate = written_flag view.show_all_series_aggregate;
  show_all_series_quantile_aggregate = written_flag view.show_all_series_quantile_aggregate;
}

when_true-skip :
    (name k : String) (f : Option Bool) (m : List (String × Value))
    → same name k ≡ false
    → map_get (when_true name f ++ m) k ≡ map_get m k
unfolding map_get
when_true-skip name k none m h = refl
when_true-skip name k (some false) m h = refl
when_true-skip name k (some true) m h = rw h

view_of-get :
    (v : Option AggregationView) (m : List (String × Value))
    → map_get m "aggregationView" ≡ none
    → view_of (map_get (view_field v ++ m) "aggregationView") ≡ v
unfolding map_get
view_of-get none m h = rw h
view_of-get (some raw) m h = refl
view_of-get (some sum) m h = refl
view_of-get (some avg) m h = refl
view_of-get (some rate) m h = refl

view_field-skip :
    (k : String) (v : Option AggregationView) (m : List (String × Value))
    → same "aggregationView" k ≡ false
    → map_get (view_field v ++ m) k ≡ map_get m k
unfolding map_get
view_field-skip k none m h = refl
view_field-skip k (some v) m h = rw h

flag_of-get :
    (name : String) (f : Option Bool) (m : List (String × Value))
    → same name name ≡ true
    → map_get m name ≡ none
    → flag_of (map_get (when_true name f ++ m) name) ≡ written_flag f
unfolding map_get
flag_of-get name none m r h = rw h
flag_of-get name (some false) m r h = rw h
flag_of-get name (some true) m r h = rw r

last-get :
    (name k : String) (f : Option Bool) → same name k ≡ false → map_get (when_true name f) k ≡ none
unfolding map_get
last-get name k none h = refl
last-get name k (some false) h = refl
last-get name k (some true) h = rw h

last_flag :
    (name : String) (f : Option Bool)
    → same name name ≡ true
    → flag_of (map_get (when_true name f) name) ≡ written_flag f
unfolding map_get
last_flag name none r = refl
last_flag name (some false) r = refl
last_flag name (some true) r = rw r

-- What is read from the object that a view was written as.
view_from_object-serialize :
    (view : PersistedMetricView)
    → view_from_object (some (serialize_persisted_view view)) ≡ some (written_view view)
unfolding serialize_persisted_view map_get
view_from_object-serialize view =
    let a = view.show_all_series_aggregate in
    let q = view.show_all_series_quantile_aggregate in
    let quantiles = when_true "showAllSeriesQuantileAggregate" q in
    let flags = when_true "showAllSeriesAggregate" a ++ quantiles in
    let e1 =
      view_of-get view.aggregation_view flags
        (when_true-skip _ _ a quantiles refl ∙ last-get _ _ q refl) in
    let e2 = view_field-skip "showAllSeriesAggregate" view.aggregation_view flags refl in
    let e3 = flag_of-get "showAllSeriesAggregate" a quantiles refl (last-get _ _ q refl) in
    let e4 = view_field-skip "showAllSeriesQuantileAggregate" view.aggregation_view flags refl in
    let e5 =
      when_true-skip "showAllSeriesAggregate" "showAllSeriesQuantileAggregate" a quantiles refl in
    let e6 = last_flag "showAllSeriesQuantileAggregate" q refl in
    rw (strings-map view.visible_keys, e1, e2, e3, e4, e5, e6)

-- A view that is written is the view that is loaded next, with the flags that are not set left out.
pub load_persisted_view-write :
    (id : String) (view : PersistedMetricView) (s : Storage)
    → load_persisted_view (write_persisted_view id view s) id ≡ some (written_view view)
unfolding load_persisted_view write_persisted_view read_object
load_persisted_view-write id view s =
    let key = metric_view_storage_key id in
    let got = map_get-set s key key (object (serialize_persisted_view view)) in
    let here : map_get (write_persisted_view id view s) key
        ≡ some (object (serialize_persisted_view view)) =
      ground (arith, got, eq_iff key key) in
    rw (here, view_from_object-serialize view)

written_flag-is_true : (f : Option Bool) → is_some_true (written_flag f) ≡ is_some_true f
written_flag-is_true none = refl
written_flag-is_true (some true) = refl
written_flag-is_true (some false) = refl

-- Saving the series that are drawn makes them the ones that the next visit reads, an empty list
-- included, and leaves the aggregation and the two flags of the metric as they were.
pub save_persisted_timeseries_visible-keeps :
    (id : String) (keys : List String) (s : Storage)
    → let after = save_persisted_timeseries_visible id keys s in
      (persisted_visible_keys after id ≡ some keys)
      × ((or_empty_view (load_persisted_view after id)).aggregation_view
          ≡ (or_empty_view (load_persisted_view s id)).aggregation_view)
      × (load_persisted_show_all_series_aggregate after id
          ≡ load_persisted_show_all_series_aggregate s id)
      × (load_persisted_show_all_series_quantile_aggregate after id
          ≡ load_persisted_show_all_series_quantile_aggregate s id)
unfolding save_persisted_timeseries_visible persisted_visible_keys merge_persisted_view
    load_persisted_show_all_series_aggregate load_persisted_show_all_series_quantile_aggregate
save_persisted_timeseries_visible-keeps id keys s =
    let old = load_persisted_view s id in
    let read = load_persisted_view-write id (merge_persisted_view old (keys_patch keys)) s in
    (
      rw read,
      rw read,
      rw (read, written_flag-is_true (or_empty_view old).show_all_series_aggregate),
      rw (read, written_flag-is_true (or_empty_view old).show_all_series_quantile_aggregate),
    )

abbrev pub or_none_drawn : Option (List String) → List String
or_none_drawn none = []
or_none_drawn (some keys) = keys

visible_keys-or_none :
    (o : Option PersistedMetricView) → (or_empty_view o).visible_keys ≡ or_none_drawn (keys_of o)
visible_keys-or_none none = refl
visible_keys-or_none (some view) = refl

-- Saving the aggregation makes it the one that the next visit reads, and keeps the two flags. A list
-- of series that was saved is kept, and a metric without one gets an empty list, which is then read
-- as one that was saved.
pub save_persisted_aggregation_view-keeps :
    (id : String) (view : AggregationView) (s : Storage)
    → let after = save_persisted_aggregation_view id view s in
      ((or_empty_view (load_persisted_view after id)).aggregation_view ≡ some view)
      × (persisted_visible_keys after id ≡ some (or_none_drawn (persisted_visible_keys s id)))
      × (load_persisted_show_all_series_aggregate after id
          ≡ load_persisted_show_all_series_aggregate s id)
      × (load_persisted_show_all_series_quantile_aggregate after id
          ≡ load_persisted_show_all_series_quantile_aggregate s id)
unfolding save_persisted_aggregation_view persisted_visible_keys merge_persisted_view
    load_persisted_show_all_series_aggregate load_persisted_show_all_series_quantile_aggregate
save_persisted_aggregation_view-keeps id view s =
    let old = load_persisted_view s id in
    let patch = record (keys_patch (kept_keys s id)) { aggregation_view = some (some view) } in
    let read = load_persisted_view-write id (merge_persisted_view old patch) s in
    (
      rw read,
      rw read (ap some (visible_keys-or_none old)),
      rw (read, written_flag-is_true (or_empty_view old).show_all_series_aggregate),
      rw (read, written_flag-is_true (or_empty_view old).show_all_series_quantile_aggregate),
    )

-- The repair marks the storage: running it again changes nothing.
pub repair_empty_persisted_visible_keys_idempotent :
    (s : Storage)
    → repair_empty_persisted_visible_keys (repair_empty_persisted_visible_keys s)
      ≡ repair_empty_persisted_visible_keys s
unfolding repair_empty_persisted_visible_keys
repair_empty_persisted_visible_keys_idempotent s =
    elim (Bool-cases (is_version_1 (map_get s storage_version_key))) [
      | inl t ↦ rw (t, t)
      | inr f ↦
          let marked : map_get (map_set (repair_entries s) storage_version_key (scalar "1"))
                storage_version_key
              ≡ some (scalar "1") =
            map_get-set (repair_entries s) storage_version_key storage_version_key (scalar "1") in
          rw (f, marked)
    ]
