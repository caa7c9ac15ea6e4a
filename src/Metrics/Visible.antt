-- ===== src/Metrics/Visible.antt =====
-- components/metrics/utils/metric-timeseries-visible.ts: the view of a metric that is kept between
-- visits, and the series that are drawn.
use text.Mathlib.Text.{starts_with}
use otel_desktop_viewer.Prelude.{
  ℕ, String, same, has, Bool, true, false, ◌&&◌, not, if◌then◌else◌, List, [], ◌∷◌, ◌++◌, any,
  keep_if, take, map, Option, none, some, map_get, map_set, map_delete,
}
use otel_desktop_viewer.Metrics.Storage.{
  Value, string, flag, array, something, Raw, scalar, unparsable, object, Storage, storage_prefix,
  storage_version_key, metric_view_storage_key, read_object,
}

pub data AggregationView : Type 0 where
  raw sum avg rate : AggregationView

abbrev pub max_visible_timeseries : ℕ
max_visible_timeseries = 22

abbrev pub default_visible_timeseries : ℕ
default_visible_timeseries = 10

pub record PersistedMetricView : Type 0 where
  pub visible_keys : List String
  pub aggregation_view : Option AggregationView
  pub show_all_series_aggregate : Option Bool
  pub show_all_series_quantile_aggregate : Option Bool

abbrev pub view_name : AggregationView → String
view_name raw = "raw"
view_name sum = "sum"
view_name avg = "avg"
view_name rate = "rate"

-- A member of `VALID_AGGREGATION_VIEWS`.
abbrev pub view_named : String → Option AggregationView
view_named s =
    if same s "raw"
    then some raw
    else if same s "sum"
    then some sum
    else if same s "avg"
    then some avg
    else if same s "rate"
    then some rate
    else none

abbrev pub view_of : Option Value → Option AggregationView
view_of (some (string s)) = view_named s
view_of (some (flag b)) = none
view_of (some (array ks)) = none
view_of (some something) = none
view_of none = none

abbrev pub flag_of : Option Value → Option Bool
flag_of (some (flag b)) = some b
flag_of (some (string s)) = none
flag_of (some (array ks)) = none
flag_of (some something) = none
flag_of none = none

-- `keysRaw.filter(k => typeof k === 'string')`
abbrev pub strings : List (Option String) → List String
strings [] = []
strings (none ∷ ks) = strings ks
strings (some k ∷ ks) = k ∷ strings ks

-- Nothing is loaded unless `visibleKeys` is an array.
abbrev pub view_from : List (String × Value) → Option Value → Option PersistedMetricView
view_from obj (some (array keys)) = some (record {
  visible_keys = strings keys;
  aggregation_view = view_of (map_get obj "aggregationView");
  show_all_series_aggregate = flag_of (map_get obj "showAllSeriesAggregate");
  show_all_series_quantile_aggregate = flag_of (map_get obj "showAllSeriesQuantileAggregate");
})
view_from obj (some (string s)) = none
view_from obj (some (flag b)) = none
view_from obj (some something) = none
view_from obj none = none

abbrev pub view_from_object : Option (List (String × Value)) → Option PersistedMetricView
view_from_object none = none
view_from_object (some obj) = view_from obj (map_get obj "visibleKeys")

unfoldable pub load_persisted_view : Storage → String → Option PersistedMetricView
load_persisted_view s id = view_from_object (read_object s (metric_view_storage_key id))

abbrev pub when_true : String → Option Bool → List (String × Value)
when_true name (some true) = (name, flag true) ∷ []
when_true name (some false) = []
when_true name none = []

abbrev pub view_field : Option AggregationView → List (String × Value)
view_field none = []
view_field (some v) = ("aggregationView", string (view_name v)) ∷ []

-- The object that `serializePersistedView` writes.
unfoldable pub serialize_persisted_view : PersistedMetricView → List (String × Value)
serialize_persisted_view view =
    ("visibleKeys", array (map some view.visible_keys))
    ∷ (view_field view.aggregation_view
        ++ (when_true "showAllSeriesAggregate" view.show_all_series_aggregate
            ++ when_true "showAllSeriesQuantileAggregate" view.show_all_series_quantile_aggregate))

unfoldable pub write_persisted_view : String → PersistedMetricView → Storage → Storage
write_persisted_view id view s =
    map_set s (metric_view_storage_key id) (object (serialize_persisted_view view))

-- A patch: `none` stands for a property that the patch does not have.
pub record Patch : Type 0 where
  pub visible_keys : Option (List String)
  pub aggregation_view : Option (Option AggregationView)
  pub show_all_series_aggregate : Option (Option Bool)
  pub show_all_series_quantile_aggregate : Option (Option Bool)

abbrev pub patched {ℓ} : {A : Type ℓ} → Option A → A → A
patched none old = old
patched (some new) old = new

-- What `existing?.…` gives, an empty view without one.
abbrev pub or_empty_view : Option PersistedMetricView → PersistedMetricView
or_empty_view none = record {
  visible_keys = [];
  aggregation_view = none;
  show_all_series_aggregate = none;
  show_all_series_quantile_aggregate = none;
}
or_empty_view (some view) = view

unfoldable pub merge_persisted_view : Option PersistedMetricView → Patch → PersistedMetricView
merge_persisted_view existing patch =
    let old = or_empty_view existing in
    record {
      visible_keys = patched patch.visible_keys old.visible_keys;
      aggregation_view = patched patch.aggregation_view old.aggregation_view;
      show_all_series_aggregate =
          patched patch.show_all_series_aggregate old.show_all_series_aggregate;
      show_all_series_quantile_aggregate =
          patched patch.show_all_series_quantile_aggregate old.show_all_series_quantile_aggregate;
    }

-- Read, merge and write: the body that the four savers share.
abbrev pub save_patch : String → Patch → Storage → Storage
save_patch id patch s =
    write_persisted_view id (merge_persisted_view (load_persisted_view s id) patch) s

abbrev pub keys_patch : List String → Patch
keys_patch keys = record {
  visible_keys = some keys;
  aggregation_view = none;
  show_all_series_aggregate = none;
  show_all_series_quantile_aggregate = none;
}

unfoldable pub save_persisted_timeseries_visible : String → List String → Storage → Storage
save_persisted_timeseries_visible id keys s = save_patch id (keys_patch keys) s

-- `existing?.visibleKeys ?? []`
abbrev pub kept_keys : Storage → String → List String
kept_keys s id = (or_empty_view (load_persisted_view s id)).visible_keys

unfoldable pub save_persisted_aggregation_view : String → AggregationView → Storage → Storage
save_persisted_aggregation_view id view s =
    let patch = keys_patch (kept_keys s id) in
    save_patch id (record patch { aggregation_view = some (some view) }) s

unfoldable pub save_persisted_show_all_series_aggregate : String → Bool → Storage → Storage
save_persisted_show_all_series_aggregate id shown s =
    let patch = keys_patch (kept_keys s id) in
    save_patch id (record patch { show_all_series_aggregate = some (some shown) }) s

unfoldable pub save_persisted_show_all_series_quantile_aggregate : String → Bool → Storage → Storage
save_persisted_show_all_series_quantile_aggregate id shown s =
    let patch = keys_patch (kept_keys s id) in
    save_patch id (record patch { show_all_series_quantile_aggregate = some (some shown) }) s

abbrev pub is_some_true : Option Bool → Bool
is_some_true none = false
is_some_true (some b) = b

unfoldable pub load_persisted_show_all_series_aggregate : Storage → String → Bool
load_persisted_show_all_series_aggregate s id =
    is_some_true (or_empty_view (load_persisted_view s id)).show_all_series_aggregate

unfoldable pub load_persisted_show_all_series_quantile_aggregate : Storage → String → Bool
load_persisted_show_all_series_quantile_aggregate s id =
    is_some_true (or_empty_view (load_persisted_view s id)).show_all_series_quantile_aggregate

abbrev pub allowed_view : List AggregationView → Option AggregationView → Option AggregationView
allowed_view allowed none = none
allowed_view allowed (some v) =
    if any (λ a. same (view_name a) (view_name v)) allowed then some v else none

unfoldable pub load_persisted_aggregation_view :
    Storage → String → List AggregationView → Option AggregationView
load_persisted_aggregation_view s id allowed =
    allowed_view allowed (or_empty_view (load_persisted_view s id)).aggregation_view

abbrev pub keys_of : Option PersistedMetricView → Option (List String)
keys_of none = none
keys_of (some view) = some view.visible_keys

unfoldable pub persisted_visible_keys : Storage → String → Option (List String)
persisted_visible_keys s id = keys_of (load_persisted_view s id)

-- `maxChecked === null ? kept : kept.slice(0, maxChecked)`
abbrev pub capped : Option ℕ → List String → List String
capped none kept = kept
capped (some limit) kept = take limit kept

abbrev pub resolve_from : Option (List String) → List String → ℕ → Option ℕ → List String
resolve_from none current_keys initial_visible max_checked = take initial_visible current_keys
resolve_from (some persisted) current_keys initial_visible max_checked =
    capped max_checked (keep_if (has current_keys) persisted)

unfoldable pub resolve_timeseries_visible :
    Storage → List String → String → ℕ → Option ℕ → List String
resolve_timeseries_visible s current_keys id initial_visible max_checked =
    resolve_from (persisted_visible_keys s id) current_keys initial_visible max_checked

-- `if (capped.length > 0 || !hadStale) return capped`, and otherwise the series drawn afresh.
abbrev pub or_fresh : List String → Bool → List String → List String
or_fresh (k ∷ ks) had_stale fresh = k ∷ ks
or_fresh [] had_stale fresh = if had_stale then fresh else []

-- `visible` in its order of insertion.
unfoldable pub reconcile_timeseries_visible :
    Storage → List String → List String → String → Option ℕ → List String
reconcile_timeseries_visible s visible current_keys id max_checked =
    or_fresh (capped max_checked (keep_if (has current_keys) visible))
      (any (λ k. not (has current_keys k)) visible)
      (resolve_timeseries_visible s current_keys id default_visible_timeseries max_checked)

-- What the repair makes of one entry: an empty list of keys goes, and an entry with nothing else.
abbrev pub repair_object : List (String × Value) → Option Value → Option Raw
repair_object obj (some (array [])) = elim (map_delete obj "visibleKeys") [
  | [] ↦ none
  | f ∷ fs ↦ some (object (f ∷ fs))
]
repair_object obj (some (array (k ∷ ks))) = some (object obj)
repair_object obj (some (string s)) = some (object obj)
repair_object obj (some (flag b)) = some (object obj)
repair_object obj (some something) = some (object obj)
repair_object obj none = some (object obj)

abbrev pub repair_raw : Raw → Option Raw
repair_raw (scalar s) = some (scalar s)
repair_raw unparsable = some unparsable
repair_raw (object obj) = repair_object obj (map_get obj "visibleKeys")

abbrev pub keep_entry : String → Option Raw → Storage → Storage
keep_entry key none rest = rest
keep_entry key (some r) rest = (key, r) ∷ rest

unfoldable pub repair_entries : Storage → Storage
repair_entries [] = []
repair_entries ((key, r) ∷ s) =
    if starts_with key storage_prefix && not (same key storage_version_key)
    then keep_entry key (repair_raw r) (repair_entries s)
    else (key, r) ∷ repair_entries s

abbrev pub is_version_1 : Option Raw → Bool
is_version_1 (some (scalar s)) = same s "1"
is_version_1 (some unparsable) = false
is_version_1 (some (object obj)) = false
is_version_1 none = false

unfoldable pub repair_empty_persisted_visible_keys : Storage → Storage
unfolding repair_entries
repair_empty_persisted_visible_keys s =
    if is_version_1 (map_get s storage_version_key)
    then s
    else map_set (repair_entries s) storage_version_key (scalar "1")
