-- ===== src/Route/Router.antt =====
-- route/router.ts and route/query-params.ts: the query of a URL, and the writes to the history. How
-- a URL is written as a string and read back is the browser's: a parameter, `UrlCodec`.
use package.text.Mathlib.TextEquality.{eq_iff}
use otel_desktop_viewer.Prelude.{
  ◌≡◌, refl, ◌∙◌, ap, String, Text, codes, same, has, false, Bool-cases, inl, inr, if◌then◌else◌,
  List, [], ◌∷◌, Option, none, some, map_get, map_set, map_get-set, has_key, IsObject, get-absent,
  map_set-IsObject, arith,
}

-- A JavaScript object that maps strings to strings.
abbrev pub RouteQuery : Type 0
RouteQuery = List (String × String)

pub record Route : Type 0 where
  pub path : Text
  pub query : RouteQuery

pub data SignalName : Type 0 where
  traces : SignalName
  metrics : SignalName
  logs : SignalName

pub data HistoryMode : Type 0 where
  push : HistoryMode
  replace : HistoryMode

abbrev pub signal_path : SignalName → Text
signal_path traces = codes "/traces"
signal_path metrics = codes "/metrics"
signal_path logs = codes "/logs"

abbrev pub metric_view_params : List String
metric_view_params = "agg" ∷ "htab" ∷ "hscope" ∷ "dp" ∷ "series" ∷ []

abbrev pub signal_item_query_params : List String
signal_item_query_params = "span" ∷ "event" ∷ metric_view_params

-- `delete next[param]`
unfoldable pub without_key : RouteQuery → String → RouteQuery
without_key [] k = []
without_key ((j, v) ∷ q) k = if same j k then without_key q k else (j, v) ∷ without_key q k

-- A value that is missing, null or empty clears the key.
abbrev pub patch_key : RouteQuery → String → Option String → RouteQuery
patch_key q name none = without_key q name
patch_key q name (some v) = if same v "" then without_key q name else map_set q name v

unfoldable pub with_query_patch : RouteQuery → List (String × Option String) → RouteQuery
with_query_patch q [] = q
with_query_patch q ((name, value) ∷ patch) = with_query_patch (patch_key q name value) patch

unfoldable pub without_params : RouteQuery → List String → RouteQuery
without_params q [] = q
without_params q (param ∷ params) = without_params (without_key q param) params

-- The entries that `buildSearch` writes.
unfoldable pub present : RouteQuery → RouteQuery
present [] = []
present ((k, v) ∷ q) = if same v "" then present q else (k, v) ∷ present q

-- The browser's URLs: the one with a path and the search parameters, and what `parseRoute` reads of
-- one.
pub record UrlCodec {ℓ} (Url : Type ℓ) : Type ℓ where
  pub format : Text → RouteQuery → Url
  pub parse_route : Url → Route

-- The entry of the history that is shown, and those that "back" returns to.
pub record Browser {ℓ} (Url : Type ℓ) : Type ℓ where
  pub href : Url
  pub back : List Url

module _ {ℓ} {Url : Type ℓ} (codec : UrlCodec Url) where
  -- `path + buildSearch(query)`
  abbrev pub url_of : Text → RouteQuery → Url
  url_of path query = codec.format path (present query)

  abbrev pub read_route : Browser Url → Route
  read_route b = codec.parse_route b.href

  abbrev pub navigate : Url → HistoryMode → Browser Url → Browser Url
  navigate to push b = record { href = to; back = b.href ∷ b.back }
  navigate to replace b = record { href = to; back = b.back }

  unfoldable pub navigate_current_route : RouteQuery → HistoryMode → Browser Url → Browser Url
  navigate_current_route query mode b = navigate (url_of (read_route b).path query) mode b

-- A patch is an object whose values may be missing.
unfoldable pub merge_item_query : RouteQuery → Option (List (String × Option String)) → RouteQuery
unfolding without_params with_query_patch
merge_item_query query none = without_params query signal_item_query_params
merge_item_query query (some patch) =
    with_query_patch (without_params query signal_item_query_params) patch

pub get-without_key :
    (q : RouteQuery) (k j : String)
    → map_get (without_key q k) j ≡ (if same k j then none else map_get q j)
unfolding without_key map_get
get-without_key [] k j = ground arith
get-without_key ((i, v) ∷ q) k j =
    ground (arith, eq_iff k j, eq_iff i k, eq_iff i j, get-without_key q k j)

pub get-without_params :
    (q : RouteQuery) (params : List String) (j : String)
    → map_get (without_params q params) j ≡ (if has params j then none else map_get q j)
unfolding without_params
get-without_params q [] j = refl
get-without_params q (p ∷ params) j =
    ground (arith, get-without_params (without_key q p) params j, get-without_key q p j)

-- What a patch leaves of a key that had the value `old`: the last entry for the key decides.
abbrev pub non_blank : Option String → Option String
non_blank none = none
non_blank (some v) = if same v "" then none else some v

abbrev pub patched : List (String × Option String) → String → Option String → Option String
patched [] j old = old
patched ((name, value) ∷ patch) j old =
    patched patch j (if same name j then non_blank value else old)

get-patch_key :
    (q : RouteQuery) (name : String) (value : Option String) (j : String)
    → map_get (patch_key q name value) j ≡ (if same name j then non_blank value else map_get q j)
get-patch_key q name none j = get-without_key q name j
get-patch_key q name (some v) j = ground (arith, get-without_key q name j, map_get-set q name j v)

pub get-with_query_patch :
    (q : RouteQuery) (patch : List (String × Option String)) (j : String)
    → map_get (with_query_patch q patch) j ≡ patched patch j (map_get q j)
unfolding with_query_patch
get-with_query_patch q [] j = refl
get-with_query_patch q ((name, value) ∷ patch) j =
    get-with_query_patch (patch_key q name value) patch j
    ∙ ap (patched patch j) (get-patch_key q name value j)

pub get-present :
    (q : RouteQuery) (j : String) → IsObject q → map_get (present q) j ≡ non_blank (map_get q j)
unfolding present map_get
get-present [] j h = refl
get-present ((k, v) ∷ q) j (fresh, h) =
    ground (arith, get-present q j h, get-absent q k fresh, eq_iff k j)

has_key-without :
    (q : RouteQuery) (k j : String) → has_key q j ≡ false → has_key (without_key q k) j ≡ false
unfolding without_key
has_key-without [] k j h = refl
has_key-without ((i, v) ∷ q) k j h = ground (arith, has_key-without q k j)

without_key-IsObject : (q : RouteQuery) (k : String) → IsObject q → IsObject (without_key q k)
unfolding without_key
without_key-IsObject [] k h = tt
without_key-IsObject ((j, v) ∷ q) k (fresh, h) = elim (Bool-cases (same j k)) [
  | inl e ↦ rw e (without_key-IsObject q k h)
  | inr e ↦ rw e (has_key-without q k j fresh, without_key-IsObject q k h)
]

pub without_params-IsObject :
    (q : RouteQuery) (params : List String) → IsObject q → IsObject (without_params q params)
unfolding without_params
without_params-IsObject q [] h = h
without_params-IsObject q (p ∷ params) h =
    without_params-IsObject (without_key q p) params (without_key-IsObject q p h)

patch_key-IsObject :
    (q : RouteQuery) (name : String) (value : Option String)
    → IsObject q
    → IsObject (patch_key q name value)
patch_key-IsObject q name none h = without_key-IsObject q name h
patch_key-IsObject q name (some v) h = elim (Bool-cases (same v "")) [
  | inl e ↦ rw e (without_key-IsObject q name h)
  | inr e ↦ rw e (map_set-IsObject q name v h)
]

pub with_query_patch-IsObject :
    (q : RouteQuery) (patch : List (String × Option String))
    → IsObject q
    → IsObject (with_query_patch q patch)
unfolding with_query_patch
with_query_patch-IsObject q [] h = h
with_query_patch-IsObject q ((name, value) ∷ patch) h =
    with_query_patch-IsObject (patch_key q name value) patch (patch_key-IsObject q name value h)

has_key-present :
    (q : RouteQuery) (j : String) → has_key q j ≡ false → has_key (present q) j ≡ false
unfolding present
has_key-present [] j h = refl
has_key-present ((k, v) ∷ q) j h = ground (arith, has_key-present q j)

pub present-IsObject : (q : RouteQuery) → IsObject q → IsObject (present q)
unfolding present
present-IsObject [] h = tt
present-IsObject ((k, v) ∷ q) (fresh, h) = elim (Bool-cases (same v "")) [
  | inl e ↦ rw e (present-IsObject q h)
  | inr e ↦ rw e (has_key-present q k fresh, present-IsObject q h)
]

-- The entries that "back" returns to after a write.
abbrev pub back_after {ℓ} : {Url : Type ℓ} → HistoryMode → Browser Url → List Url
back_after push b = b.href ∷ b.back
back_after replace b = b.back

module _ {ℓ} {Url : Type ℓ} (codec : UrlCodec Url) (to : Url) where
  pub href-navigate : (mode : HistoryMode) (b : Browser Url) → (navigate codec to mode b).href ≡ to
  href-navigate push b = refl
  href-navigate replace b = refl

  pub back-navigate :
      (mode : HistoryMode) (b : Browser Url) → (navigate codec to mode b).back ≡ back_after mode b
  back-navigate push b = refl
  back-navigate replace b = refl
