-- ===== src/Route/Item.antt =====
-- route/router.ts: the item of a signal that a path selects, and the
-- navigation to it. `encodeURIComponent` and `decodeURIComponent` are the browser's: parameters.
use otel_desktop_viewer.Prelude.{
  IsObject, ℕ, ◌≢◌, ◌==◌, ◌≡◌, refl, ap, ◌∙◌, String, Text, has, Bool, false, ◌||◌, if◌then◌else◌,
  List, [], ◌∷◌, ◌++◌, Option, none, some, map_get, arith,
}
use otel_desktop_viewer.Route.Router.{
  RouteQuery, SignalName, HistoryMode, signal_path, signal_item_query_params, UrlCodec, Browser,
  url_of, read_route, navigate, merge_item_query, with_query_patch, without_params, present,
  non_blank, patched, get-with_query_patch, get-without_params, get-present, present-IsObject,
  back_after, href-navigate, back-navigate, with_query_patch-IsObject, without_params-IsObject,
}

-- `null`, an id, or the exception of `decodeURIComponent`.
pub data PathId : Type 0 where
  no_id : PathId
  id_of : Text → PathId
  malformed : PathId

-- `path.startsWith(prefix)` and the rest behind it.
unfoldable pub strip_prefix : Text → Text → Option Text
strip_prefix [] s = some s
strip_prefix (c ∷ prefix) [] = none
strip_prefix (c ∷ prefix) (d ∷ s) = if c == d then strip_prefix prefix s else none

-- The code unit of "/".
abbrev slash : ℕ
slash = 47

-- `split('/')[0]`
unfoldable pub first_segment : Text → Text
first_segment [] = []
first_segment (c ∷ s) = if c == slash then [] else c ∷ first_segment s

abbrev decoded : Option Text → PathId
decoded none = malformed
decoded (some id) = id_of id

abbrev segment_id : (Text → Option Text) → Text → PathId
segment_id decode [] = no_id
segment_id decode (c ∷ s) = decoded (decode (c ∷ s))

abbrev rest_id : (Text → Option Text) → Option Text → PathId
rest_id decode none = no_id
rest_id decode (some rest) = segment_id decode (first_segment rest)

unfoldable pub signal_id_from_path : (Text → Option Text) → SignalName → Text → PathId
unfolding first_segment strip_prefix
signal_id_from_path decode signal path =
    rest_id decode (strip_prefix (signal_path signal ++ slash ∷ []) path)

-- `id ? ... : base`
unfoldable pub item_path : (Text → Text) → SignalName → Option Text → Text
item_path encode signal none = signal_path signal
item_path encode signal (some []) = signal_path signal
item_path encode signal (some (c ∷ id)) = signal_path signal ++ slash ∷ encode (c ∷ id)

module _ {ℓ} {Url : Type ℓ} (codec : UrlCodec Url) (encode : Text → Text) where
  unfoldable pub navigate_to_item :
      SignalName
      → Option Text
      → HistoryMode
      → Option (List (String × Option String))
      → Browser Url
      → Browser Url
  unfolding merge_item_query item_path
  navigate_to_item signal id mode item_query b =
      let query = merge_item_query (read_route codec b).query item_query in
      navigate codec (url_of codec (item_path encode signal id) query) mode b

  unfoldable pub navigate_to_signal : SignalName → HistoryMode → Browser Url → Browser Url
  unfolding navigate_to_item
  navigate_to_signal signal mode b = navigate_to_item signal none mode none b

strip_prefix-rest :
    (prefix s : Text) → strip_prefix (prefix ++ slash ∷ []) (prefix ++ slash ∷ s) ≡ some s
unfolding strip_prefix
strip_prefix-rest [] s = refl
strip_prefix-rest (c ∷ prefix) s = ground (arith, strip_prefix-rest prefix s)

strip_prefix-itself : (prefix : Text) → strip_prefix (prefix ++ slash ∷ []) prefix ≡ none
unfolding strip_prefix
strip_prefix-itself [] = refl
strip_prefix-itself (c ∷ prefix) = ground (arith, strip_prefix-itself prefix)

abbrev pub has_slash : Text → Bool
has_slash [] = false
has_slash (c ∷ s) = (c == slash) || has_slash s

first_segment-whole : (s : Text) → has_slash s ≡ false → first_segment s ≡ s
unfolding first_segment
first_segment-whole [] h = refl
first_segment-whole (c ∷ s) h = ground (arith, first_segment-whole s)

-- An id as the code reads it back: an empty one is none.
abbrev pub read_id : Option Text → PathId
read_id none = no_id
read_id (some []) = no_id
read_id (some (c ∷ id)) = id_of (c ∷ id)

-- What `encodeURIComponent` promises of an id.
abbrev pub IsEncoded : (Text → Text) → (Text → Option Text) → Option Text → Type 0
IsEncoded encode decode none = Unit
IsEncoded encode decode (some id) =
    (decode (encode id) ≡ some id) × (has_slash (encode id) ≡ false) × (encode id ≢ [])

segment_id-encoded :
    (decode : Text → Option Text) (s id : Text)
    → s ≢ []
    → decode s ≡ some id
    → segment_id decode s ≡ id_of id
segment_id-encoded decode [] id n h = absurd (n refl)
segment_id-encoded decode (c ∷ s) id n h = rw h

signal_id_from_path-item_path :
    (encode : Text → Text) (decode : Text → Option Text) (signal : SignalName) (id : Option Text)
    → IsEncoded encode decode id
    → signal_id_from_path decode signal (item_path encode signal id) ≡ read_id id
unfolding signal_id_from_path item_path
signal_id_from_path-item_path encode decode signal none h =
    rw (strip_prefix-itself (signal_path signal))
signal_id_from_path-item_path encode decode signal (some []) h =
    rw (strip_prefix-itself (signal_path signal))
signal_id_from_path-item_path encode decode signal (some (c ∷ id)) (back, plain, full) =
    let s = encode (c ∷ id) in
    rw (strip_prefix-rest (signal_path signal) s, first_segment-whole s plain)
      (segment_id-encoded decode s (c ∷ id) full back)

abbrev pub patch_of : Option (List (String × Option String)) → List (String × Option String)
patch_of none = []
patch_of (some patch) = patch

-- A key of the query in the URL that `navigate_to_item` writes.
abbrev pub item_value : RouteQuery → Option (List (String × Option String)) → String → Option String
item_value query item_query k = non_blank (
    patched (patch_of item_query) k
      (if has signal_item_query_params k then none else map_get query k))

merge_item_query-get :
    (query : RouteQuery) (item_query : Option (List (String × Option String))) (k : String)
    → IsObject query
    → map_get (present (merge_item_query query item_query)) k ≡ item_value query item_query k
unfolding merge_item_query
merge_item_query-get query none k h =
    let kept = without_params query signal_item_query_params in
    get-present kept k (without_params-IsObject query signal_item_query_params h)
    ∙ ap non_blank (get-without_params query signal_item_query_params k)
merge_item_query-get query (some patch) k h =
    let kept = without_params query signal_item_query_params in
    get-present (with_query_patch kept patch) k (
      with_query_patch-IsObject kept patch
        (without_params-IsObject query signal_item_query_params h))
    ∙ ap non_blank (
        get-with_query_patch kept patch k
        ∙ ap (patched patch k) (get-without_params query signal_item_query_params k))

merge_item_query-IsObject :
    (query : RouteQuery) (item_query : Option (List (String × Option String)))
    → IsObject query
    → IsObject (merge_item_query query item_query)
unfolding merge_item_query
merge_item_query-IsObject query none h = without_params-IsObject query signal_item_query_params h
merge_item_query-IsObject query (some patch) h =
    with_query_patch-IsObject (without_params query signal_item_query_params) patch
      (without_params-IsObject query signal_item_query_params h)

-- After the navigation to an item the path selects that item, and none for the bare list; the
-- parameters that belong to the item before are those of the patch alone, every other parameter
-- that is not empty is kept; and the history has grown by one entry when it was pushed and by none
-- when it was replaced. The browser reads a URL with a safe path as it was written, and decodes the
-- segment that it encoded.
pub navigate_to_item-read {ℓ} :
    {Url : Type ℓ} (codec : UrlCodec Url) (encode : Text → Text) (decode : Text → Option Text)
    (Safe : Text → Type 0)
    (reads : (path : Text) (q : RouteQuery)
      → Safe path
      → IsObject q
      → codec.parse_route (codec.format path q) ≡ record { path = path; query = q })
    (signal : SignalName) (id : Option Text) (mode : HistoryMode)
    (item_query : Option (List (String × Option String))) (b : Browser Url) (k : String)
    → Safe (item_path encode signal id)
    → IsEncoded encode decode id
    → IsObject (read_route codec b).query
    → let after = navigate_to_item codec encode signal id mode item_query b in
      (signal_id_from_path decode signal (read_route codec after).path ≡ read_id id)
      × (map_get (read_route codec after).query k
          ≡ item_value (read_route codec b).query item_query k)
      × (after.back ≡ back_after mode b)
unfolding navigate_to_item
navigate_to_item-read codec encode decode Safe reads signal id mode item_query b k safe coded
      object =
    let query = (read_route codec b).query in
    let next = merge_item_query query item_query in
    let path = item_path encode signal id in
    let written =
      reads path (present next) safe
        (present-IsObject next (merge_item_query-IsObject query item_query object)) in
    let selected = signal_id_from_path-item_path encode decode signal id coded in
    let kept = merge_item_query-get query item_query k object in
    let to = url_of codec path next in
    let read = ap codec.parse_route (href-navigate codec to mode b) ∙ written in
    (
      ap (λ r. signal_id_from_path decode signal r.path) read ∙ selected,
      ap (λ r. map_get r.query k) read ∙ kept,
      back-navigate codec to mode b,
    )
