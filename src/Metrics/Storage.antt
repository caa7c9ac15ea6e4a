-- ===== src/Metrics/Storage.antt =====
-- `localStorage` as components/metrics/utils/metric-timeseries-visible.ts uses it. A stored text is
-- kept as what `JSON.parse` makes of it, as far as the code looks at that.
use Prim.Native.String
use otel_desktop_viewer.Prelude.{String, Bool, List, Option, none, some, map_get}

-- A field of a parsed object: a text, a Boolean, an array with the texts among its elements, or
-- anything else.
pub data Value : Type 0 where
  string : String → Value
  flag : Bool → Value
  array : List (Option String) → Value
  something : Value

-- A stored text: one that is no object (or empty), one that does not parse, or an object.
pub data Raw : Type 0 where
  scalar : String → Raw
  unparsable : Raw
  object : List (String × Value) → Raw

abbrev pub Storage : Type 0
Storage = List (String × Raw)

abbrev pub storage_prefix : String
storage_prefix = "metrics:view:"

abbrev pub storage_version_key : String
storage_version_key = "metrics:view:storage-version"

unfoldable pub metric_view_storage_key : String → String
metric_view_storage_key metric_stream_id = String.◌++◌ storage_prefix metric_stream_id

-- `localStorage.getItem` and `JSON.parse`: the object, if there is one.
abbrev pub object_of : Option Raw → Option (List (String × Value))
object_of none = none
object_of (some (scalar s)) = none
object_of (some unparsable) = none
object_of (some (object fields)) = some fields

unfoldable pub read_object : Storage → String → Option (List (String × Value))
read_object s key = object_of (map_get s key)
