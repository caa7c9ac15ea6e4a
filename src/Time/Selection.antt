-- ===== src/Time/Selection.antt =====
-- contexts/time-context.svelte.ts: the selected window and its range. How a number is written as a
-- string and read back is the language's: parameters.
use otel_desktop_viewer.Prelude.{
  ℕ, zero, String, same, Bool, true, false, if◌then◌else◌, Option, none, some, map_get,
}
use otel_desktop_viewer.Prelude.Int.{ℤ, pos, same_ℤ, ◌-ℤ◌}
use otel_desktop_viewer.Route.Router.{RouteQuery}

pub record Range : Type 0 where
  pub start : ℤ
  pub end : ℤ

pub data SelectionType : Type 0 where
  preset : SelectionType
  custom : SelectionType
  recent : SelectionType

-- The variant, with the index that a preset has.
pub data SelectionKind : Type 0 where
  preset_kind : ℕ → SelectionKind
  custom_kind : SelectionKind
  recent_kind : SelectionKind

pub record TimeSelection : Type 0 where
  pub range : Range
  pub kind : SelectionKind

pub data Timezone : Type 0 where
  local : Timezone
  utc : Timezone

abbrev range_at : SelectionKind → Range → ℤ → Range
range_at (preset_kind i) r now = record { start = now -ℤ (r.end -ℤ r.start); end = now }
range_at custom_kind r now = r
range_at recent_kind r now = r

unfoldable pub selection_to_query_range_ms : TimeSelection → ℤ → Range
selection_to_query_range_ms selection now = range_at selection.kind selection.range now

abbrev pub default_preset_index_all : ℕ
default_preset_index_all = 0

abbrev is_all : SelectionKind → Bool
is_all (preset_kind zero) = true
is_all (preset_kind i) = false
is_all custom_kind = false
is_all recent_kind = false

unfoldable pub is_default_unbounded_window : TimeSelection → Bool
is_default_unbounded_window selection =
    if is_all selection.kind then true else same_ℤ selection.range.start (pos 0)

abbrev or_default : Option ℕ → ℕ
or_default none = default_preset_index_all
or_default (some i) = i

abbrev pub kind_of : SelectionType → Option ℕ → SelectionKind
kind_of preset index = preset_kind (or_default index)
kind_of custom index = custom_kind
kind_of recent index = recent_kind

unfoldable pub time_selection_from_args : Range → SelectionType → Option ℕ → TimeSelection
time_selection_from_args range type index = record { range = range; kind = kind_of type index }

-- The string in the local storage: missing or empty, no JSON, or a selection.
pub data SavedSelection : Type 0 where
  missing : SavedSelection
  unparsable : SavedSelection
  saved : Range → SelectionType → Option ℕ → SavedSelection

unfoldable pub load_time_selection : SavedSelection → ℤ → TimeSelection
unfolding time_selection_from_args
load_time_selection missing now =
    time_selection_from_args (record { start = pos 0; end = now }) preset none
load_time_selection unparsable now =
    time_selection_from_args (record { start = pos 0; end = now }) preset none
load_time_selection (saved range type index) now = time_selection_from_args range type index

-- A time zone that is saved, `local` for any other text.
abbrev pub timezone_of : Option String → Timezone
timezone_of none = local
timezone_of (some value) = if same value "UTC" then utc else local

-- `Number(query.start)`, none for a value that is missing, empty or not finite.
abbrev pub bound : (String → Option ℤ) → Option String → Option ℤ
bound number none = none
bound number (some v) = if same v "" then none else number v

abbrev range_of : Option ℤ → Option ℤ → Option Range
range_of (some start) (some end) = some (record { start = start; end = end })
range_of (some start) none = none
range_of none end = none

unfoldable pub parse_time_query : (String → Option ℤ) → RouteQuery → Option Range
parse_time_query number query =
    range_of (bound number (map_get query "start")) (bound number (map_get query "end"))

-- `===` on both bounds.
abbrev pub same_range : Range → Range → Bool
same_range a b = if same_ℤ a.start b.start then same_ℤ a.end b.end else false
