-- ===== src/Time/Window.antt =====
-- contexts/time-context.svelte.ts: `createTimeContext`, and the URL beside it.
mod Snapshot
pub mod Agreement
use otel_desktop_viewer.Prelude.{
  IsObject, ℕ, ◌≡◌, refl, ap, ◌∙◌, String, Text, same, Bool, true, false, Bool-cases, inl, inr,
  if◌then◌else◌, List, [], ◌∷◌, Option, none, some, map_get, arith,
}
use otel_desktop_viewer.Prelude.Int.{ℤ, same_ℤ_refl, same_ℤ_sound}
use otel_desktop_viewer.Route.Router.{
  RouteQuery, Route, HistoryMode, replace, UrlCodec, Browser, read_route, navigate_current_route,
  with_query_patch, present, non_blank, patched, get-with_query_patch, get-present,
  present-IsObject, with_query_patch-IsObject,
}
use otel_desktop_viewer.Time.Recents.{RecentTimeRange, record_recent_time_range}
use otel_desktop_viewer.Time.Selection.{
  Range, SelectionType, custom, TimeSelection, Timezone, SavedSelection, saved,
  selection_to_query_range_ms, time_selection_from_args, load_time_selection, timezone_of,
  parse_time_query, same_range,
}

pub record TimeContext : Type 0 where
  pub selection : TimeSelection
  pub tz : Timezone
  pub url_window_snapshot : Option Range

-- What the local storage has of the context.
pub record TimeStorage : Type 0 where
  pub time_selection : SavedSelection
  pub recents : List RecentTimeRange

abbrev pub first_selection : Option Range → SavedSelection → ℤ → TimeSelection
first_selection none s now = load_time_selection s now
first_selection (some r) s now = time_selection_from_args r custom none

-- The URL comes before the storage, the storage before the default.
unfoldable pub create_time_context : Option Range → SavedSelection → Option String → ℤ → TimeContext
unfolding load_time_selection
create_time_context url_time saved_selection saved_tz now = record {
  selection = first_selection url_time saved_selection now;
  tz = timezone_of saved_tz;
  url_window_snapshot = url_time;
}

abbrev pub is_snapshot : Option Range → Range → Bool
is_snapshot none r = false
is_snapshot (some s) r = same_range r s

abbrev pub adopt : Option Range → TimeContext → TimeContext
adopt none ctx = ctx
adopt (some r) ctx = if is_snapshot ctx.url_window_snapshot r then ctx else record ctx {
  url_window_snapshot = some r;
  selection = time_selection_from_args r custom none;
}

unfoldable pub set_tz : Timezone → TimeContext → TimeContext
set_tz tz ctx = record ctx { tz = tz }

module _ {ℓ} {Url : Type ℓ} (codec : UrlCodec Url) (text : ℤ → String)
    (number : String → Option ℤ) where
  -- The listener of the effect.
  unfoldable pub on_route_change : TimeContext → Browser Url → TimeContext
  unfolding parse_time_query
  on_route_change ctx b = adopt (parse_time_query number (read_route codec b).query) ctx

  abbrev pub window_patch : Range → List (String × Option String)
  window_patch range = ("start", some (text range.start)) ∷ ("end", some (text range.end)) ∷ []

  -- The write of the URL, which `syncUrl` makes before the listeners run.
  unfoldable pub write_window : Range → Browser Url → Browser Url
  unfolding with_query_patch navigate_current_route
  write_window range b =
      navigate_current_route codec
        (with_query_patch (read_route codec b).query (window_patch range)) replace b

  unfoldable pub sync_url : ℤ → TimeContext → Browser Url → TimeContext × Browser Url
  unfolding write_window on_route_change selection_to_query_range_ms
  sync_url now ctx b =
      let range = selection_to_query_range_ms ctx.selection now in
      let after = write_window range b in
      (on_route_change (record ctx { url_window_snapshot = some range }) after, after)

  unfoldable pub save_selection : Range → SelectionType → Option ℕ → ℕ → TimeStorage → TimeStorage
  unfolding record_recent_time_range
  save_selection range type index now s = record {
    time_selection = saved range type index;
    recents = record_recent_time_range range.start range.end now s.recents;
  }

  unfoldable pub set_selection :
      Range → SelectionType → Option ℕ → ℤ → TimeContext → Browser Url → TimeContext × Browser Url
  unfolding sync_url time_selection_from_args
  set_selection range type index now ctx b =
      sync_url now (record ctx { selection = time_selection_from_args range type index }) b
