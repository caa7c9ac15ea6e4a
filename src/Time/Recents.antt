-- ===== src/Time/Recents.antt =====
-- utils/time.ts: the time ranges that were used last, as they are kept in the local storage.
pub mod Newest
use otel_desktop_viewer.Prelude.{
  ℕ, ltb, Bool, false, ◌&&◌, ◌||◌, if◌then◌else◌, List, [], ◌∷◌, length, take,
}
use otel_desktop_viewer.Prelude.Int.{ℤ, same_ℤ}

pub record RecentTimeRange : Type 0 where
  pub start : ℤ
  pub end : ℤ
  pub used_at : ℕ

abbrev pub max_recent_time_ranges : ℕ
max_recent_time_ranges = 5

-- `sort((a, b) => b.usedAt - a.usedAt)`, which keeps the order of equals.
unfoldable pub insert_range : RecentTimeRange → List RecentTimeRange → List RecentTimeRange
insert_range r [] = r ∷ []
insert_range r (s ∷ rs) = if ltb r.used_at s.used_at then s ∷ insert_range r rs else r ∷ s ∷ rs

unfoldable pub sort_ranges : List RecentTimeRange → List RecentTimeRange
unfolding insert_range
sort_ranges [] = []
sort_ranges (r ∷ rs) = insert_range r (sort_ranges rs)

-- The ranges, and the list that is stored then. The list is empty when the entry is missing or is no
-- list.
unfoldable pub load_recent_time_ranges :
    List RecentTimeRange → List RecentTimeRange × List RecentTimeRange
unfolding sort_ranges
load_recent_time_ranges rows =
    let trimmed = take max_recent_time_ranges (sort_ranges rows) in
    (trimmed, if ltb (length trimmed) (length rows) then trimmed else rows)

abbrev pub is_window : ℤ → ℤ → RecentTimeRange → Bool
is_window start end r = same_ℤ r.start start && same_ℤ r.end end

abbrev pub has_window : ℤ → ℤ → List RecentTimeRange → Bool
has_window start end [] = false
has_window start end (r ∷ rs) = is_window start end r || has_window start end rs

-- The first range with these bounds is used again.
unfoldable pub bump : ℤ → ℤ → ℕ → List RecentTimeRange → List RecentTimeRange
bump start end used_at [] = []
bump start end used_at (r ∷ rs) =
    if is_window start end r
    then record r { used_at = used_at } ∷ rs
    else r ∷ bump start end used_at rs

unfoldable pub record_recent_time_range : ℤ → ℤ → ℕ → List RecentTimeRange → List RecentTimeRange
unfolding load_recent_time_ranges bump sort_ranges
record_recent_time_range start end used_at rows =
    let ranges = (load_recent_time_ranges rows).0 in
    let entry : RecentTimeRange = record { start = start; end = end; used_at = used_at } in
    take max_recent_time_ranges (
      sort_ranges
        (if has_window start end ranges then bump start end used_at ranges else entry ∷ ranges))
