-- ===== src/Time/Recents/Newest.antt =====
-- utils/time.ts: the order and the number of the ranges that are kept.
use otel_desktop_viewer.Prelude.{
  ℕ, zero, suc, ◌≤◌, ◌<◌, ◌≡◌, refl, ltb, true, false, Bool-cases, inl, inr, if◌then◌else◌, List,
  [], ◌∷◌, length, length-take, take, get_elem?, All, some, arith,
}
use otel_desktop_viewer.Prelude.Int.{ℤ, same_ℤ, same_ℤ_sound}
use otel_desktop_viewer.Time.Recents.{
  RecentTimeRange, max_recent_time_ranges, insert_range, sort_ranges, load_recent_time_ranges,
  is_window, has_window, bump, record_recent_time_range,
}

abbrev pub AllBefore : ℕ → List RecentTimeRange → Type 0
AllBefore now rows = All (λ r. r.used_at < now) rows

abbrev AllUpTo : ℕ → List RecentTimeRange → Type 0
AllUpTo now rows = All (λ r. r.used_at ≤ now) rows

-- Each range was used no later than the one before it.
abbrev pub IsNewestFirst : List RecentTimeRange → Type 0
IsNewestFirst [] = Unit
IsNewestFirst (r ∷ rs) = AllUpTo r.used_at rs × IsNewestFirst rs

take-All :
    (P : RecentTimeRange → Type 0) (n : ℕ) (rs : List RecentTimeRange)
    → All P rs
    → All P (take n rs)
take-All P zero rs h = tt
take-All P (suc n) [] h = tt
take-All P (suc n) (r ∷ rs) (h, hs) = (h, take-All P n rs hs)

take-IsNewestFirst :
    (n : ℕ) (rs : List RecentTimeRange) → IsNewestFirst rs → IsNewestFirst (take n rs)
take-IsNewestFirst zero rs h = tt
take-IsNewestFirst (suc n) [] h = tt
take-IsNewestFirst (suc n) (r ∷ rs) (h, hs) =
    (take-All (λ s. s.used_at ≤ r.used_at) n rs h, take-IsNewestFirst n rs hs)

insert_range-All :
    (P : RecentTimeRange → Type 0) (r : RecentTimeRange) (rs : List RecentTimeRange)
    → P r
    → All P rs
    → All P (insert_range r rs)
unfolding insert_range
insert_range-All P r [] h hs = (h, tt)
insert_range-All P r (s ∷ rs) h (g, hs) = elim (Bool-cases (ltb r.used_at s.used_at)) [
  | inl t ↦ rw t (g, insert_range-All P r rs h hs)
  | inr f ↦ rw f (h, (g, hs))
]

sort_ranges-All :
    (P : RecentTimeRange → Type 0) (rs : List RecentTimeRange) → All P rs → All P (sort_ranges rs)
unfolding sort_ranges
sort_ranges-All P [] h = tt
sort_ranges-All P (r ∷ rs) (h, hs) =
    insert_range-All P r (sort_ranges rs) h (sort_ranges-All P rs hs)

AllUpTo-more : (a b : ℕ) (rs : List RecentTimeRange) → a ≤ b → AllUpTo a rs → AllUpTo b rs
AllUpTo-more a b [] h hs = tt
AllUpTo-more a b (r ∷ rs) h (g, hs) = (omega arith, AllUpTo-more a b rs h hs)

insert_range-IsNewestFirst :
    (r : RecentTimeRange) (rs : List RecentTimeRange)
    → IsNewestFirst rs
    → IsNewestFirst (insert_range r rs)
unfolding insert_range
insert_range-IsNewestFirst r [] h = (tt, tt)
insert_range-IsNewestFirst r (s ∷ rs) (h, hs) = elim (Bool-cases (ltb r.used_at s.used_at)) [
  | inl t ↦
      let before : r.used_at ≤ s.used_at = ground arith in
      rw t (
        insert_range-All (λ x. x.used_at ≤ s.used_at) r rs before h,
        insert_range-IsNewestFirst r rs hs,
      )
  | inr f ↦
      let after : s.used_at ≤ r.used_at = ground arith in
      rw f ((after, AllUpTo-more s.used_at r.used_at rs after h), (h, hs))
]

sort_ranges-IsNewestFirst : (rs : List RecentTimeRange) → IsNewestFirst (sort_ranges rs)
unfolding sort_ranges
sort_ranges-IsNewestFirst [] = tt
sort_ranges-IsNewestFirst (r ∷ rs) =
    insert_range-IsNewestFirst r (sort_ranges rs) (sort_ranges-IsNewestFirst rs)

-- The range that is used now, in front of the others.
abbrev Leads : RecentTimeRange → List RecentTimeRange → Type 0
Leads r rows = (rest : List RecentTimeRange) × (rows ≡ r ∷ rest)

insert_range-Leads :
    (r : RecentTimeRange) (rs : List RecentTimeRange)
    → AllBefore r.used_at rs
    → Leads r (insert_range r rs)
unfolding insert_range
insert_range-Leads r [] h = ([], refl)
insert_range-Leads r (s ∷ rs) (h, hs) =
    let f : ltb r.used_at s.used_at ≡ false = ground arith in (s ∷ rs, rw f refl)

insert_range-behind :
    (r s : RecentTimeRange) (rows : List RecentTimeRange)
    → r.used_at < s.used_at
    → Leads s rows
    → Leads s (insert_range r rows)
unfolding insert_range
insert_range-behind r s rows h (rest, e) =
    let t : ltb r.used_at s.used_at ≡ true = ground arith in (insert_range r rest, rw (e, t) refl)

module _ (start end : ℤ) (now : ℕ) where
  abbrev pub entry : RecentTimeRange
  entry = record { start = start; end = end; used_at = now }

  bumped : (r : RecentTimeRange) → is_window start end r ≡ true → record r { used_at = now } ≡ entry
  bumped r h =
      let s : same_ℤ r.start start ≡ true = ground arith in
      let e : same_ℤ r.end end ≡ true = ground arith in
      rw (same_ℤ_sound r.start start s, same_ℤ_sound r.end end e) refl

  sort_ranges-bump :
      (rs : List RecentTimeRange)
      → AllBefore now rs
      → has_window start end rs ≡ true
      → Leads entry (sort_ranges (bump start end now rs))
  unfolding sort_ranges bump
  sort_ranges-bump [] h t = cc
  sort_ranges-bump (r ∷ rs) (h, hs) t = elim (Bool-cases (is_window start end r)) [
    | inl here ↦
        rw (here, bumped r here)
          (insert_range-Leads entry (sort_ranges rs) (sort_ranges-All (λ s. s.used_at < now) rs hs))
    | inr other ↦
        rw other (insert_range-behind r entry _ h (sort_ranges-bump rs hs (rw other at t)))
  ]

  sort_ranges-recorded :
      (rs : List RecentTimeRange)
      → AllBefore now rs
      → Leads entry
          (sort_ranges (if has_window start end rs then bump start end now rs else entry ∷ rs))
  unfolding sort_ranges
  sort_ranges-recorded rs h = elim (Bool-cases (has_window start end rs)) [
    | inl t ↦ rw t (sort_ranges-bump rs h t)
    | inr f ↦
        rw f
          (insert_range-Leads entry (sort_ranges rs) (sort_ranges-All (λ s. s.used_at < now) rs h))
  ]

take-Leads :
    (r : RecentTimeRange) (n : ℕ) (rows : List RecentTimeRange)
    → Leads r rows
    → get_elem? (take (suc n) rows) 0 ≡ some r
take-Leads r n rows (rest, e) = rw e refl

-- A range that is used is the first of those that are kept, whether it was there before or not; they
-- are in the order of their last use, and no more than five. It is used later than what was stored.
pub record_recent_time_range-newest :
    (start end : ℤ) (now : ℕ) (rows : List RecentTimeRange)
    → AllBefore now rows
    → let after = record_recent_time_range start end now rows in
      (get_elem? after 0 ≡ some (record { start = start; end = end; used_at = now }))
      × IsNewestFirst after
      × (length after ≤ max_recent_time_ranges)
unfolding record_recent_time_range load_recent_time_ranges
record_recent_time_range-newest start end now rows h =
    let ranges = take max_recent_time_ranges (sort_ranges rows) in
    let before =
      take-All (λ r. r.used_at < now) max_recent_time_ranges (sort_ranges rows)
        (sort_ranges-All (λ r. r.used_at < now) rows h) in
    let mixed =
      if has_window start end ranges
      then bump start end now ranges
      else entry start end now ∷ ranges in
    (
      take-Leads (entry start end now) 4 (sort_ranges mixed)
          (sort_ranges-recorded start end now ranges before),
      take-IsNewestFirst max_recent_time_ranges (sort_ranges mixed)
          (sort_ranges-IsNewestFirst mixed),
      omega (arith, length-take max_recent_time_ranges (sort_ranges mixed)),
    )
