-- ===== src/Time/Window/Snapshot.antt =====
-- contexts/time-context.svelte.ts: the window that was written to the URL last.
use otel_desktop_viewer.Prelude.{
  ◌≡◌, refl, sym, ap, ◌∙◌, String, true, false, Bool-cases, inl, inr, Option, none, some,
}
use otel_desktop_viewer.Prelude.Int.{ℤ, pos, same_ℤ, same_ℤ_refl, same_ℤ_sound}
use otel_desktop_viewer.Time.Selection.{
  Range, custom, SavedSelection, selection_to_query_range_ms, time_selection_from_args, same_range,
}
use otel_desktop_viewer.Time.Window.{TimeContext, create_time_context, is_snapshot, adopt}

pub same_range_refl : (r : Range) → same_range r r ≡ true
same_range_refl r = rw (same_ℤ_refl r.start, same_ℤ_refl r.end) refl

same_range_sound : (a b : Range) → same_range a b ≡ true → a ≡ b
same_range_sound a b h = elim (Bool-cases (same_ℤ a.start b.start)) [
  | inl e ↦
      let e2 : same_ℤ a.end b.end ≡ true = rw e at h in
      rw (same_ℤ_sound a.start b.start e, same_ℤ_sound a.end b.end e2) refl
  | inr f ↦ let no : false ≡ true = rw f at h in cc
]

pub adopt-snapshot :
    (r : Range) (ctx : TimeContext) → ctx.url_window_snapshot ≡ some r → adopt (some r) ctx ≡ ctx
adopt-snapshot r ctx h = rw (h, same_range_refl r) refl

-- The snapshot is the selection's range at some moment.
abbrev pub Frozen : TimeContext → Type 0
Frozen ctx =
    (s : Range)
    → ctx.url_window_snapshot ≡ some s
    → (now : ℤ) × (selection_to_query_range_ms ctx.selection now ≡ s)

pub some-eq : (r s : Range) → some r ≡ some s → r ≡ s
some-eq r s h = cc

-- A range from the URL is selected as it is.
custom-Frozen :
    (r s : Range)
    → some r ≡ some s
    → (now : ℤ) × (selection_to_query_range_ms (time_selection_from_args r custom none) now ≡ s)
unfolding selection_to_query_range_ms time_selection_from_args
custom-Frozen r s h = (pos 0, some-eq r s h)

pub create_time_context-Frozen :
    (o : Option Range) (kept : SavedSelection) (tz : Option String) (now : ℤ)
    → Frozen (create_time_context o kept tz now)
unfolding create_time_context
create_time_context-Frozen none kept tz now s h = cc
create_time_context-Frozen (some r) kept tz now s h = custom-Frozen r s h

pub adopt-Frozen : (o : Option Range) (ctx : TimeContext) → Frozen ctx → Frozen (adopt o ctx)
adopt-Frozen none ctx frozen s h = frozen s h
adopt-Frozen (some r) ctx frozen s h = elim (Bool-cases (is_snapshot ctx.url_window_snapshot r)) [
  | inl same_one ↦ rw same_one (frozen s (rw same_one at h))
  | inr other ↦ rw other (custom-Frozen r s (rw other at h))
]

is_snapshot-eq : (o : Option Range) (r : Range) → is_snapshot o r ≡ true → o ≡ some r
is_snapshot-eq none r h = cc
is_snapshot-eq (some s) r h = ap some (sym (same_range_sound r s h))

-- A window that the listener sees is the snapshot from then on.
pub adopt-seen :
    (o : Option Range) (ctx : TimeContext) (r : Range)
    → o ≡ some r
    → (adopt o ctx).url_window_snapshot ≡ some r
adopt-seen none ctx r h = cc
adopt-seen (some t) ctx r h = elim (Bool-cases (is_snapshot ctx.url_window_snapshot t)) [
  | inl same_one ↦ rw same_one (is_snapshot-eq ctx.url_window_snapshot t same_one ∙ h)
  | inr other ↦ rw other h
]

pub create_time_context-seen :
    (o : Option Range) (kept : SavedSelection) (tz : Option String) (now : ℤ)
    → (create_time_context o kept tz now).url_window_snapshot ≡ o
unfolding create_time_context
create_time_context-seen o kept tz now = refl
