-- ===== src/Metrics/SeriesView/Painted.antt =====
-- contexts/metric-view-context.svelte.ts: the colours of the series, whatever the reader does.
use package.text.Mathlib.TextEquality.{eq_iff}
use otel_desktop_viewer.Prelude.{
  ℕ, max, length, ◌≡◌, refl, sym, ap, ◌∙◌, ◌&&◌, String, same, has, Bool, true, false, Bool-cases,
  inl, inr, List, [], ◌∷◌, Option, none, some, map_delete, add_key, remove_key, has-add_key,
  has-remove_key, has_key, arith,
}
use otel_desktop_viewer.Metrics.Visible.{max_visible_timeseries}
use otel_desktop_viewer.Metrics.Palette.{Palette, colors_of}
use otel_desktop_viewer.Metrics.Colors.{
  Colors, colors_in, keep_visible, AreDistinct, AreShown, IsPainted, acquire_color, release_color,
  sync_color_assignments, acquire_color-IsPainted, acquire_each-IsPainted, keep_visible-IsPainted,
  seed_color_assignments-IsPainted,
}
use otel_desktop_viewer.Metrics.SeriesView.{
  SeriesView, all_assigned, visible_key_lists_equal, is_empty, next_visible, chart_colors,
  ensure_color_assignments, seed_gauge_sum, seed_histogram, adopt_visible, refresh_series,
  checked_with, toggle_timeseries_visible, clear_all_timeseries_visible, reveal_series,
}

-- The view's colours are those of series that are drawn, each its own.
abbrev pub Painted : SeriesView → Type 0
Painted v = IsPainted v.visible_series v.timeseries_color_by_key

AreShown-more :
    (visible more : List String) (m : Colors)
    → ((k : String) → has visible k ≡ true → has more k ≡ true)
    → AreShown visible m
    → AreShown more m
AreShown-more visible more [] f h = tt
AreShown-more visible more ((k, c) ∷ m) f (h, s) = (f k h, AreShown-more visible more m f s)

add_key-more :
    (visible : List String) (key k : String)
    → has visible k ≡ true
    → has (add_key visible key) k ≡ true
add_key-more visible key k h = ground (arith, has-add_key visible key k)

add_key-IsPainted :
    (visible : List String) (key : String) (m : Colors)
    → IsPainted visible m
    → IsPainted (add_key visible key) m
add_key-IsPainted visible key m (d, s, o) =
    (d, AreShown-more visible (add_key visible key) m (add_key-more visible key) s, o)

checked_with-Painted :
    (pool : List String) (stream_id : Option String) (key : String) (v otherwise : SeriesView)
    → Painted v
    → Painted otherwise
    → Painted
        (checked_with stream_id key (acquire_color pool v.timeseries_color_by_key key) v otherwise)
checked_with-Painted pool stream_id key v otherwise p q =
    after (acquire_color pool v.timeseries_color_by_key key) (
      acquire_color-IsPainted pool (add_key v.visible_series key) v.timeseries_color_by_key key
        (add_key-IsPainted v.visible_series key v.timeseries_color_by_key p)
        (ground (arith, has-add_key v.visible_series key key, eq_iff key key)))
  where
    after :
        (r : Colors × Option String)
        → IsPainted (add_key v.visible_series key) r.0
        → Painted (checked_with stream_id key r v otherwise)
    after (m, none) painted = q
    after (m, some c) painted = painted

has-delete :
    (m : Colors) (k c : String)
    → has (colors_in m) c ≡ false
    → has (colors_in (map_delete m k)) c ≡ false
unfolding map_delete
has-delete [] k c h = refl
has-delete ((j, d) ∷ m) k c h = ground (arith, has-delete m k c)

has_key-delete :
    (m : Colors) (k j : String) → has_key m j ≡ false → has_key (map_delete m k) j ≡ false
unfolding map_delete
has_key-delete [] k j h = refl
has_key-delete ((i, d) ∷ m) k j h = ground (arith, has_key-delete m k j)

-- A series without a colour can go.
AreShown-remove :
    (visible : List String) (key : String) (m : Colors)
    → has_key m key ≡ false
    → AreShown visible m
    → AreShown (remove_key visible key) m
AreShown-remove visible key [] h s = tt
AreShown-remove visible key ((k, c) ∷ m) h (shown, s) = (
  ground (arith, has-remove_key visible key k, eq_iff key k, eq_iff k key),
  AreShown-remove visible key m (ground arith) s,
)

delete-IsPainted :
    (visible : List String) (key : String) (m : Colors)
    → IsPainted visible m
    → IsPainted (remove_key visible key) (map_delete m key)
unfolding map_delete
delete-IsPainted visible key [] p = p
delete-IsPainted visible key ((k, c) ∷ m) ((fresh, d), (shown, s), (once, o)) =
    let (d', s', o') = delete-IsPainted visible key m (d, s, o) in
    elim (Bool-cases (same k key)) [
      | inl t ↦
          let here : has_key m key ≡ false =
            ap (has_key m) (sym (ground (arith, eq_iff k key))) ∙ once in
          rw t (d, AreShown-remove visible key m here s, o)
      | inr f ↦
          let kept : has (remove_key visible key) k ≡ true =
            ground (arith, has-remove_key visible key k, eq_iff key k, eq_iff k key) in
          rw f ((has-delete m key c fresh, d'), (kept, s'), (has_key-delete m key k once, o'))
    ]

toggle_timeseries_visible-Painted :
    (palette : Palette) (is_histogram : Bool) (legend : ℕ) (stream_id : Option String)
    (key : String) (checked : Bool) (v : SeriesView)
    → Painted v
    → Painted (toggle_timeseries_visible palette is_histogram legend stream_id key checked v)
unfolding toggle_timeseries_visible release_color
toggle_timeseries_visible-Painted palette is_histogram legend stream_id key true v p =
    let grown = checked_with-Painted _ stream_id key v v p p in
    checked_with-Painted _ stream_id key v _ p
      (elim (Bool-cases is_histogram) [ inl t ↦ rw t grown | inr f ↦ rw f p ])
toggle_timeseries_visible-Painted palette is_histogram legend stream_id key false v p =
    delete-IsPainted v.visible_series key v.timeseries_color_by_key p

ensure_color_assignments-Painted :
    (pool visible legend : List String) (v : SeriesView)
    → visible ≡ v.visible_series
    → AreDistinct pool
    → Painted v
    → Painted (ensure_color_assignments pool visible legend v)
unfolding ensure_color_assignments
ensure_color_assignments-Painted pool [] legend v e d p = (tt, tt, tt)
ensure_color_assignments-Painted pool (k ∷ visible) legend v e d p =
    elim (Bool-cases (all_assigned v.timeseries_color_by_key (k ∷ visible))) [
      | inl t ↦ rw t p
      | inr f ↦
          let seeded = seed_color_assignments-IsPainted pool (k ∷ visible) legend d in
          rw (f, ← e) seeded
    ]

adopt_visible-Painted :
    (palette : Palette) (is_histogram : Bool) (next keys : List String) (v : SeriesView)
    → AreDistinct (chart_colors palette is_histogram (length keys) (length v.visible_series))
    → Painted v
    → Painted (adopt_visible palette is_histogram next keys v)
unfolding adopt_visible sync_color_assignments
adopt_visible-Painted palette is_histogram next keys v distinct p =
    elim (Bool-cases (visible_key_lists_equal v.visible_series next)) [
      | inl t ↦ rw t (ensure_color_assignments-Painted _ v.visible_series keys v refl distinct p)
      | inr f ↦ rw f (
          acquire_each-IsPainted _ next keys (keep_visible next v.timeseries_color_by_key)
            (keep_visible-IsPainted next v.timeseries_color_by_key p.0 p.2))
    ]

reveal_series-Painted : (key : String) (v : SeriesView) → Painted v → Painted (reveal_series key v)
unfolding reveal_series
reveal_series-Painted key v p = add_key-IsPainted v.visible_series key v.timeseries_color_by_key p

-- What the reader and the telemetry do to the series that are drawn. The palette is that of the
-- metric's type and of the theme at the time.
pub data Reaches (s : SeriesView) : SeriesView → Type 0 where
  open_gauge_sum :
      (palette : Palette) (stream_id : Option String) (keys : List String) (v : SeriesView)
      → AreDistinct (colors_of palette max_visible_timeseries)
      → Reaches s v
      → Reaches s (seed_gauge_sum palette stream_id keys v)
  open_histogram :
      (palette : Palette) (stream_id : Option String) (keys : List String) (v : SeriesView)
      → AreDistinct (colors_of palette (max (length keys) 1))
      → Reaches s v
      → Reaches s (seed_histogram palette stream_id keys v)
  refresh :
      (palette : Palette) (is_histogram : Bool) (stream_id : String) (keys : List String)
      (v : SeriesView)
      → AreDistinct (chart_colors palette is_histogram (length keys) (length v.visible_series))
      → Reaches s v
      → Reaches s (refresh_series palette is_histogram stream_id keys v)
  toggle :
      (palette : Palette) (is_histogram : Bool) (legend : ℕ) (stream_id : Option String)
      (key : String) (checked : Bool) (v : SeriesView)
      → Reaches s v
      → Reaches s (toggle_timeseries_visible palette is_histogram legend stream_id key checked v)
  clear_all :
      (stream_id : Option String) (v : SeriesView)
      → Reaches s v
      → Reaches s (clear_all_timeseries_visible stream_id v)
  reveal : (key : String) (v : SeriesView) → Reaches s v → Reaches s (reveal_series key v)
  stay : Reaches s s

refresh_series-Painted :
    (palette : Palette) (is_histogram : Bool) (stream_id : String) (keys : List String)
    (v : SeriesView)
    → AreDistinct (chart_colors palette is_histogram (length keys) (length v.visible_series))
    → Painted v
    → Painted (refresh_series palette is_histogram stream_id keys v)
unfolding refresh_series
refresh_series-Painted palette is_histogram stream_id keys v distinct p =
    elim (Bool-cases (is_histogram && is_empty keys)) [
      | inl t ↦ rw t p
      | inr f ↦ rw f (
          adopt_visible-Painted palette is_histogram (next_visible is_histogram stream_id keys v)
            keys v distinct p)
    ]

-- Whatever metrics are opened, refreshed, toggled, cleared and linked to, no two series have the same
-- colour and only series that are drawn have one, if that holds at first, and if the palette that a
-- metric is opened or refreshed with, of as many colours as are asked for there, has no colour twice.
pub Reaches-Painted : (s v : SeriesView) → Painted s → Reaches s v → Painted v
unfolding seed_gauge_sum seed_histogram clear_all_timeseries_visible
Reaches-Painted s v p (open_gauge_sum palette stream_id keys u distinct h) =
    seed_color_assignments-IsPainted _ _ keys distinct
Reaches-Painted s v p (open_histogram palette stream_id keys u distinct h) =
    seed_color_assignments-IsPainted _ _ keys distinct
Reaches-Painted s v p (refresh palette is_histogram stream_id keys u distinct h) =
    refresh_series-Painted palette is_histogram stream_id keys u distinct (Reaches-Painted s u p h)
Reaches-Painted s v p (toggle palette is_histogram legend stream_id key checked u h) =
    toggle_timeseries_visible-Painted palette is_histogram legend stream_id key checked u
      (Reaches-Painted s u p h)
Reaches-Painted s v p (clear_all stream_id u h) = (tt, tt, tt)
Reaches-Painted s v p (reveal key u h) = reveal_series-Painted key u (Reaches-Painted s u p h)
Reaches-Painted s v p stay = p
