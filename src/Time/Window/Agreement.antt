-- ===== src/Time/Window/Agreement.antt =====
-- contexts/time-context.svelte.ts: the window in the URL and the selected one.
use otel_desktop_viewer.Prelude.{
  IsObject, ℕ, ◌≡◌, refl, sym, ap, ◌∙◌, String, Text, same, false, Option, some, map_get,
}
use otel_desktop_viewer.Prelude.Int.{ℤ}
use otel_desktop_viewer.Route.Router.{
  RouteQuery, UrlCodec, Browser, read_route, navigate_current_route, with_query_patch, present,
  non_blank, patched, get-with_query_patch, get-present, present-IsObject,
  with_query_patch-IsObject,
}
use otel_desktop_viewer.Time.Selection.{
  Range, SelectionType, SavedSelection, Timezone, selection_to_query_range_ms,
  time_selection_from_args, bound, parse_time_query,
}
use otel_desktop_viewer.Time.Window.{
  TimeContext, create_time_context, adopt, set_tz, on_route_change, window_patch, write_window,
  sync_url, set_selection,
}
use otel_desktop_viewer.Time.Window.Snapshot.{
  Frozen, some-eq, adopt-snapshot, create_time_context-Frozen, adopt-Frozen, adopt-seen,
  create_time_context-seen,
}

module _ {ℓ} {Url : Type ℓ} (codec : UrlCodec Url) (text : ℤ → String) (number : String → Option ℤ)
    (Safe : Text → Type 0) (objects : (u : Url) → IsObject (codec.parse_route u).query)
    (reads : (path : Text) (q : RouteQuery)
      → Safe path
      → IsObject q
      → codec.parse_route (codec.format path q) ≡ record { path = path; query = q })
    (full : (n : ℤ) → same (text n) "" ≡ false) (back : (n : ℤ) → number (text n) ≡ some n) where
  read-write_window :
      (r : Range) (b : Browser Url)
      → Safe (read_route codec b).path
      → read_route codec (write_window codec text number r b) ≡ record {
        path = (read_route codec b).path;
        query =
            present
              (with_query_patch (read_route codec b).query (window_patch codec text number r));
      }
  unfolding write_window navigate_current_route
  read-write_window r b safe =
      let query = (read_route codec b).query in
      let patch = window_patch codec text number r in
      reads (read_route codec b).path (present (with_query_patch query patch)) safe
        (present-IsObject _ (with_query_patch-IsObject query patch (objects b.href)))

  window_query-get :
      (r : Range) (query : RouteQuery) (k : String)
      → IsObject query
      → map_get (present (with_query_patch query (window_patch codec text number r))) k
        ≡ non_blank (patched (window_patch codec text number r) k (map_get query k))
  window_query-get r query k object =
      let patch = window_patch codec text number r in
      get-present (with_query_patch query patch) k (with_query_patch-IsObject query patch object)
      ∙ ap non_blank (get-with_query_patch query patch k)

  bound-written : (n : ℤ) → bound number (non_blank (non_blank (some (text n)))) ≡ some n
  bound-written n = rw (full n, full n, full n) (back n)

  -- What is written is read as the range.
  parse_time_query-window :
      (r : Range) (query : RouteQuery)
      → IsObject query
      → parse_time_query number
          (present (with_query_patch query (window_patch codec text number r)))
        ≡ some r
  unfolding parse_time_query
  parse_time_query-window r query object =
      let start =
        ap (bound number) (window_query-get r query "start" object) ∙ bound-written r.start in
      let end = ap (bound number) (window_query-get r query "end" object) ∙ bound-written r.end in
      rw (start, end) refl

  -- The window in the URL after the context's own write.
  write_window-parse :
      (r : Range) (b : Browser Url)
      → Safe (read_route codec b).path
      → parse_time_query number (read_route codec (write_window codec text number r b)).query
        ≡ some r
  write_window-parse r b safe =
      ap (λ route. parse_time_query number route.query) (read-write_window r b safe)
      ∙ parse_time_query-window r (read_route codec b).query (objects b.href)

  -- The listener leaves the context alone after the context's own write.
  sync_url-selection :
      (now : ℤ) (ctx : TimeContext) (b : Browser Url)
      → Safe (read_route codec b).path
      → (sync_url codec text number now ctx b).0
        ≡ record ctx { url_window_snapshot = some (selection_to_query_range_ms ctx.selection now) }
  unfolding sync_url on_route_change
  sync_url-selection now ctx b safe =
      let r = selection_to_query_range_ms ctx.selection now in
      let own : TimeContext = record ctx { url_window_snapshot = some r } in
      let seen = write_window-parse r b safe in
      ap (λ w. adopt w own) seen ∙ adopt-snapshot r own refl

  -- The contexts and URLs that the reader's selections, time zones and navigations lead to.
  pub data Reaches (saved_selection : SavedSelection) (saved_tz : Option String)
      : TimeContext → Browser Url → Type ℓ where
    start :
        (now : ℤ) (b : Browser Url)
        → Safe (read_route codec b).path
        → Reaches saved_selection saved_tz
            (create_time_context
              (parse_time_query number (read_route codec b).query)
              saved_selection
              saved_tz
              now)
            b
    select :
        (range : Range) (type : SelectionType) (index : Option ℕ) (now : ℤ) (ctx : TimeContext)
        (b : Browser Url)
        → Reaches saved_selection saved_tz ctx b
        → Reaches saved_selection saved_tz
            (set_selection codec text number range type index now ctx b).0
            (set_selection codec text number range type index now ctx b).1
    zone :
        (tz : Timezone) (ctx : TimeContext) (b : Browser Url)
        → Reaches saved_selection saved_tz ctx b
        → Reaches saved_selection saved_tz (set_tz tz ctx) b
    visit :
        (ctx : TimeContext) (b next : Browser Url)
        → Safe (read_route codec next).path
        → Reaches saved_selection saved_tz ctx b
        → Reaches saved_selection saved_tz (on_route_change codec text number ctx next) next

  -- A window in the URL is the snapshot, and the path is read as it is written.
  abbrev Agrees : TimeContext → Browser Url → Type 0
  Agrees ctx b =
      ((r : Range)
        → parse_time_query number (read_route codec b).query ≡ some r
        → ctx.url_window_snapshot ≡ some r)
      × Frozen ctx
      × Safe (read_route codec b).path

  set_selection-Agrees :
      (range : Range) (type : SelectionType) (index : Option ℕ) (now : ℤ) (ctx : TimeContext)
      (b : Browser Url)
      → Safe (read_route codec b).path
      → Agrees
          (set_selection codec text number range type index now ctx b).0
          (set_selection codec text number range type index now ctx b).1
  unfolding set_selection sync_url
  set_selection-Agrees range type index now ctx b safe =
      let chosen : TimeContext = record ctx {
        selection = time_selection_from_args range type index;
      } in
      let r = selection_to_query_range_ms chosen.selection now in
      let after = sync_url-selection now chosen b safe in
      let written = write_window-parse r b safe in
      (
        λ s h. ap (λ c. c.url_window_snapshot) after ∙ sym written ∙ h,
        rw after (λ s h. (now, some-eq r s h)),
        rw (read-write_window r b safe) safe,
      )

  set_tz-Agrees :
      (tz : Timezone) (ctx : TimeContext) (b : Browser Url)
      → Agrees ctx b
      → Agrees (set_tz tz ctx) b
  unfolding set_tz
  set_tz-Agrees tz ctx b h = h

  on_route_change-Agrees :
      (ctx : TimeContext) (next : Browser Url)
      → Safe (read_route codec next).path
      → Frozen ctx
      → Agrees (on_route_change codec text number ctx next) next
  unfolding on_route_change
  on_route_change-Agrees ctx next safe frozen =
      let seen = parse_time_query number (read_route codec next).query in
      (λ r h. adopt-seen seen ctx r h, adopt-Frozen seen ctx frozen, safe)

  Reaches-Agrees :
      {saved_selection : SavedSelection} {saved_tz : Option String} {ctx : TimeContext}
      {b : Browser Url}
      → Reaches saved_selection saved_tz ctx b
      → Agrees ctx b
  Reaches-Agrees {saved_selection} {saved_tz} (start now b safe) =
      let seen = parse_time_query number (read_route codec b).query in
      (
        λ r h. create_time_context-seen seen saved_selection saved_tz now ∙ h,
        create_time_context-Frozen seen saved_selection saved_tz now,
        safe,
      )
  Reaches-Agrees (select range type index now ctx b h) =
      let (seen, frozen, safe) = Reaches-Agrees h in
      set_selection-Agrees range type index now ctx b safe
  Reaches-Agrees (zone tz ctx b h) = set_tz-Agrees tz ctx b (Reaches-Agrees h)
  Reaches-Agrees (visit ctx b next safe h) =
      let (seen, frozen, safe_before) = Reaches-Agrees h in
      on_route_change-Agrees ctx next safe frozen

  -- Whenever the URL has a time window, after any selections, changes of the time zone and
  -- navigations, that window is the range of the selection at some moment: the selection that is
  -- shown never disagrees with the URL. The browser reads a URL with a safe path as it was written,
  -- only such URLs are visited, and a number is read back from its text.
  pub Reaches-window :
      (saved_selection : SavedSelection) (saved_tz : Option String) (ctx : TimeContext)
      (b : Browser Url) (r : Range)
      → Reaches saved_selection saved_tz ctx b
      → parse_time_query number (read_route codec b).query ≡ some r
      → (now : ℤ) × (selection_to_query_range_ms ctx.selection now ≡ r)
  Reaches-window saved_selection saved_tz ctx b r h here =
      let (seen, frozen, safe) = Reaches-Agrees h in frozen r (seen r here)

  -- A selection is kept as it was made: the write of the URL, of which the listener hears, changes
  -- neither the selection nor the time zone. The URL then has the range at the moment of the write,
  -- at the path that was there and with each other parameter that was there and not empty, an empty
  -- one is dropped, and the history does not grow. The path is one that the browser reads with the
  -- query as they were written, no URL is read with a parameter twice, and a number is read back from
  -- its text, which is not empty.
  pub set_selection-keeps :
      (range : Range) (type : SelectionType) (index : Option ℕ) (now : ℤ) (ctx : TimeContext)
      (b : Browser Url) (k : String)
      → Safe (read_route codec b).path
      → same "start" k ≡ false
      → same "end" k ≡ false
      → let chosen = time_selection_from_args range type index in
        let (ctx', b') = set_selection codec text number range type index now ctx b in
        (ctx'.selection ≡ chosen)
        × (ctx'.tz ≡ ctx.tz)
        × (parse_time_query number (read_route codec b').query
            ≡ some (selection_to_query_range_ms chosen now))
        × ((read_route codec b').path ≡ (read_route codec b).path)
        × (map_get (read_route codec b').query k ≡ non_blank (map_get (read_route codec b).query k))
        × (b'.back ≡ b.back)
  unfolding set_selection sync_url write_window navigate_current_route
  set_selection-keeps range type index now ctx b k safe s e =
      let chosen : TimeContext = record ctx {
        selection = time_selection_from_args range type index;
      } in
      let r = selection_to_query_range_ms chosen.selection now in
      let after = sync_url-selection now chosen b safe in
      let read = read-write_window r b safe in
      let query = (read_route codec b).query in
      let other : patched (window_patch codec text number r) k (map_get query k) ≡ map_get query k =
        rw (s, e) refl in
      (
        ap (λ c. c.selection) after,
        ap (λ c. c.tz) after,
        write_window-parse r b safe,
        ap (λ route. route.path) read,
        ap (λ route. map_get route.query k) read
            ∙ window_query-get r query k (objects b.href)
            ∙ ap non_blank other,
        refl,
      )
