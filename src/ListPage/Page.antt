-- ===== src/ListPage/Page.antt =====
-- contexts/signal-list-page.svelte.ts: the state of a list page, its handlers and its effects. An
-- asynchronous fetch is two operations, one for what runs before the response and one for what runs
-- behind it. The route is the id that `signalIdFromPath` reads from it.
use otel_desktop_viewer.Prelude.{
  ◌≡◌, refl, ℕ, String, same, Bool, true, false, ◌&&◌, not, ◌==◌, if◌then◌else◌, List, [], ◌∷◌,
  length, get_elem?, Option, none, some,
}
use otel_desktop_viewer.Prelude.Int.{ℤ}
use otel_desktop_viewer.ListPage.Sequence.{
  SignalName, traces, metrics, logs, Latest, begin_list_update, is_latest_list_update,
  cancel_pending_list_updates,
}
use otel_desktop_viewer.ListPage.Selection.{
  find_item_index_by_id, clamp_nav_target_index, resolve_fallback_index,
}

pub data SortDirection : Type 0 where
  asc desc : SortDirection

pub record Page (A : Type 0) : Type 0 where
  pub items : List A
  pub loading : Bool
  pub error : Option String
  pub mounted : Bool
  pub sort_column : String
  pub sort_direction : SortDirection
  pub last_valid_index : ℕ
  pub refresh_pulse : Bool
  pub refresh_aside_tip : String
  pub selected_id : Option String
  pub latest : Latest

-- How `opts.fetchList()` settles; a rejection has a message if it is an `Error`.
pub data FetchResult (A : Type 0) : Type 0 where
  fetched : List A → FetchResult A
  rejected : Option String → FetchResult A

abbrev pub message_or : String → Option String → String
message_or fallback none = fallback
message_or fallback (some m) = m

abbrev pub same_signal : SignalName → SignalName → Bool
same_signal traces traces = true
same_signal metrics metrics = true
same_signal logs logs = true
same_signal _ _ = false

pub same_signal_refl : (s : SignalName) → same_signal s s ≡ true
same_signal_refl traces = refl
same_signal_refl metrics = refl
same_signal_refl logs = refl

module _ {A : Type 0} where
  -- `navigateToItem` of the page's signal.
  abbrev pub navigate_to_item : Option String → Page A → Page A
  navigate_to_item none p = record p { selected_id = none }
  navigate_to_item (some id) p = record p { selected_id = if same id "" then none else some id }

  -- `refresh` is what `refreshFromStats` gives, if the page has it.
  abbrev pub update_refresh_indicator : Option (Bool × String) → Page A → Page A
  update_refresh_indicator none p = p
  update_refresh_indicator (some (pulse, tip)) p = record p {
    refresh_pulse = pulse;
    refresh_aside_tip = tip;
  }

  unfoldable pub handle_sort_change : String → SortDirection → Page A → Page A
  handle_sort_change column direction p = record p {
    sort_column = column;
    sort_direction = direction;
  }

  unfoldable pub on_mount : Page A → Page A
  on_mount p = record p { mounted = true }

module _ {A : Type 0} (signal : SignalName) where
  -- `runListFetch` up to `await`; the number goes with the request.
  unfoldable pub start_list_fetch : Page A → Page A × ℕ
  start_list_fetch p =
      let (latest', seq) = begin_list_update p.latest signal in
      (record p { latest = latest'; loading = true; error = none }, seq)

  -- `runListFetch` behind `await`, for the request with the number `seq`.
  unfoldable pub finish_list_fetch : ℕ → FetchResult A → Option (Bool × String) → Page A → Page A
  finish_list_fetch seq result refresh p =
      if is_latest_list_update p.latest signal seq
      then (elim result [
        | fetched next ↦
            update_refresh_indicator refresh (record p { items = next; loading = false })
        | rejected m ↦ record p {
          error = some (message_or "Failed to load list" m);
          loading = false;
        }
      ])
      else p

  unfoldable pub handle_search_results : SignalName → List A → ℕ → Page A → Page A
  handle_search_results event_signal results update_seq p =
      if same_signal event_signal signal && is_latest_list_update p.latest event_signal update_seq
      then record p { error = none; items = results; loading = false }
      else p

  -- The editor's `clear`, and the fetch.
  unfoldable pub handle_refresh : (Page A → Page A) → Page A → Page A × ℕ
  unfolding start_list_fetch
  handle_refresh clear p = start_list_fetch (clear p)

  unfoldable pub on_destroy : Page A → Page A
  on_destroy p = record p { latest = cancel_pending_list_updates p.latest signal }

module _ {A : Type 0} (get_item_id : A → String)
    (sort : String → SortDirection → List A → List A) where
  -- `rows.sort` by `opts.compare` is `sort`.
  abbrev pub sorted_items : Page A → List A
  sorted_items p = sort p.sort_column p.sort_direction p.items

  abbrev pub selected_index : Page A → Option ℕ
  selected_index p = find_item_index_by_id (sorted_items p) p.selected_id get_item_id

  -- `navigateToItem` of an entry of the list, if it is there.
  abbrev pub navigate_to_entry : Option A → Page A → Page A
  navigate_to_entry none p = p
  navigate_to_entry (some item) p = navigate_to_item (some (get_item_id item)) p

  abbrev pub is_index : ℕ → Option ℕ → Bool
  is_index i none = false
  is_index i (some j) = i == j

  unfoldable pub select_by_offset : ℤ → Page A → Page A
  select_by_offset delta p =
      elim (clamp_nav_target_index (selected_index p) delta (length (sorted_items p))) [
        | none ↦ p
        | some target ↦
            if is_index target (selected_index p)
            then p
            else navigate_to_entry (get_elem? (sorted_items p) target) p
      ]

  unfoldable pub select_first : Page A → Page A
  select_first p = navigate_to_entry (get_elem? (sorted_items p) 0) p

  unfoldable pub select_last : Page A → Page A
  select_last p = elim (sorted_items p) [
    | [] ↦ p
    | x ∷ xs ↦ navigate_to_entry (get_elem? (x ∷ xs) (length xs)) p
  ]

  -- `if (id) navigateToItem(opts.signal, null, 'replace')`
  abbrev pub leave_item : Option String → Page A → Page A
  leave_item none p = p
  leave_item (some id) p = if same id "" then p else navigate_to_item none p

  -- The effect that keeps the selection on the list, once the list is there.
  abbrev pub keep_selection : List A → Option ℕ → Page A → Page A
  keep_selection rows (some idx) p = record p { last_valid_index = idx }
  keep_selection [] none p = leave_item p.selected_id p
  keep_selection (x ∷ xs) none p =
      navigate_to_entry
        (get_elem? (x ∷ xs) (resolve_fallback_index p.last_valid_index (length (x ∷ xs)))) p

  unfoldable pub auto_select : Page A → Page A
  auto_select p =
      if not p.mounted
      then p
      else if p.loading
      then p
      else keep_selection (sorted_items p) (selected_index p) p
