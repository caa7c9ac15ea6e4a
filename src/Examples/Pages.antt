-- ===== src/Examples/Pages.antt =====
-- The list pages (contexts/signal-list-page.svelte.ts) and the detail pane on concrete runs.
use package.text.Mathlib.TextPositions.{eq_refl}
use otel_desktop_viewer.Prelude.{
  ℕ, ◌≡◌, ◌⊎◌, inl, inr, refl, String, same, true, false, List, [], ◌∷◌, none, some, arith,
}
use otel_desktop_viewer.ListPage.Sequence.{
  traces, Latest, latest_seq, begin_list_update, is_latest_list_update,
}
use otel_desktop_viewer.ListPage.Page.{
  Page, SortDirection, asc, fetched, finish_list_fetch, handle_search_results, auto_select,
}
use otel_desktop_viewer.ListPage.Settles.{IsSettled, auto_select-IsSettled}
use otel_desktop_viewer.ListPage.Races.{
  search_answers, World, now, Step, search_starts, fetch_settles, Reach, here,
}
use otel_desktop_viewer.ListPage.Races.Order.{
  Updates, brought, shown_number, IsNoOlder, newest_wins,
}
use otel_desktop_viewer.ListPage.Races.Loading.{
  Has, stay, then_step, loading_is_answered, failed_search_strands,
}
use otel_desktop_viewer.Detail.{
  Fetcher, initial, set_key, timer_fires, resolves, Step as DetailStep, selects, fires, answers,
  here as at_start, next as then,
}
use otel_desktop_viewer.Detail.Laws.{SettledFor, fetcher_consistent}

abbrev none_begun : Latest
none_begun = record { of_traces = 0; of_metrics = 0; of_logs = 0 }

abbrev new_page : Page String
new_page = record {
  items = "t1" ∷ "t2" ∷ [];
  loading = false;
  error = none;
  mounted = true;
  sort_column = "name";
  sort_direction = asc;
  last_valid_index = 5;
  refresh_pulse = false;
  refresh_aside_tip = "";
  selected_id = some "gone";
  latest = none_begun;
}

-- The page after its first fetch was sent.
abbrev fetching : World String
fetching = record {
  page = record new_page { loading = true; latest = record none_begun { of_traces = 1 } };
  fetches = 1 ∷ [];
  searches = [];
}

-- A search is submitted before the fetch settles.
abbrev searching : World String
searching = record {
  page = record new_page { loading = true; latest = record none_begun { of_traces = 2 } };
  fetches = 1 ∷ [];
  searches = 2 ∷ [];
}

submits : Step traces fetching searching
unfolding begin_list_update
submits = search_starts fetching

-- The fetch settles behind the search, and is dropped.
abbrev dropped : World String
dropped = record searching { fetches = [] }

drops : Step traces searching dropped
unfolding finish_list_fetch is_latest_list_update
drops = fetch_settles searching [] [] 1 (fetched ("t3" ∷ [])) none refl

-- The search answers, and is shown.
abbrev found : World String
found = record {
  page = record new_page { items = "t9" ∷ []; latest = record none_begun { of_traces = 2 } };
  fetches = [];
  searches = [];
}

finds : Step traces dropped found
unfolding handle_search_results is_latest_list_update
finds = search_answers dropped [] [] 2 ("t9" ∷ []) refl

newest_wins_example :
    Updates traces drops
    × Updates traces finds
    × IsNoOlder
        (shown_number traces (brought traces drops) searching)
        (shown_number traces (brought traces finds) dropped)
newest_wins_example = newest_wins traces drops here finds

loading_is_answered_example :
    Has (now traces dropped.page) dropped.fetches ⊎ Has (now traces dropped.page) dropped.searches
unfolding latest_seq submits drops
loading_is_answered_example =
    loading_is_answered traces (inr (inl (inl refl)))
      (then_step (then_step stay submits refl) drops refl) refl

failed_search_strands_example :
    (u : World String) × Reach traces fetching u
    × (u.page.loading ≡ true)
    × (u.fetches ≡ [])
    × (u.searches ≡ [])
unfolding latest_seq
failed_search_strands_example =
    failed_search_strands traces fetching 1 (fetched ("t3" ∷ [])) none refl refl refl (omega arith)

abbrev unsorted : String → SortDirection → List String → List String
unsorted column direction rows = rows

auto_select-IsSettled_example :
    IsSettled
      (λ id. id)
      unsorted
      (auto_select (λ id. id) unsorted (auto_select (λ id. id) unsorted new_page))
auto_select-IsSettled_example =
    auto_select-IsSettled (λ id. id) unsorted new_page refl refl (refl, (refl, tt)) (λ e. cc)

-- A trace is selected, the timer fires, and its details arrive.
abbrev Answers : String → ℕ → Type 0
Answers key details = (key ≡ "t1") × (details ≡ 7)

abbrev selected : Fetcher String ℕ
selected = record {
  key = some "t1";
  shown = none;
  loading = true;
  error = none;
  pending_timer = some "t1";
  in_flight = [];
}

abbrev requested : Fetcher String ℕ
requested = record selected { pending_timer = none; in_flight = "t1" ∷ [] }

abbrev answered : Fetcher String ℕ
answered = record requested { shown = some 7; loading = false; in_flight = [] }

selection : DetailStep same Answers "Failed" initial selected
unfolding set_key
selection = selects (some "t1") initial

request : DetailStep same Answers "Failed" selected requested
unfolding timer_fires
request = fires "t1" selected refl

answer : DetailStep same Answers "Failed" requested answered
unfolding resolves
answer = answers "t1" 7 [] [] requested refl (refl, refl)

fetcher_consistent_example : SettledFor same Answers "Failed" answered.key answered
fetcher_consistent_example =
    fetcher_consistent same Answers "Failed" (λ k. eq_refl k)
      (then (then (then at_start selection) request) answer)
