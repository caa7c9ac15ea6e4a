-- ===== src/ListPage/Races.antt =====
-- A list page while its fetches and the editor's searches are under way (signal-list-page.svelte.ts
-- with the `onSubmit` of components/shared/Search/SearchEditor.svelte).
pub mod Numbers
pub mod Order
pub mod Loading
use otel_desktop_viewer.Prelude.{
  ℕ, zero, suc, ◌+◌, ◌≤◌, ◌<◌, ◌≡◌, ◌≢◌, ◌⊎◌, inl, inr, refl, ◌==◌, String, Bool, true, false,
  Bool-cases, if◌then◌else◌, List, [], ◌∷◌, ◌++◌, Option, none, some, All, arith,
}
use otel_desktop_viewer.ListPage.Sequence.{
  SignalName, Latest, traces, metrics, logs, latest_seq, begin_list_update, is_latest_list_update,
}
use otel_desktop_viewer.ListPage.Page.{
  Page, FetchResult, fetched, rejected, start_list_fetch, finish_list_fetch, handle_search_results,
  update_refresh_indicator, on_destroy,
}

-- The page, and the numbers of the list fetches and of the searches that have not settled.
pub record World (A : Type 0) : Type 0 where
  pub page : Page A
  pub fetches : List ℕ
  pub searches : List ℕ

module _ {A : Type 0} (signal : SignalName) where
  -- `beginListUpdate` by the editor: the page's own state stays.
  abbrev pub start_search : Page A → Page A
  start_search p = record p { latest = (begin_list_update p.latest signal).0 }

  abbrev pub now : Page A → ℕ
  now p = latest_seq p.latest signal

  pub data Step : World A → World A → Type 0 where
    fetch_starts :
        (w : World A)
        → Step w (record w {
          page = (start_list_fetch signal w.page).0;
          fetches = (start_list_fetch signal w.page).1 ∷ w.fetches;
        })
    search_starts :
        (w : World A)
        → Step w (record w {
          page = start_search w.page;
          searches = (begin_list_update w.page.latest signal).1 ∷ w.searches;
        })
    fetch_settles :
        (w : World A) (before after : List ℕ) (seq : ℕ) (result : FetchResult A)
        (refresh : Option (Bool × String))
        → w.fetches ≡ before ++ seq ∷ after
        → Step w (record w {
          page = finish_list_fetch signal seq result refresh w.page;
          fetches = before ++ after;
        })
    search_answers :
        (w : World A) (before after : List ℕ) (seq : ℕ) (results : List A)
        → w.searches ≡ before ++ seq ∷ after
        → Step w (record w {
          page = handle_search_results signal signal results seq w.page;
          searches = before ++ after;
        })
    -- The `catch` of `searchFn()`, which sets the editor's own error alone, or the answer to an
    -- editor that has left the page (`alive`): neither reaches the page.
    search_fails :
        (w : World A) (before after : List ℕ) (seq : ℕ)
        → w.searches ≡ before ++ seq ∷ after
        → Step w (record w { searches = before ++ after })

  pub data Reach (w : World A) : World A → Type 0 where
    here : Reach w w
    next : {u v : World A} → Reach w u → Step u v → Reach w v
