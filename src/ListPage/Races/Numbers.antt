-- ===== src/ListPage/Races/Numbers.antt =====
-- The update numbers of a list page (components/shared/utils/list-update-seq.ts) in its steps.
use otel_desktop_viewer.Prelude.{
  ℕ, ◌+◌, ◌≤◌, ◌≡◌, refl, String, Bool, List, Option, none, some, arith,
}
use otel_desktop_viewer.ListPage.Sequence.{
  SignalName, Latest, traces, metrics, logs, latest_seq, begin_list_update,
}
use otel_desktop_viewer.ListPage.Page.{
  Page, FetchResult, fetched, rejected, finish_list_fetch, handle_search_results,
}

pub now-start :
    (m : Latest) (s : SignalName) → latest_seq (begin_list_update m s).0 s ≡ latest_seq m s + 1
unfolding begin_list_update
now-start m traces = refl
now-start m metrics = refl
now-start m logs = refl

pub number-start : (m : Latest) (s : SignalName) → (begin_list_update m s).1 ≡ latest_seq m s + 1
unfolding begin_list_update
number-start m s = refl

-- An update that starts is numbered behind all others.
pub now-le-start :
    (m : Latest) (signal : SignalName)
    → latest_seq m signal ≤ latest_seq (begin_list_update m signal).0 signal
now-le-start m signal = omega (arith, now-start m signal)

module _ {A : Type 0} (signal : SignalName) where
  -- An answer leaves the numbers alone.
  pub latest-finish :
      (seq : ℕ) (result : FetchResult A) (refresh : Option (Bool × String)) (p : Page A)
      → (finish_list_fetch signal seq result refresh p).latest ≡ p.latest
  unfolding finish_list_fetch
  latest-finish seq (fetched xs) none p = ground arith
  latest-finish seq (fetched xs) (some (a, b)) p = ground arith
  latest-finish seq (rejected m) refresh p = ground arith

  pub latest-search :
      (seq : ℕ) (results : List A) (p : Page A)
      → (handle_search_results signal signal results seq p).latest ≡ p.latest
  unfolding handle_search_results
  latest-search seq results p = ground arith
