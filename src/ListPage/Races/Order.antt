-- ===== src/ListPage/Races/Order.antt =====
-- The order in which a list page (contexts/signal-list-page.svelte.ts) takes answers.
use otel_desktop_viewer.Prelude.{
  ℕ, ◌≤◌, ◌≡◌, ◌==◌, if◌then◌else◌, refl, List, Option, none, some, arith,
}
use otel_desktop_viewer.ListPage.Sequence.{SignalName, Latest, latest_seq, is_latest_list_update}
use otel_desktop_viewer.ListPage.Page.{
  same_signal_refl, fetched, rejected, start_list_fetch, finish_list_fetch, handle_search_results,
}
use otel_desktop_viewer.ListPage.Races.{
  World, now, Step, fetch_starts, search_starts, fetch_settles, search_answers, search_fails, Reach,
  here, next,
}
use otel_desktop_viewer.ListPage.Races.Numbers.{now-le-start, latest-finish, latest-search}

latest-is :
    (m : Latest) (s : SignalName) (seq : ℕ)
    → is_latest_list_update m s seq ≡ (seq == latest_seq m s)
unfolding is_latest_list_update
latest-is m s seq = ground arith

-- Of two numbers the later one is no smaller.
abbrev pub IsNoOlder : Option ℕ → Option ℕ → Type 0
IsNoOlder none later = Unit
IsNoOlder (some m) none = Unit
IsNoOlder (some m) (some n) = m ≤ n

module _ {A : Type 0} (signal : SignalName) where
  -- The number and the list that a step brings, if it is an answer with a list.
  abbrev pub brought : {u v : World A} → Step signal u v → Option (ℕ × List A)
  brought (fetch_settles w before after seq (fetched xs) refresh e) = some (seq, xs)
  brought (fetch_settles w before after seq (rejected m) refresh e) = none
  brought (search_answers w before after seq results e) = some (seq, results)
  brought (fetch_starts w) = none
  brought (search_starts w) = none
  brought (search_fails w before after seq e) = none

  -- What an answer does to the list of the page.
  abbrev pub Answers : Option (ℕ × List A) → World A → World A → Type 0
  Answers none u v = v.page.items ≡ u.page.items
  Answers (some (seq, xs)) u v =
      v.page.items ≡ (if seq == now signal u.page then xs else u.page.items)

  abbrev pub Updates : {u v : World A} → Step signal u v → Type 0
  Updates {u} {v} s = Answers (brought s) u v

  Step-Updates : {u v : World A} (s : Step signal u v) → Updates s
  unfolding start_list_fetch finish_list_fetch handle_search_results
  Step-Updates (fetch_starts w) = refl
  Step-Updates (search_starts w) = refl
  Step-Updates (search_fails w before after seq e) = refl
  Step-Updates (fetch_settles w before after seq (fetched xs) none e) =
      rw (latest-is w.page.latest signal seq) (ground arith)
  Step-Updates (fetch_settles w before after seq (fetched xs) (some (pulse, tip)) e) =
      rw (latest-is w.page.latest signal seq) (ground arith)
  Step-Updates (fetch_settles w before after seq (rejected m) refresh e) = ground arith
  Step-Updates (search_answers w before after seq results e) =
      rw (same_signal_refl signal, latest-is w.page.latest signal seq) (ground arith)

  -- The numbers only grow.
  Step-now : {u v : World A} → Step signal u v → now signal u.page ≤ now signal v.page
  unfolding start_list_fetch
  Step-now (fetch_starts w) = now-le-start w.page.latest signal
  Step-now (search_starts w) = now-le-start w.page.latest signal
  Step-now (fetch_settles w before after seq result refresh e) =
      rw (latest-finish signal seq result refresh w.page) (omega arith)
  Step-now (search_answers w before after seq results e) =
      rw (latest-search signal seq results w.page) (omega arith)
  Step-now (search_fails w before after seq e) = omega arith

  Reach-now : {u v : World A} → Reach signal u v → now signal u.page ≤ now signal v.page
  Reach-now here = omega arith
  Reach-now (next r s) = omega (arith, Reach-now r, Step-now s)

  -- The number of the answer that a step from `u` puts on the page.
  abbrev pub shown_number : Option (ℕ × List A) → World A → Option ℕ
  shown_number none u = none
  shown_number (some (seq, xs)) u = if seq == now signal u.page then some seq else none

  shown_number-ordered :
      (u x : World A) (o p : Option (ℕ × List A))
      → now signal u.page ≤ now signal x.page
      → IsNoOlder (shown_number o u) (shown_number p x)
  shown_number-ordered u x none p h = tt
  shown_number-ordered u x (some (m, xs)) none h = ground arith
  shown_number-ordered u x (some (m, xs)) (some (n, ys)) h = ground arith

-- Only an answer changes the list. It replaces the list by what it brings if it is that of the latest
-- update, be it a fetch or a search, and leaves it otherwise; and of two answers that are shown, with
-- any steps between them, the later one is of the same update or of a newer one.
pub newest_wins :
    {A : Type 0} (signal : SignalName) {u v x y : World A} (s : Step signal u v)
    → Reach signal v x
    → (t : Step signal x y)
    → Updates signal s
      × Updates signal t
      × IsNoOlder
          (shown_number signal (brought signal s) u)
          (shown_number signal (brought signal t) x)
newest_wins signal {u} {v} {x} s r t = (
  Step-Updates signal s,
  Step-Updates signal t,
  shown_number-ordered signal u x (brought signal s) (brought signal t)
      (omega (arith, Step-now signal s, Reach-now signal r)),
)
