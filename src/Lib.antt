-- ===== src/Lib.antt =====
-- The frontend of otel-desktop-viewer, as far as its own logic goes: how a search query is read,
-- how a list page takes the answers to overlapping requests, how the detail pane follows the
-- selection, how the waterfall of a trace is put together, and what is kept of a metric's view
-- between visits. Paths below are in desktopexporter/internal/frontend/src.
--
-- The parts, and how they interact:
--   * Search models components/shared/Search. `Search.Query` has the operators of
--     constants/operators.ts, the fields of constants/fields.ts and the trees of queryTree.ts;
--     `Search.Lexer`, `Search.Parser` and `Search.Validator` are the class `Lexer`, the class
--     `Parser` and the body of `validateQuery` in queryParser.ts; `Search.Editor` has the two
--     functions that the editor calls, `parseQuery` and `validateQuery`; `Search.Tree` has the
--     functions on trees of queryTree.ts; `Search.Fields` has the static fields of each signal, and
--     `Search.RoundTrip` prints a query by the grammar in the parser's comments. A text is a list of UTF-16 codes, and the number n stands
--     for the id `query-n`.
--   * ListPage models contexts/signal-list-page.svelte.ts and components/shared/utils/
--     list-update-seq.ts: the update numbers (`ListPage.Sequence`), index arithmetic
--     (`ListPage.Selection`), state and handlers (`ListPage.Page`), and the races of list fetches
--     with the searches that SearchEditor.svelte submits (`ListPage.Races`, a step relation: each
--     request is a step when it is sent and a step when it settles, in any order).
--   * Detail models components/shared/utils/debounced-detail-fetcher.svelte.ts as a step relation of
--     the caller, the timer and the requests.
--   * Waterfall models components/traces/Waterfall: `buildStructuralMaps` and
--     `buildChildrenBySpanID` of waterfall-tree.ts, `ancestorIdsOf` of waterfall-reveal.ts,
--     waterfall-collapse-store.ts, the shape that a search gives the tree (`Waterfall.SearchShape`),
--     and of WaterfallView.svelte which rows are drawn (`Waterfall.Visibility`), the collapse
--     gestures (`Waterfall.Lens`), the lines of the tree (`Waterfall.Connectors`), and the keys and
--     the row a selection scrolls to (`Waterfall.Keys`).
--   * Metrics models components/metrics/utils/metric-timeseries-visible.ts over a local storage
--     whose texts are kept as what `JSON.parse` makes of them; metric-timeseries-colors.ts
--     (`Metrics.Colors`) and the palettes of utils/chart-palette.ts and metric-type.ts
--     (`Metrics.Palette`); what aggregation.ts offers for a metric (`Metrics.Aggregation`); and of
--     contexts/metric-view-context.svelte.ts the series that are drawn (`Metrics.SeriesView`), the
--     seeded aggregation view, and the sub-view that the URL keeps (`Metrics.Link`).
--   * Route models route/router.ts (`Route.Router`, `Route.Item`) and route/metric-view-query.ts
--     (`Route.MetricView`) over the entries of the browser's history.
--   * Time models contexts/time-context.svelte.ts (`Time.Selection`, `Time.Window`) and the recent
--     ranges of utils/time.ts (`Time.Recents`). The context writes the URL through Route, and hears
--     of each write.
--   * Rows models components/shared/utils/table-keyboard-nav.ts.
--   * Examples has runs at concrete inputs.
--
-- Names follow the source in snake case: `parseQuery` is `parse_query`, `runListFetch` is
-- `start_list_fetch` up to its `await` and `finish_list_fetch` behind it. A thrown error is a value
-- of a result type, and `-1` for a missing index is `none`.
--
-- Loops that do not go down a list take fuel: `tokenize` one more than the characters of its input,
-- the parser and the validator two laps for each token and two more, the walks of the waterfall two
-- more than the entries of their map: a lap takes a character, a token or a span that was not seen
-- before.
--
-- Not modelled: the components that render, time and number formatting, the arithmetic on metric
-- data (floating point), the third-party editor and its completion, the calls to the backend, and the
-- backend itself (Go and SQL). How a URL and a number are written as text and read back, the escapes
-- of an id and the interpolation of colours are parameters, with what the code relies on as hypotheses.
-- The compare function of a list page, the detail requests and their answers are parameters too.
-- A storage that throws and the reactive scheduler are not modelled: an effect is a
-- function that a step runs. Of the letters outside of ASCII only those are upper or lower cased that
-- become ASCII letters: what they are compared with, keywords and field tokens, is ASCII.
mod Prelude
pub mod Search
pub mod ListPage
pub mod Detail
pub mod Waterfall
pub mod Metrics
pub mod Route
pub mod Time
mod Examples
pub mod Rows
