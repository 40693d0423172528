-- ===== src/Lib.antt =====
-- jvmScout: the dashboard (frontend/src), from its data layer to what its pages compute.
--
-- The dashboard shows what a collector has received from the agents of many JVMs.
-- frontend/src/integrations/collector/client.ts sends requests with
-- the stored API key, caches the exceptions and the JVM instances for four seconds, and derives from
-- them the rows that the pages show. frontend/src/integrations/collector/adapter.ts is a query builder on top of it:
-- a page writes `from(table).select().eq(...)`, and `run` filters, orders and limits derived rows or
-- the collector's configuration rows, or changes the latter. The pages in
-- frontend/src/routes/_authenticated fetch tables through the builder and compute from their rows what
-- they show. Around them stand the sign-in, the theme, the live updates, which drop the cache when the
-- collector reports news, and the server that answers a request with a page.
--
-- Base: numbers, lists, sets and maps, texts, decimal numerals and sorting.
-- Client.Rows, Client.Endpoints, Client.Values: the rows and replies of the collector.
-- Client.Http: `getApiKey`, `setApiKey`, `authHeaders`, `http`, `verifyApiKey`.
-- Client.Cache: `fetchAllExceptions`, `fetchInstances`, `invalidateCache`; Cache.Paging has the loop
--   over the pages, Cache.Laws what a caller gets.
-- Client.Groups, Client.Events: `deriveEvents` and `deriveSnapshots`, with the loop that groups rows.
-- Client.Promises: `Promise.all`. Client.Applications: `deriveApplications`, `deriveDeployments`.
-- Client.Frames: `detailFrames`, `deriveStackFrames` and `deriveVariables`. Client.Socket:
--   `connectLiveSocket`.
-- Client.Series: `isSeriesIncreasing`. Client.Servers: `deriveServers`, `fetchTimeseries`,
--   `fetchEventSeries`, `createApiToken` and `resetAllData`.
-- Adapter.Query, Adapter.Builder: the builder's fields, its chained methods and its comparator.
-- Adapter.Store: the calls on configuration entities, `matchingConfigIds` and the loops over ids.
-- Adapter.Run: `run`, over any table reader; Adapter.Tables: `loadReadTable`, which is that reader.
--   Adapter.Select (with Meets), Adapter.Errors, Adapter.Deletion (with Ids), Adapter.Changes, Tables.Laws and Tables.Frames
--   state what they yield.
-- Auth: frontend/src/lib/auth.tsx. Shell: frontend/src/lib/theme.tsx and app-context.tsx, the login page
--   and the layout of frontend/src/routes; Shell.Frame and Shell.Sparkline: AppShell.tsx and
--   events/Sparkline.tsx of frontend/src/components. Format: frontend/src/lib/format.ts.
-- Live: frontend/src/lib/use-live-updates.tsx, with Live.Steps as the relation of what can happen.
-- Server: frontend/src/server.ts, start.ts, lib/error-capture.ts and lib/error-page.ts.
-- Pages.Fetch, Pages.Mutations: the queries and mutations of the pages, through `run`.
-- Pages.Times: maps by id, comparators and what they mean. Pages.Dashboard, Pages.Events, Pages.EventDetail,
--   Pages.Deployments, Pages.Applications, Pages.Application (with Pages.Versions), Pages.Alerts and
--   Pages.Settings: the page of that name; `$id` pages are EventDetail and Application, and the one of
--   deployments stands in Pages.Deployments. EventDetail.Highlight is `highlightJava`, whose regular
--   expression is written out as a scanner; EventDetail.Panes, Events.Rail, Deployments.Marks,
--   Alerts.Label and Settings.Install have what a page computes beside its rows.
-- Tests: a concrete browser and collector, and each theorem at a concrete input.
--
-- Conventions. A text is its list of UTF-16 code units. Numbers of the source are natural numbers.
-- A call is a function from the state (both caches, `localStorage`, the world) to a result and a
-- state; a thrown error is `err`. `fetch`, `Date.now`, `encodeURIComponent` and the encoding of
-- `URLSearchParams` are fields of Platform, and JSON enters as what it parses to. Parameters stand for
-- the other functions of the browser: `iso` for `toISOString`, `time_of` for `getTime` of a text (none
-- is NaN), `lower` for `toLowerCase`, `locale` for `localeCompare`, `number` for the conversion of a
-- text in a comparison, `to_fixed`, `local` for the parts of a local date, and `score` for the
-- arithmetic in floating point of the reliability. `Date.now` is a natural number, and
-- `Date.now() - at < TTL_MS` is `now < at + ttl_ms`. An object used as a dictionary has no inherited
-- properties. The calls of a `Promise.all` are made and answered in the order of its list, so calls
-- that overlap, each with its own request, are not modelled. The optional base address is left out of the paths.
-- `select(...)` of the builder ignores its columns, as the source does. `map.set` of a key that is
-- there keeps its place. The library that caches queries (`invalidateQueries`) is not modelled; a
-- mutation is its `mutationFn`.
-- The loop over the pages runs on fuel `suc most`, where `most` is the cap: a page that does not end
-- the loop is full, so each round adds a row, and the loop ends at the cap. The scan of
-- `highlightJava` has one unit of fuel for each character, and each round passes over one or more.
-- The points of a sparkline are exact fractions, not numbers in floating point.
--
-- Not modelled: rendering, routing, the notices after a mutation, the view of a JSON value on the page
-- of an event, and the vendored component kit; the collector and the agent, which are written in other
-- languages.
mod Base
pub mod Client
pub mod Adapter
pub mod Auth
pub mod Live
pub mod Server
pub mod Format
pub mod Shell
pub mod Pages
mod Tests
