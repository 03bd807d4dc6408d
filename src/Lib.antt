-- ===== src/Lib.antt =====
-- The core of LogDeck's web frontend: the log viewer, which follows, groups, filters, searches and pins
-- the log lines of containers, the reader of its streams, the dashboard with its rows, pages, actions and
-- samples, the editor of environment variables, the guard of the pages, and the alert channels of the
-- settings; and the in-memory backend of the demo.
--
-- LogStream is frontend/src/features/containers/hooks/use-container-log-stream.ts. The state and the
-- refs of the hook are one record (LogStream/State), each callback is a function on it with the
-- callback's name (LogStream), and `startStreaming`, an async function with a loop, is a step function
-- from one await to the next (LogStream/Session): a session holds the loop's local variables and
-- stands in the wait of a reconnect, in the `for await` of a connection, or behind the loop. What the
-- network and the timers do are events. `fetchLogs` is two functions, up to its await and behind it.
-- A controller is a number, and the record lists those that were aborted. Calls of the functions that
-- the hook is given are listed in the record, oldest first. React's `setState` is an assignment: the
-- callbacks read refs, except for `isStreaming` and `isStreamPaused`, which are read as of the last
-- render.
-- LogEntries is the grouping in frontend/src/features/containers/api/get-container-logs-parsed.ts, with
-- the matcher of its one regular expression written out.
-- LogView is frontend/src/features/containers/components/log-viewer: animated-range.ts (Range),
-- use-log-search.tsx (Search), use-log-filtering.ts (Filtering), use-log-pins.ts (Pins), the selection of rows in
-- log-viewer.tsx (Selection), and use-log-view-state.ts with time-range.ts (ViewState). The stream
-- hands Range the raw lines that are new, and Pins the count of dropped raw lines.
-- Ndjson is frontend/src/lib/ndjson.ts, the generator that the streams of entries are read with. A turn
-- of its loop is a chunk or an abort; the stream is done behind the last turn.
-- JsonFormat is frontend/src/lib/json-format.ts; the map of the module is passed along.
-- Containers is frontend/src/features/containers/components/container-utils.ts, the rows of the
-- dashboard: Groups and Classes are about compose projects, Removed about rows for containers that are
-- gone, Counts about the state filter.
-- Actions is frontend/src/features/containers/hooks/use-container-actions.ts. `executeAction` and
-- `executeComposeAction` are two operations each, up to the first await and behind the last; between them
-- other operations may happen.
-- Auth is frontend/src/lib/auth-config.ts, auth-guard.ts and api-client.ts with the provider of
-- frontend/src/contexts/auth-context.tsx: one record of the stored token, the cached promise with those who
-- await it, and the provider's state. A function with an await is two operations, and Auth/Events runs
-- them in any order.
-- ContainerEvents is frontend/src/features/containers/hooks/use-container-events.ts: the runs of its effect
-- that have not ended are listed with their variables; streams, timers and the page's visibility are
-- events.
-- Dashboard is the state of frontend/src/features/containers/hooks/use-containers-dashboard-url-state.ts and
-- what frontend/src/features/containers/components/containers-dashboard.tsx makes of the rows (Rows), with the
-- functions of Containers.
-- EnvVariables is frontend/src/features/containers/components/environment-variables.tsx: `parseEnvFile`, and
-- the state of the editor with its callbacks (Editor). Notices, requests and invalidated queries are
-- listed in the state. `object[key] = value` passes `__proto__` by, whose setter ignores a text (`assign` of
-- LogEntries), and a read of a key finds what every object inherits (`is_taken`). An object is a map in the
-- order of insertion; where keys are written like array
-- indices, whose order the language changes, only what is found under a key is meant.
-- StatsHistory is frontend/src/features/containers/hooks/use-stats-history.ts; what the module keeps is a
-- record.
-- Channels is frontend/src/features/settings/components/channel-utils.ts, the payload of an alert channel.
-- Demo is the demo of the documentation site, an in-memory backend for a copy of the same views: the state
-- of docs/lib/logdeck-demo/store.ts (Store), and the files of docs/components/logdeck-demo/api that change
-- it (Containers), serve the live logs (Logs) and the stored ones (History). Arrays of log lines are
-- mutable and shared, so the state holds their addresses and what stands there. `await sleep` is left out:
-- a request is what it does behind its sleep. Events that are emitted are listed in the state.
-- History also has the walk of the pages in frontend/src/features/containers/hooks/use-history-logs.ts.
-- Base has what they share: texts as lists of UTF-16 units, objects and maps as association lists in
-- the order of insertion, lists, the stable sort, and Boolean tests.
--
-- Parameters: what the platform gives, as arbitrary functions: `toLowerCase`, `localeCompare`,
-- `Date.parse`, the regular expression engine (a test, or a failure on an invalid pattern), `JSON.parse`
-- and `JSON.stringify`, the URL parser, and the streaming `TextDecoder`, of which the theorems assume that chunks may be
-- cut anywhere.
-- Numbers are natural numbers where the source's never are negative or fractional; `end` of a range,
-- which can be -1, is an integer. Loops run over lists or a count; only the walk of
-- the history's pages has fuel, and more of it than there are entries is enough.
-- Not modelled: rendering, fetching and the URLs of the requests, the Go server, and the rest of the documentation.
pub mod Base
pub mod Actions
pub mod Auth
pub mod Channels
pub mod ContainerEvents
pub mod Containers
pub mod Dashboard
pub mod Demo
pub mod EnvVariables
pub mod JsonFormat
pub mod LogEntries
pub mod LogStream
pub mod LogView
pub mod Ndjson
pub mod StatsHistory
