-- ===== src/Demo/History.antt =====
-- The stored history of the demo: get-history.ts of its api, and the pages of the frontend's
-- use-history-logs.ts.
use logdeck.Base.{
  ℕ, ◌+◌, ◌-◌, min, Bool, not, ◌&&◌, ◌||◌, Option, none, some, List, [], ◌∷◌, ◌++◌, filter, any,
  ltb, nat_eq, zero, suc, length, drop, take, if◌then◌else◌,
}
use logdeck.Base.Text.{Text, codes, text_eq, truthy}
use logdeck.LogEntries.{LogLevel, LogEntry, level_eq, or_null}
use logdeck.Demo.Store.{StoredContainerRecord, DemoState, find, change_found, splice_found}
use logdeck.Demo.Containers.{Attempt, returned, thrown}
use logdeck.Demo.Logs.{array_of, keep_since, keep_until, keep_found, line_text}

-- `nextCursor` holds the number that its text is of.
pub record HistoryLogsPage : Type 0 where
  pub logs : List LogEntry
  pub next_cursor : Option ℕ
  pub count : ℕ

pub record HistoryLogsParams : Type 0 where
  pub container : Text
  pub host : Option Text
  pub since : Option Text
  pub until : Option Text
  pub levels : List LogLevel
  pub search : Option Text
  pub regex : Bool
  pub limit : Option ℕ
  pub cursor : Option ℕ

-- `r.name === container && (!host || r.host === host)`
abbrev asked_for : HistoryLogsParams → StoredContainerRecord → Bool
asked_for p r =
    text_eq r.name p.container
    && (not (truthy (or_null p.host [])) || text_eq r.host (or_null p.host []))

abbrev pub is_stored_as : Text → Text → StoredContainerRecord → Bool
is_stored_as name host r = text_eq r.name name && text_eq r.host host

module _ {V : Type 0} where
  unfoldable pub delete_record : StoredContainerRecord → Text → Text → DemoState V → DemoState V
  delete_record r name host s =
      if r.removed
      then record s { stored = splice_found (is_stored_as name host) s.stored }
      else record s {
        stored =
            change_found (is_stored_as name host) (λ x. record x { logs = s.next_array }) s.stored;
        arrays = λ a. if nat_eq a s.next_array then [] else s.arrays a;
        next_array = s.next_array + 1;
      }

  -- The number of lines deleted.
  unfoldable pub delete_history_container : Text → Text → DemoState V → Attempt ℕ × DemoState V
  unfolding delete_record
  delete_history_container name host s = elim (find (is_stored_as name host) s.stored) [
    | none ↦ (thrown (codes "No stored logs found for " ++ name), s)
    | some r ↦ (returned (length (s.arrays r.logs)), delete_record r name host s)
  ]

  unfoldable pub record_logs : HistoryLogsParams → DemoState V → List LogEntry
  record_logs p s = array_of s (find (asked_for p) s.stored)

unfoldable pub keep_levels : List LogLevel → List LogEntry → List LogEntry
keep_levels [] logs = logs
keep_levels (l ∷ ls) logs = filter (λ e. any (level_eq e.level) (l ∷ ls)) logs

-- `compile` is the platform's: the test of a regular expression with the flag "i", or `none` where the
-- constructor throws.
module _ (to_lower_case : Text → Text) (get_time : Text → Option ℕ)
    (compile : Text → Option (Text → Bool)) where
  abbrev tested : Text → Option (Text → Bool) → List LogEntry → Attempt (List LogEntry)
  tested search none logs = thrown (codes "Invalid regular expression: " ++ search)
  tested search (some test) logs =
      returned (filter (λ e. test (line_text to_lower_case get_time e)) logs)

  unfoldable pub keep_searched : HistoryLogsParams → List LogEntry → Attempt (List LogEntry)
  unfolding keep_found
  keep_searched p logs =
      let search = or_null p.search [] in
      if truthy search && p.regex
      then tested search (compile search) logs
      else returned (keep_found to_lower_case get_time p.search logs)

  -- The entries that the pages are cut from.
  unfoldable pub selected_logs : HistoryLogsParams → List LogEntry → Attempt (List LogEntry)
  unfolding keep_since keep_until keep_levels keep_searched
  selected_logs p logs = keep_searched p (
      keep_levels p.levels (
        keep_until to_lower_case get_time p.until (keep_since to_lower_case get_time p.since logs)))

-- `limit && limit > 0 ? limit : 500`
abbrev pub page_size : Option ℕ → ℕ
page_size none = 500
page_size (some limit) = if ltb 0 limit then limit else 500

-- The cursor "0" is a text that is truthy; the next cursor is never it.
unfoldable pub cut_page : Option ℕ → Option ℕ → List LogEntry → HistoryLogsPage
cut_page limit cursor logs =
    let safe_end = min (or_null cursor (length logs)) (length logs) in
    let start = safe_end - page_size limit in
    let page = take (safe_end - start) (drop start logs) in
    record {
      logs = page;
      next_cursor = if ltb 0 start then some start else none;
      count = length page;
    }

abbrev paged : HistoryLogsParams → Attempt (List LogEntry) → Attempt HistoryLogsPage
paged p (thrown message) = thrown message
paged p (returned logs) = returned (cut_page p.limit p.cursor logs)

module _ {V : Type 0} (to_lower_case : Text → Text) (get_time : Text → Option ℕ)
    (compile : Text → Option (Text → Bool)) where
  unfoldable pub get_history_logs : HistoryLogsParams → DemoState V → Attempt HistoryLogsPage
  unfolding record_logs selected_logs cut_page
  get_history_logs p s = paged p (selected_logs to_lower_case get_time compile p (record_logs p s))

-- The loop of `flattenHistoryPages` over the pages from the last to the first.
unfoldable pub flatten_history_pages : List HistoryLogsPage → List LogEntry
flatten_history_pages [] = []
flatten_history_pages (page ∷ pages) = flatten_history_pages pages ++ page.logs

-- `getNextPageParam`: the query asks for the next page while there is a cursor. On fuel: each page
-- takes some.
unfoldable pub fetch_older : (Option ℕ → HistoryLogsPage) → ℕ → Option ℕ → List HistoryLogsPage
fetch_older fetch zero cursor = []
fetch_older fetch (suc fuel) cursor =
    let page = fetch cursor in
    elim page.next_cursor [
      | none ↦ page ∷ []
      | some next ↦ page ∷ fetch_older fetch fuel (some next)
    ]
