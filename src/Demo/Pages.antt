-- ===== src/Demo/Pages.antt =====
-- Walking the pages of the history from the newest to the oldest.
use logdeck.Base.{
  ℕ, zero, suc, ◌+◌, ◌-◌, ◌*◌, ◌≤◌, ◌<◌, min, true, false, ◌≡◌, refl, ap, ap₂, ◌∙◌, Option, none,
  some, List, [], ◌∷◌, ◌++◌, ltb, length, drop, take, take_all, take-drop, length-take, arith,
  Bool-cases, inl, inr, if◌then◌else◌,
}
use native.Mathlib.Nat.{suc-mul}
use logdeck.LogEntries.{LogEntry, or_null}
use logdeck.Demo.History.{HistoryLogsPage, page_size, cut_page, flatten_history_pages, fetch_older}

page_size-pos : (limit : Option ℕ) → 0 < page_size limit
page_size-pos none = omega arith
page_size-pos (some n) = elim (Bool-cases (ltb 0 n)) [
  | inl e ↦ rw e (ground arith)
  | inr e ↦ rw e (omega arith)
]

-- The walk came to an end: the last page has no cursor.
abbrev pub IsComplete : List HistoryLogsPage → Type 0
IsComplete [] = ⊥
IsComplete (page ∷ []) = page.next_cursor ≡ none
IsComplete (page ∷ p ∷ pages) = IsComplete (p ∷ pages)

abbrev pub AllWithin : ℕ → List HistoryLogsPage → Type 0
AllWithin n [] = Unit
AllWithin n (page ∷ pages) = (length page.logs ≤ n) × AllWithin n pages

module _ (limit : Option ℕ) (logs : List LogEntry) where
  record Walked (end : ℕ) (pages : List HistoryLogsPage) : Type 0 where
    all : flatten_history_pages pages ≡ take end logs
    complete : IsComplete pages
    within : AllWithin (page_size limit) pages
    few : length pages * page_size limit ≤ end + page_size limit

  -- The page whose last entry is the one before `end`.
  abbrev page_at : ℕ → HistoryLogsPage
  page_at end =
      let start = end - page_size limit in
      let page = take (end - start) (drop start logs) in
      record {
        logs = page;
        next_cursor = if ltb 0 start then some start else none;
        count = length page;
      }

  cut_page-page_at :
      (end : ℕ) (cursor : Option ℕ)
      → min (or_null cursor (length logs)) (length logs) ≡ end
      → cut_page limit cursor logs ≡ page_at end
  unfolding cut_page
  cut_page-page_at end cursor h = ap page_at h

  IsComplete-cons :
      (page : HistoryLogsPage) (pages : List HistoryLogsPage)
      → IsComplete pages
      → IsComplete (page ∷ pages)
  IsComplete-cons page [] h = absurd h
  IsComplete-cons page (p ∷ pages) h = h

  abbrev pub fetch_page : Option ℕ → HistoryLogsPage
  fetch_page cursor = cut_page limit cursor logs

  last_page :
      (end : ℕ) (page : HistoryLogsPage)
      → page ≡ page_at end
      → ltb 0 (end - page_size limit) ≡ false
      → Walked end (page ∷ [])
  unfolding flatten_history_pages
  last_page end page same first =
      let start_zero : end - page_size limit ≡ 0 = ground arith in
      let whole : page.logs ≡ take end logs =
        ap (λ (x : HistoryLogsPage). x.logs) same
        ∙ ap (λ k. take (end - k) (drop k logs)) start_zero
        ∙ ap (λ k. take k logs) (omega arith) in
      record {
        all = whole;
        complete = ap (λ (x : HistoryLogsPage). x.next_cursor) same ∙ (rw first refl);
        within = (rw whole (omega (arith, length-take end logs)), tt);
        few = omega (arith, suc-mul 0 (page_size limit));
      }

  next_page :
      (end : ℕ) (page : HistoryLogsPage) (pages : List HistoryLogsPage)
      → page ≡ page_at end
      → ltb 0 (end - page_size limit) ≡ true
      → Walked (end - page_size limit) pages
      → Walked end (page ∷ pages)
  unfolding flatten_history_pages
  next_page end page pages same more w =
      let size = page_size limit in
      let start = end - size in
      let slice : page.logs ≡ take (end - start) (drop start logs) =
        ap (λ (x : HistoryLogsPage). x.logs) same in
      let big : size < end = ground arith in
      record {
        all =
            ap₂ (λ a b. a ++ b) w.all slice
            ∙ take-drop start (end - start) logs
            ∙ ap (λ k. take k logs) (omega arith);
        complete = IsComplete-cons page pages w.complete;
        within = (rw slice (omega (arith, length-take (end - start) (drop start logs))), w.within);
        few = omega (arith, w.few, suc-mul (length pages) size);
      }

  walk :
      (fuel end : ℕ) (cursor : Option ℕ)
      → end < fuel
      → end ≤ length logs
      → min (or_null cursor (length logs)) (length logs) ≡ end
      → Walked end (fetch_older fetch_page fuel cursor)
  unfolding fetch_older
  walk zero end cursor h inside at = absurd (omega arith)
  walk (suc fuel) end cursor h inside at =
      let same = cut_page-page_at end cursor at in
      let start = end - page_size limit in
      elim (Bool-cases (ltb 0 start)) [
        | inr first ↦
            let over : (fetch_page cursor).next_cursor ≡ none =
              ap (λ (x : HistoryLogsPage). x.next_cursor) same ∙ (rw first refl) in
            rw (over, fetch_older) (last_page end (fetch_page cursor) same first)
        | inl more ↦
            let next : (fetch_page cursor).next_cursor ≡ some start =
              ap (λ (x : HistoryLogsPage). x.next_cursor) same ∙ (rw more refl) in
            let pos = page_size-pos limit in
            let big : page_size limit < end = ground arith in
            rw (next, fetch_older)
              (next_page end (fetch_page cursor) (fetch_older fetch_page fuel (some start)) same
                more
                (walk fuel start (some start) (omega (arith, pos, big)) (omega (arith, pos, big))
                  (omega (arith, pos, big))))
      ]

  -- Fetching older pages of a history that stays the same ends: with more fuel than there are entries
  -- the last page has no cursor, no page is longer than the limit, and there is at most one page more
  -- than the entries fill. Flattened, the pages are the entries, all of them and in their order.
  pub fetch_older-flatten_history_pages :
      (fuel : ℕ)
      → length logs < fuel
      → let pages = fetch_older fetch_page fuel none in
        (flatten_history_pages pages ≡ logs)
        × IsComplete pages
        × AllWithin (page_size limit) pages
        × (length pages * page_size limit ≤ length logs + page_size limit)
  fetch_older-flatten_history_pages fuel h =
      let w = walk fuel (length logs) none h (omega arith) (omega arith) in
      (w.all ∙ take_all (length logs) logs (omega arith), w.complete, w.within, w.few)
