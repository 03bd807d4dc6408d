-- ===== src/LogView/Range.antt =====
-- `mapRawRangeToGroupedRange` of animated-range.ts: which rows a range of raw lines touches.
use logdeck.Base.{
  ℕ, zero, suc, ◌+◌, ◌-◌, ◌≤◌, ◌≡◌, refl, ◌∙◌, inl, inr, Bool, true, false, ◌&&◌, Option, none,
  some, List, [], ◌∷◌, arith, leb, if◌then◌else◌, Bool-cases,
}
use logdeck.Base.Int.{ℤ, pos, negsuc, le_int}
use logdeck.LogStream.State.{IndexRange}
use logdeck.LogEntries.{LogEntry}
use logdeck.LogEntries.Grouping.{line_span}

abbrev extend : Option (ℕ × ℕ) → ℕ → Option (ℕ × ℕ)
extend none i = some (i, i)
extend (some (start, end)) i = some (start, i)

-- The rows from index `i` on, whose first raw line is `raw_index`; `found` holds `start` and `end`
-- once `start` is not -1.
unfoldable pub scan_rows : IndexRange → List LogEntry → ℕ → ℕ → Option (ℕ × ℕ) → Option (ℕ × ℕ)
scan_rows range [] i raw_index found = found
scan_rows range (e ∷ es) i raw_index found =
    let row_end = raw_index + line_span e - 1 in
    scan_rows range es (i + 1) (raw_index + line_span e)
      (if leb range.start row_end && le_int raw_index range.end then extend found i else found)

-- `start === -1 ? null : { start, end }`
abbrev as_range : Option (ℕ × ℕ) → Option IndexRange
as_range none = none
as_range (some (start, end)) = some (record { start = start; end = pos end })

unfoldable pub map_raw_range_to_grouped_range :
    List LogEntry → Option IndexRange → Option IndexRange
unfolding scan_rows
map_raw_range_to_grouped_range rows none = none
map_raw_range_to_grouped_range rows (some range) = as_range (scan_rows range rows 0 0 none)

-- Whether a row whose raw lines begin at `raw_index` shares one with the range.
abbrev pub touches : IndexRange → ℕ → LogEntry → Bool
touches range raw_index e =
    leb range.start (raw_index + line_span e - 1) && le_int raw_index range.end

-- Whether the row at an index does. The raw lines of the rows follow one another.
abbrev pub touched : IndexRange → List LogEntry → ℕ → ℕ → Bool
touched range [] raw_index k = false
touched range (e ∷ es) raw_index zero = touches range raw_index e
touched range (e ∷ es) raw_index (suc k) = touched range es (raw_index + line_span e) k

le_int-add : (z : ℤ) (m n : ℕ) → le_int m z ≡ false → le_int (m + n) z ≡ false
le_int-add (pos k) m n h = ground arith
le_int-add (negsuc k) m n h = refl

module _ (range : IndexRange) where
  -- Behind the end of the range nothing is touched.
  past-touched :
      (rows : List LogEntry) (raw k : ℕ)
      → le_int raw range.end ≡ false
      → touched range rows raw k ≡ false
  past-touched [] raw k h = refl
  past-touched (e ∷ es) raw zero h = ground arith
  past-touched (e ∷ es) raw (suc k) h =
      past-touched es (raw + line_span e) k (le_int-add range.end raw (line_span e) h)

  past-scan_rows :
      (rows : List LogEntry) (i raw : ℕ) (found : Option (ℕ × ℕ))
      → le_int raw range.end ≡ false
      → scan_rows range rows i raw found ≡ found
  unfolding scan_rows
  past-scan_rows [] i raw found h = refl
  past-scan_rows (e ∷ es) i raw found h =
      let off : touches range raw e ≡ false = ground arith in
      rw off (
        past-scan_rows es (i + 1) (raw + line_span e) found
          (le_int-add range.end raw (line_span e) h))

  -- What a range of rows says of the rows from index `i` on.
  abbrev Covers : ℕ → List LogEntry → ℕ → Option (ℕ × ℕ) → Type 0
  Covers i rows raw none = (k : ℕ) → touched range rows raw k ≡ false
  Covers i rows raw (some (a, b)) =
      (i ≤ a) × ((k : ℕ) → touched range rows raw k ≡ (leb a (i + k) && leb (i + k) b))

  -- Once a row was found, the touched rows go on without a gap.
  within :
      (rows : List LogEntry) (a b i raw : ℕ)
      → a ≤ b
      → i ≡ b + 1
      → range.start ≤ raw
      → (b' : ℕ) × (scan_rows range rows i raw (some (a, b)) ≡ some (a, b'))
        × (b ≤ b')
        × ((k : ℕ) → touched range rows raw k ≡ leb (i + k) b')
  unfolding scan_rows
  within [] a b i raw ab ib h = (b, refl, omega arith, λ k. ground arith)
  within (e ∷ es) a b i raw ab ib h = elim (Bool-cases (le_int raw range.end)) [
    | inr out ↦ (
      b,
      past-scan_rows (e ∷ es) i raw (some (a, b)) out,
      omega arith,
      λ k. past-touched (e ∷ es) raw k out ∙ ground arith,
    )
    | inl in_range ↦
        let on : touches range raw e ≡ true = ground arith in
        let (b', found, grows, rest) =
          within es a i (i + 1) (raw + line_span e) (omega arith) refl (omega arith) in
        (b', rw on found, omega (arith, grows), λ k. by_index b' on grows rest k)
  ]
    where
      by_index :
          (b' : ℕ)
          → touches range raw e ≡ true
          → i ≤ b'
          → ((k : ℕ) → touched range es (raw + line_span e) k ≡ leb (i + 1 + k) b')
          → (k : ℕ) → touched range (e ∷ es) raw k ≡ leb (i + k) b'
      by_index b' on grows rest zero = ground arith
      by_index b' on grows rest (suc k) =
          rest k ∙ (let n : i + 1 + k ≡ i + suc k = omega arith in rw n refl)

  before : (rows : List LogEntry) (i raw : ℕ) → Covers i rows raw (scan_rows range rows i raw none)
  unfolding scan_rows
  before [] i raw = λ k. refl
  before (e ∷ es) i raw = elim (Bool-cases (touches range raw e)) [
    | inl on ↦
        let (b', found, grows, rest) =
          within es i i (i + 1) (raw + line_span e) (omega arith) refl (ground arith) in
        rw (on, found) (omega arith, λ k. first on grows rest k)
    | inr off ↦ rw off (
        later off (scan_rows range es (i + 1) (raw + line_span e) none)
          (before es (i + 1) (raw + line_span e)))
  ]
    where
      first :
          {b' : ℕ}
          → touches range raw e ≡ true
          → i ≤ b'
          → ((k : ℕ) → touched range es (raw + line_span e) k ≡ leb (i + 1 + k) b')
          → (k : ℕ) → touched range (e ∷ es) raw k ≡ (leb i (i + k) && leb (i + k) b')
      first on grows rest zero = ground arith
      first on grows rest (suc k) =
          rest k ∙ (let n : i + 1 + k ≡ i + suc k = omega arith in rw n (ground arith))

      later :
          touches range raw e ≡ false
          → (found : Option (ℕ × ℕ)) → Covers (i + 1) es (raw + line_span e) found
          → Covers i (e ∷ es) raw found
      later off none c = λ k. at k
        where
          at : (k : ℕ) → touched range (e ∷ es) raw k ≡ false
          at zero = off
          at (suc k) = c k
      later off (some (a, b)) (lo, c) = (omega arith, λ k. at k)
        where
          at : (k : ℕ) → touched range (e ∷ es) raw k ≡ (leb a (i + k) && leb (i + k) b)
          at zero = ground arith
          at (suc k) = c k ∙ (let n : i + 1 + k ≡ i + suc k = omega arith in rw n refl)

-- What the result says of every row.
abbrev pub Animates : IndexRange → List LogEntry → Option IndexRange → Type 0
Animates range rows none = (k : ℕ) → touched range rows 0 k ≡ false
Animates range rows (some r) = (k : ℕ) → touched range rows 0 k ≡ (leb r.start k && le_int k r.end)

Covers-Animates :
    (range : IndexRange) (rows : List LogEntry) (found : Option (ℕ × ℕ))
    → Covers range 0 rows 0 found
    → Animates range rows (as_range found)
Covers-Animates range rows none c = c
Covers-Animates range rows (some (a, b)) (lo, c) =
    λ k. c k ∙ (let n : 0 + k ≡ k = omega arith in rw n refl)

-- A row is animated exactly when it shares a raw line with the range: where the result is a range of
-- rows, those are the rows from its start to its end and no others, and where it is null there are
-- none.
pub map_raw_range_to_grouped_range-Animates :
    (rows : List LogEntry) (range : IndexRange)
    → Animates range rows (map_raw_range_to_grouped_range rows (some range))
unfolding map_raw_range_to_grouped_range
map_raw_range_to_grouped_range-Animates rows range =
    Covers-Animates range rows (scan_rows range rows 0 0 none) (before range rows 0 0)
