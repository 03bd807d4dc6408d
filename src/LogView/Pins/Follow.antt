-- ===== src/LogView/Pins/Follow.antt =====
-- How pins follow their lines while the ring buffer drops rows.
use logdeck.Base.{
  zero, suc, refl, sym, ap, ◌∙◌, ◌++◌, drop, take, length-drop, get_elem?-drop, ℕ, ◌+◌, ◌-◌, ◌≤◌,
  ◌<◌, ◌≡◌, ◌↔◌, inl, inr, false, List, [], ◌∷◌, arith, leb, Bool-cases, length, get_elem?, In,
}
use mathlib.Core.Path.{subst}
use logdeck.LogStream.State.{Stream}
use logdeck.LogStream.Ring.{Feed, feeds, IsRunning}
use logdeck.LogEntries.{
  LogEntry, group_behind, group_related_log_entries, is_continuation_log_entry,
  append_continuation_log_entry,
}
use logdeck.LogStream.Counters.{feeds-Counted}
use logdeck.LogView.Pins.{Pins, shift_each, on_dropped_count}

In-shift_each :
    (j delta : ℕ) (pins : List ℕ)
    → (In j (shift_each delta pins) → In (j + delta) pins)
      × (In (j + delta) pins → In j (shift_each delta pins))
unfolding shift_each
In-shift_each j delta [] = (λ h. h, λ h. h)
In-shift_each j delta (i ∷ pins) =
    let ih = In-shift_each j delta pins in
    elim (Bool-cases (leb delta i)) [
      | inl kept ↦ rw kept (
        λ h. elim h [ inl e ↦ inl (ground arith) | inr t ↦ inr (ih.0 t) ],
        λ h. elim h [ inl e ↦ inl (ground arith) | inr t ↦ inr (ih.1 t) ],
      )
      | inr gone ↦
          rw gone
            (λ h. inr (ih.0 h), λ h. elim h [ inl e ↦ absurd (ground arith) | inr t ↦ ih.1 t ])
    ]

In-on_dropped_count :
    (p : Pins) (n j : ℕ)
    → p.prev_dropped_count_ref ≤ n
    → (In j (on_dropped_count n p).pinned_log_indices
        → In (j + (n - p.prev_dropped_count_ref)) p.pinned_log_indices)
      × (In (j + (n - p.prev_dropped_count_ref)) p.pinned_log_indices
          → In j (on_dropped_count n p).pinned_log_indices)
unfolding on_dropped_count
In-on_dropped_count p n j grows = elim (Bool-cases (leb n p.prev_dropped_count_ref)) [
  | inl same ↦
      let e : j + (n - p.prev_dropped_count_ref) ≡ j = ground arith in
      simp (same, e) (λ h. h, λ h. h)
  | inr more ↦
      let d : leb (n - p.prev_dropped_count_ref) 0 ≡ false = ground arith in
      simp (more, d) (In-shift_each j (n - p.prev_dropped_count_ref) p.pinned_log_indices)
]

-- By the raw lines of the screen.
on_dropped_count_raw :
    {A : Type 0} (fs : List (Feed A)) (s : Stream A) (p : Pins) (j : ℕ)
    → IsRunning s
    → s.dropped_count ≡ s.dropped_count_ref
    → p.prev_dropped_count_ref ≡ s.dropped_count
    → let t = feeds fs s in
      let p' = on_dropped_count t.dropped_count p in
      let before = j + (t.dropped_count - s.dropped_count) in
      (In j p'.pinned_log_indices ↔ In before p.pinned_log_indices)
      × (before < length s.logs → get_elem? t.logs j ≡ get_elem? s.logs before)
on_dropped_count_raw fs s p j r told seen =
    let c = feeds-Counted fs s r in
    let t = feeds fs s in
    let before = j + (t.dropped_count - s.dropped_count) in
    let told' : t.dropped_count ≡ t.dropped_count_ref = c.told told in
    let pins = p.pinned_log_indices in
    let i = In-on_dropped_count p t.dropped_count j (omega (arith, c.grows)) in
    (
      subst
          (λ d.
            In j (on_dropped_count t.dropped_count p).pinned_log_indices
            ↔ In (j + (t.dropped_count - d)) pins)
          seen i,
      λ inside.
          let e : s.dropped_count_ref + before - t.dropped_count_ref ≡ j = omega (arith, c.grows) in
          rw e at (c.moved before (omega (arith, c.grows)) inside),
    )

-- The rows of the viewer: its lines, grouped.
abbrev pub rows_of : Stream LogEntry → List LogEntry
rows_of s = group_related_log_entries s.logs

-- A list that begins with another, element by element, is that one and more.
begins_with :
    {A : Type 0} (xs ys : List A)
    → ((j : ℕ) → j < length xs → get_elem? ys j ≡ get_elem? xs j)
    → ys ≡ xs ++ drop (length xs) ys
begins_with [] ys same = refl
begins_with (x ∷ xs) [] same = let h = same 0 (omega arith) in cc
begins_with (x ∷ xs) (y ∷ ys) same =
    let here : y ≡ x = let h = same 0 (omega arith) in cc in
    let more = begins_with xs ys (λ j h. same (suc j) (omega arith)) in
    ap (λ z. z ∷ ys) here ∙ ap (λ zs. x ∷ zs) more

-- Lines that arrive can only change the last row.
get_elem?-group_behind :
    (e : LogEntry) (es more : List LogEntry) (j : ℕ)
    → j + 1 < length (group_behind e es)
    → get_elem? (group_behind e (es ++ more)) j ≡ get_elem? (group_behind e es) j
unfolding group_behind
get_elem?-group_behind e [] more j h = absurd (omega arith)
get_elem?-group_behind e (f ∷ es) more j h = elim (Bool-cases (is_continuation_log_entry f e)) [
  | inl folded ↦
      rw folded
        (get_elem?-group_behind (append_continuation_log_entry e f) es more j (rw folded at h))
  | inr apart ↦ rw apart (at_row (λ k q. get_elem?-group_behind f es more k q) j (rw apart at h))
]
  where
    at_row :
        ((k : ℕ)
          → k + 1 < length (group_behind f es)
          → get_elem? (group_behind f (es ++ more)) k ≡ get_elem? (group_behind f es) k)
        → (k : ℕ) → k + 1 < length (e ∷ group_behind f es)
        → get_elem? (e ∷ group_behind f (es ++ more)) k ≡ get_elem? (e ∷ group_behind f es) k
    at_row behind zero q = refl
    at_row behind (suc k) q = behind k (omega arith)

get_elem?-group :
    (es more : List LogEntry) (j : ℕ)
    → j + 1 < length (group_related_log_entries es)
    → get_elem? (group_related_log_entries (es ++ more)) j
      ≡ get_elem? (group_related_log_entries es) j
unfolding group_related_log_entries
get_elem?-group [] more j h = absurd (omega arith)
get_elem?-group (e ∷ es) more j h = get_elem?-group_behind e es more j h

get_elem?-behind :
    {A : Type 0} (xs ys : List A) (j : ℕ) → get_elem? (xs ++ ys) (j + length xs) ≡ get_elem? ys j
get_elem?-behind [] ys j = let e : j + 0 ≡ j = omega arith in ap (λ k. get_elem? ys k) e
get_elem?-behind (x ∷ xs) ys j =
    let e : j + length (x ∷ xs) ≡ suc (j + length xs) = omega arith in
    ap (λ k. get_elem? (x ∷ (xs ++ ys)) k) e ∙ get_elem?-behind xs ys j

-- The rows of lines, as the viewer groups them.
abbrev pub rows : List LogEntry → List LogEntry
rows es = group_related_log_entries es

-- Pins count rows, which are grouped lines, and the effect moves them by the number of raw lines that
-- were dropped. So through any run of a stream, once the effect has seen the count that the hook
-- reports, a row is pinned exactly if the row so many places behind it was, while the line of a row was
-- only as many rows behind as the lines that were dropped made: a pin stays on its line where each of
-- these was a row of its own. This is for the rows but the last, which arriving lines may continue, and
-- where the first line that is left began a row.
pub on_dropped_count-feeds :
    (fs : List (Feed LogEntry)) (s : Stream LogEntry) (p : Pins) (j d : ℕ)
    → IsRunning s
    → s.dropped_count ≡ s.dropped_count_ref
    → p.prev_dropped_count_ref ≡ s.dropped_count
    → d ≡ (feeds fs s).dropped_count - s.dropped_count
    → rows s.logs ≡ rows (take d s.logs) ++ rows (drop d s.logs)
    → j + 1 < length (rows (drop d s.logs))
    → let t = feeds fs s in
      let p' = on_dropped_count t.dropped_count p in
      (In j p'.pinned_log_indices ↔ In (j + d) p.pinned_log_indices)
      × (get_elem? (rows t.logs) j ≡ get_elem? (rows s.logs) (j + length (rows (take d s.logs))))
on_dropped_count-feeds fs s p j d r told seen dropped boundary inside =
    let t = feeds fs s in
    let kept = drop d s.logs in
    let raw = λ (i : ℕ). on_dropped_count_raw fs s p i r told seen in
    let begins : t.logs ≡ kept ++ drop (length kept) t.logs =
      begins_with kept t.logs (λ i h. line_at i h) in
    (
      subst
          (λ n.
            In j (on_dropped_count t.dropped_count p).pinned_log_indices
            ↔ In (j + n) p.pinned_log_indices)
          (sym dropped) (raw j).0,
      ap (λ es. get_elem? (rows es) j) begins
          ∙ get_elem?-group kept (drop (length kept) t.logs) j inside
          ∙ sym (get_elem?-behind (rows (take d s.logs)) (rows kept) j)
          ∙ ap (λ es. get_elem? es (j + length (rows (take d s.logs)))) (sym boundary),
    )
  where
    line_at :
        (i : ℕ)
        → i < length (drop d s.logs)
        → get_elem? (feeds fs s).logs i ≡ get_elem? (drop d s.logs) i
    line_at i h =
        let n : i + ((feeds fs s).dropped_count - s.dropped_count) ≡ d + i =
          omega (arith, dropped) in
        let l : i + ((feeds fs s).dropped_count - s.dropped_count) < length s.logs =
          omega (arith, dropped, h, length-drop d s.logs) in
        (on_dropped_count_raw fs s p i r told seen).1 l
        ∙ ap (λ k. get_elem? s.logs k) n
        ∙ sym (get_elem?-drop d i s.logs)
