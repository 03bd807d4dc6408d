-- ===== src/Demo/Sharing.antt =====
-- The array that `buildInitialState` of store.ts gives both to the live logs and to the stored record.
use logdeck.Base.{
  ℕ, ◌+◌, ◌<◌, Bool, false, ◌≡◌, refl, ap, ◌∙◌, Option, none, some, List, [], ◌∷◌, ◌++◌,
  append_assoc, append-nil, nat_eq, last_n, last_n-append_last_n, arith, Bool-cases, inl, inr,
  if◌then◌else◌,
}
use logdeck.Base.Text.{text_Key, text_eq_iff}
use logdeck.Base.JsMap.{get, set, get-set}
use logdeck.LogEntries.{LogEntry}
use logdeck.Containers.{ContainerInfo}
use logdeck.Demo.Logs.{array_of}
use logdeck.Demo.Store.{
  StoredContainerRecord, DemoState, find, change_found, is_record_of, stored_record_for,
  max_entries, push_and_slice, logs_array, append_stored, append_live, append_log,
}

find-change_found :
    {A : Type 0} (p : A → Bool) (f : A → A)
    → ((x : A) → p (f x) ≡ p x)
    → (r : A) (xs : List A) → find p xs ≡ some r
    → find p (change_found p f xs) ≡ some (f r)
find-change_found p f same r [] h = cc
find-change_found p f same r (x ∷ xs) h = elim (Bool-cases (p x)) [
  | inl e ↦ rw (e, same x, e) (let q : some x ≡ some r = rw e at h in cc)
  | inr e ↦ rw (e, e) (find-change_found p f same r xs (rw e at h))
]

abbrev pub array_at : {V : Type 0} → DemoState V → Option ℕ → List LogEntry
array_at s none = []
array_at s (some a) = s.arrays a

module _ {V : Type 0} (c : ContainerInfo) where
  -- Lines that arrive one by one.
  abbrev pub append_lines : List LogEntry → DemoState V → DemoState V
  append_lines [] s = s
  append_lines (e ∷ es) s = append_lines es (append_log c e s)

  -- The live array and the array of the record, both made earlier.
  record Arrays (s : DemoState V) (a : ℕ) (r : StoredContainerRecord) : Type 0 where
    live : get c.id s.logs ≡ some a
    stored : stored_record_for c s ≡ some r
    live_made : a < s.next_array
    stored_made : r.logs < s.next_array

  abbrev seen : DemoState V → ℕ → StoredContainerRecord → LogEntry → List LogEntry
  seen s a r e = if nat_eq r.logs a then s.arrays a ++ e ∷ [] else s.arrays r.logs

  record Appended (s : DemoState V) (a : ℕ) (r : StoredContainerRecord) (e : LogEntry)
      (s' : DemoState V) : Type 0 where
    arrays : Arrays s' s.next_array (record r { logs = s.next_array + 1 })
    live_lines : s'.arrays s.next_array ≡ last_n max_entries (s.arrays a ++ e ∷ [])
    stored_lines : s'.arrays (s.next_array + 1) ≡ last_n max_entries (seen s a r e ++ e ∷ [])

  logs_array_lem : (s : DemoState V) (a : ℕ) → get c.id s.logs ≡ some a → logs_array c.id s ≡ (a, s)
  unfolding logs_array
  logs_array_lem s a h = rw (h, logs_array) refl

  abbrev after_live : LogEntry → DemoState V → ℕ → DemoState V
  after_live e s a = record s {
    arrays = λ b.
        if nat_eq b s.next_array
        then last_n max_entries (if nat_eq a a then s.arrays a ++ e ∷ [] else s.arrays a)
        else if nat_eq b a
        then s.arrays a ++ e ∷ []
        else s.arrays b;
    next_array = s.next_array + 1;
    logs = set c.id s.next_array s.logs;
  }

  append_live_lem :
      (e : LogEntry) (s : DemoState V) (a : ℕ)
      → get c.id s.logs ≡ some a
      → append_live c e s ≡ after_live e s a
  unfolding append_live push_and_slice
  append_live_lem e s a h = rw (logs_array_lem s a h) refl

  abbrev after_stored : LogEntry → DemoState V → StoredContainerRecord → DemoState V
  after_stored e s r = record s {
    arrays = λ b.
        if nat_eq b s.next_array
        then last_n max_entries
            (if nat_eq r.logs r.logs then s.arrays r.logs ++ e ∷ [] else s.arrays r.logs)
        else if nat_eq b r.logs
        then s.arrays r.logs ++ e ∷ []
        else s.arrays b;
    next_array = s.next_array + 1;
    stored = change_found (is_record_of c) (λ x. record x { logs = s.next_array }) s.stored;
  }

  append_stored_lem :
      (e : LogEntry) (s : DemoState V) (r : StoredContainerRecord)
      → stored_record_for c s ≡ some r
      → append_stored c e s ≡ after_stored e s r
  unfolding append_stored push_and_slice
  append_stored_lem e s r h = rw (h, append_stored) refl

  stored_after :
      (e : LogEntry) (s : DemoState V) (r : StoredContainerRecord)
      → stored_record_for c s ≡ some r
      → stored_record_for c (after_stored e s r) ≡ some (record r { logs = s.next_array })
  unfolding stored_record_for is_record_of
  stored_after e s r h =
      find-change_found (is_record_of c) (λ x. record x { logs = s.next_array }) (λ x. refl) r
        s.stored h

  stored_kept :
      (e : LogEntry) (s : DemoState V) (a : ℕ)
      → stored_record_for c (after_live e s a) ≡ stored_record_for c s
  unfolding stored_record_for
  stored_kept e s a = refl

  append_log_lem :
      (e : LogEntry) (s : DemoState V) (a : ℕ) (r : StoredContainerRecord)
      → Arrays s a r
      → Appended s a r e (append_log c e s)
  unfolding append_log
  append_log_lem e s a r h =
      let s₁ = after_live e s a in
      let kept = stored_kept e s a ∙ h.stored in
      let made = h.stored_made in
      let made' = h.live_made in
      rw (append_live_lem e s a h.live, append_stored_lem e s₁ r kept)
        (record {
          arrays = record {
            live =
                get-set c.id c.id s.next_array s.logs ∙ (rw ((text_eq_iff c.id c.id).1 refl) refl);
            stored = stored_after e s₁ r kept;
            live_made = omega arith;
            stored_made = omega arith;
          };
          live_lines = ground arith;
          stored_lines = ground arith;
        })

  -- The lines of two arrays that are not shared.
  record Lines (s : DemoState V) (live stored : List LogEntry) : Type 0 where
    a : ℕ
    r : StoredContainerRecord
    arrays : Arrays s a r
    apart : nat_eq r.logs a ≡ false
    live_lines : s.arrays a ≡ last_n max_entries live
    stored_lines : s.arrays r.logs ≡ last_n max_entries stored

  Lines-first :
      (e : LogEntry) (s : DemoState V) (a : ℕ) (r : StoredContainerRecord)
      → Arrays s a r
      → Lines (append_log c e s) (s.arrays a ++ e ∷ []) (seen s a r e ++ e ∷ [])
  Lines-first e s a r h =
      let next = append_log_lem e s a r h in
      record {
        a = s.next_array;
        r = record r { logs = s.next_array + 1 };
        arrays = next.arrays;
        apart = ground arith;
        live_lines = next.live_lines;
        stored_lines = next.stored_lines;
      }

  Lines-step :
      (e : LogEntry) (s : DemoState V) (live stored : List LogEntry)
      → Lines s live stored
      → Lines (append_log c e s) (live ++ e ∷ []) (stored ++ e ∷ [])
  Lines-step e s live stored h =
      let next = append_log_lem e s h.a h.r h.arrays in
      record {
        a = s.next_array;
        r = record h.r { logs = s.next_array + 1 };
        arrays = next.arrays;
        apart = ground arith;
        live_lines =
            next.live_lines
            ∙ ap (λ (xs : List LogEntry). last_n max_entries (xs ++ e ∷ [])) h.live_lines
            ∙ last_n-append_last_n max_entries live (e ∷ []);
        stored_lines =
            next.stored_lines
            ∙ (rw h.apart
                (ap (λ (xs : List LogEntry). last_n max_entries (xs ++ e ∷ [])) h.stored_lines))
            ∙ last_n-append_last_n max_entries stored (e ∷ []);
      }

  Lines-all :
      (es : List LogEntry) (s : DemoState V) (live stored : List LogEntry)
      → Lines s live stored
      → Lines (append_lines es s) (live ++ es) (stored ++ es)
  Lines-all [] s live stored h = rw (append-nil live, append-nil stored) h
  Lines-all (e ∷ es) s live stored h =
      let next =
        Lines-all es (append_log c e s) (live ++ e ∷ []) (stored ++ e ∷ [])
          (Lines-step e s live stored h) in
      rw (append_assoc live (e ∷ []) es, append_assoc stored (e ∷ []) es) at next

  seen_lem :
      (e : LogEntry) (es : List LogEntry) (s : DemoState V) (a : ℕ) (r : StoredContainerRecord)
      → (seen s a r e ++ e ∷ []) ++ es
        ≡ (if nat_eq r.logs a then s.arrays a ++ e ∷ e ∷ es else s.arrays r.logs ++ e ∷ es)
  seen_lem e es s a r = elim (Bool-cases (nat_eq r.logs a)) [
    | inl q ↦ rw q (
        append_assoc (s.arrays a ++ e ∷ []) (e ∷ []) es
        ∙ append_assoc (s.arrays a) (e ∷ []) (e ∷ es))
    | inr q ↦ rw q (append_assoc (s.arrays r.logs) (e ∷ []) es)
  ]

  -- While the live logs of a container and its stored record are one array, the first live line is
  -- stored twice: of the lines that arrive the live logs get each once, and the history, from then on
  -- another array, gets the first one twice and the others once. Of two arrays, each gets each line once.
  -- Both keep the last 3000. The container must have live logs and a stored record, whose arrays exist.
  pub append_log-first :
      (e : LogEntry) (es : List LogEntry) (s : DemoState V) (a : ℕ) (r : StoredContainerRecord)
      → get c.id s.logs ≡ some a
      → stored_record_for c s ≡ some r
      → a < s.next_array
      → r.logs < s.next_array
      → let s' = append_lines (e ∷ es) s in
        (array_at s' (get c.id s'.logs) ≡ last_n max_entries (s.arrays a ++ e ∷ es))
        × (array_of s' (stored_record_for c s')
            ≡ last_n max_entries
                (if nat_eq r.logs a then s.arrays a ++ e ∷ e ∷ es else s.arrays r.logs ++ e ∷ es))
  append_log-first e es s a r live stored live_made stored_made =
      let first = Lines-first e s a r (record {
        live = live;
        stored = stored;
        live_made = live_made;
        stored_made = stored_made;
      }) in
      let all =
        Lines-all es (append_log c e s) (s.arrays a ++ e ∷ []) (seen s a r e ++ e ∷ []) first in
      (
        (rw (all.arrays.live, all.live_lines)
            (ap (last_n max_entries) (append_assoc (s.arrays a) (e ∷ []) es))),
        (rw (all.arrays.stored, all.stored_lines) (ap (last_n max_entries) (seen_lem e es s a r))),
      )
