-- ===== src/Ndjson/Chunks.antt =====
-- The stream read in chunks against the whole text read at once.
use logdeck.Base.{
  ℕ, true, false, ◌≡◌, refl, sym, ap, ◌∙◌, Option, some, List, [], ◌∷◌, ◌++◌, map, append_assoc,
  append-nil,
}
use logdeck.Base.Text.{Text, truthy, trim, split_last, newline}
use logdeck.Ndjson.{
  Turn, aborted, chunk, Output, yielded, failed_line, failed_final_line, Reader, take_line,
  take_lines, take_chunk, iterate,
}
use logdeck.Base.Splitting.{
  has_newline, split_last-append, split_last-done, split_last_plain, has_unit-split_last,
}

-- The bytes of chunks that follow one another.
abbrev pub joined : List (List ℕ) → List ℕ
joined [] = []
joined (b ∷ bs) = b ++ joined bs

-- Turns at which the loop ends: there are none, or the signal is aborted.
abbrev pub Ends : List Turn → Type 0
Ends [] = Unit
Ends (aborted ∷ turns) = Unit
Ends (chunk value ∷ turns) = ⊥

-- What the platform documents of a streaming decoder: chunks may be cut anywhere, and no bytes are
-- no text.
pub record IsStreaming {D : Type 0} (decode : D → List ℕ → D × Text) : Type 0 where
  pub nothing : (d : D) → decode d [] ≡ (d, [])
  pub cut :
      (d : D) (a b : List ℕ)
      → decode d (a ++ b)
        ≡ ((decode (decode d a).0 b).0, (decode d a).1 ++ (decode (decode d a).0 b).1)

module _ {A D : Type 0} (decode : D → List ℕ → D × Text) (parse : Text → Option A) where
  -- A whole text: its lines, and the rest behind the last newline.
  abbrev pub whole : Text → List (Output A)
  whole text =
      let (lines, rest) = split_last newline [] [] text in
      take_lines decode parse lines ++ take_line decode parse failed_final_line rest

  take_lines-append :
      (xs ys : List Text)
      → take_lines decode parse (xs ++ ys)
        ≡ take_lines decode parse xs ++ take_lines decode parse ys
  unfolding take_lines
  take_lines-append [] ys = refl
  take_lines-append (x ∷ xs) ys =
      ap (λ o. take_line decode parse failed_line x ++ o) (take_lines-append xs ys)
      ∙ sym (
          append_assoc (take_line decode parse failed_line x) (take_lines decode parse xs)
            (take_lines decode parse ys))

  -- What a first part of a text gives is given first.
  whole-append :
      (s t : Text)
      → whole (s ++ t)
        ≡ take_lines decode parse (split_last newline [] [] s).0
          ++ whole ((split_last newline [] [] s).1 ++ t)
  whole-append s t =
      let rest = (split_last newline [] [] s).1 in
      let lines = (split_last newline [] [] s).0 in
      let plain = has_unit-split_last newline [] [] s refl in
      let again : split_last newline [] [] (rest ++ t) ≡ split_last newline [] rest t =
        split_last-append newline [] [] rest t
        ∙ ap (λ p. split_last newline p.0 p.1 t) (split_last_plain newline [] [] rest plain) in
      let e : split_last newline [] [] (s ++ t)
          ≡ (lines ++ (split_last newline [] rest t).0, (split_last newline [] rest t).1) =
        split_last-append newline [] [] s t ∙ split_last-done newline lines rest t in
      rw (e, again)
        (ap (λ o. o ++ take_line decode parse failed_final_line (split_last newline [] rest t).1)
            (take_lines-append lines (split_last newline [] rest t).0)
          ∙ append_assoc (take_lines decode parse lines)
              (take_lines decode parse (split_last newline [] rest t).0)
              (take_line decode parse failed_final_line (split_last newline [] rest t).1))

  whole_plain :
      (s : Text) → has_newline s ≡ false → whole s ≡ take_line decode parse failed_final_line s
  unfolding take_lines
  whole_plain s h = rw (split_last_plain newline [] [] s h) refl

  iterate_end :
      (r : Reader D) (rest : List Turn)
      → Ends rest
      → iterate decode parse rest r ≡ take_line decode parse failed_final_line r.buffer
  unfolding iterate
  iterate_end r [] ends = refl
  iterate_end r (aborted ∷ turns) ends = refl
  iterate_end r (chunk value ∷ turns) ends = absurd ends

  -- However the bytes are cut into chunks, the generator does what reading the whole text line by line
  -- does, the rest behind the last newline included. This also holds if the loop ends by an abort,
  -- for the bytes up to it.
  pub iterate-whole :
      IsStreaming decode
      → (bs : List (List ℕ)) (rest : List Turn) (r : Reader D) → has_newline r.buffer ≡ false
      → Ends rest
      → iterate decode parse (map chunk bs ++ rest) r
        ≡ whole (r.buffer ++ (decode r.decoder (joined bs)).1)
  unfolding iterate take_chunk
  iterate-whole stream [] rest r h ends =
      iterate_end r rest ends
      ∙ sym (whole_plain r.buffer h)
      ∙ ap whole (sym (ap (λ p. r.buffer ++ p.1) (stream.nothing r.decoder) ∙ append-nil r.buffer))
  iterate-whole stream (b ∷ bs) rest r h ends =
      let d = (decode r.decoder b).0 in
      let text = (decode r.decoder b).1 in
      let more = (decode d (joined bs)).1 in
      let cut = split_last newline [] [] (r.buffer ++ text) in
      let r' : Reader D = record { decoder = d; buffer = cut.1 } in
      let ih =
        iterate-whole stream bs rest r' (has_unit-split_last newline [] [] (r.buffer ++ text) refl)
          ends in
      ap (λ o. take_lines decode parse cut.0 ++ o) ih
      ∙ sym (whole-append (r.buffer ++ text) more)
      ∙ ap whole (
          append_assoc r.buffer text more
          ∙ ap (λ p. r.buffer ++ p.1) (sym (stream.cut r.decoder b (joined bs))))

  -- A line that stands for a value: one line, not blank, that parses to it.
  abbrev pub Writes : (A → Text) → Type 0
  Writes write =
      (a : A)
      → (has_newline (write a) ≡ false)
        × (truthy (trim (write a)) ≡ true)
        × (parse (write a) ≡ some a)

  abbrev pub written : (A → Text) → List A → Text
  written write [] = []
  written write (a ∷ values) = write a ++ newline ∷ written write values

  split_last_line :
      (s t : Text)
      → has_newline s ≡ false
      → split_last newline [] [] (s ++ newline ∷ t)
        ≡ (s ∷ (split_last newline [] [] t).0, (split_last newline [] [] t).1)
  split_last_line s t h =
      split_last-append newline [] [] s (newline ∷ t)
      ∙ ap (λ p. split_last newline p.0 p.1 (newline ∷ t)) (split_last_plain newline [] [] s h)
      ∙ split_last-done newline (s ∷ []) [] t

  whole-written :
      (write : A → Text)
      → Writes write
      → (values : List A) → whole (written write values) ≡ map yielded values
  unfolding take_lines take_line trim
  whole-written write w [] = refl
  whole-written write w (a ∷ values) =
      let (line, shown, back) = w a in
      rw (split_last_line (write a) (written write values) line, take_lines, take_line, shown, back)
        (ap (λ o. yielded a ∷ o) (whole-written write w values))

  -- Values written one to a line come back, all of them in order and with no failure, however the
  -- bytes of the lines are cut into chunks.
  pub iterate-written :
      IsStreaming decode
      → (write : A → Text) → Writes write
      → (values : List A) (bs : List (List ℕ)) (d : D)
      → (decode d (joined bs)).1 ≡ written write values
      → iterate decode parse (map chunk bs) (record { decoder = d; buffer = [] })
        ≡ map yielded values
  iterate-written stream write w values bs d bytes =
      ap (λ ts. iterate decode parse ts (record { decoder = d; buffer = [] }))
        (sym (append-nil (map chunk bs)))
      ∙ iterate-whole stream bs [] (record { decoder = d; buffer = [] }) refl tt
      ∙ ap whole bytes
      ∙ whole-written write w values
