-- ===== src/Ndjson.antt =====
-- `iterateNDJSONStream` of frontend/src/lib/ndjson.ts: values from the lines of a byte stream.
pub mod Chunks
mod Tests
use logdeck.Base.{ℕ, Option, none, some, List, [], ◌∷◌, ◌++◌, if◌then◌else◌}
use logdeck.Base.Text.{Text, truthy, trim, split_last, newline}

-- What a turn of the loop meets: a signal that is aborted, or a chunk of the stream.
pub data Turn : Type 0 where
  aborted : Turn
  chunk : List ℕ → Turn

-- What the generator does: it yields a value, or reports a line that does not parse.
pub data Output (A : Type 0) : Type 0 where
  yielded : A → Output A
  failed_line : Text → Output A
  failed_final_line : Text → Output A

pub record Reader (D : Type 0) : Type 0 where
  pub decoder : D
  pub buffer : Text

-- `decode` is `TextDecoder.decode` with `{ stream: true }`, on the decoder's own state, and `parse` is
-- `JSON.parse`, which gives `none` where it throws.
module _ {A D : Type 0} (decode : D → List ℕ → D × Text) (parse : Text → Option A) where
  abbrev parsed : Output A → Option A → List (Output A)
  parsed failure none = failure ∷ []
  parsed failure (some a) = yielded a ∷ []

  -- The body of the inner loop, and the block behind the outer one: they differ in the report.
  unfoldable pub take_line : (Text → Output A) → Text → List (Output A)
  take_line failure line = if truthy (trim line) then parsed (failure line) (parse line) else []

  unfoldable pub take_lines : List Text → List (Output A)
  unfolding take_line
  take_lines [] = []
  take_lines (line ∷ lines) = take_line failed_line line ++ take_lines lines

  unfoldable pub take_chunk : List ℕ → Reader D → List (Output A) × Reader D
  unfolding take_lines
  take_chunk value r =
      let (d, text) = decode r.decoder value in
      let (lines, rest) = split_last newline [] [] (r.buffer ++ text) in
      (take_lines lines, record { decoder = d; buffer = rest })

  -- The stream is done behind the last turn.
  unfoldable pub iterate : List Turn → Reader D → List (Output A)
  unfolding take_chunk take_line
  iterate [] r = take_line failed_final_line r.buffer
  iterate (aborted ∷ turns) r = take_line failed_final_line r.buffer
  iterate (chunk value ∷ turns) r = let (out, r') = take_chunk value r in out ++ iterate turns r'
