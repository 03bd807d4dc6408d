-- ===== src/Ndjson/Tests.antt =====
-- A stream of two flags, one to a line, cut at awkward places.
use logdeck.Base.{
  ℕ, Bool, true, false, ◌≡◌, refl, Option, none, some, List, [], ◌∷◌, ◌++◌, map, nat_eq,
  if◌then◌else◌,
}
use logdeck.Base.Text.{Text, codes, newline, trim}
use logdeck.Ndjson.{aborted, chunk, yielded, failed_line, Reader, iterate}
use logdeck.Ndjson.Chunks.{IsStreaming, whole, Writes, iterate-whole, iterate-written}

-- A decoder for ASCII, and `JSON.parse` on digits.
abbrev decode : ℕ → List ℕ → ℕ × Text
decode d bytes = (d, bytes)

abbrev digit : ℕ → Option Bool
digit c = if nat_eq c 48 then some false else if nat_eq c 49 then some true else none

abbrev parse : Text → Option Bool
parse [] = none
parse (c ∷ []) = digit c
parse (c ∷ d ∷ s) = none

abbrev write : Bool → Text
write true = codes "1"
write false = codes "0"

abbrev start : Reader ℕ
start = record { decoder = 0; buffer = [] }

decode-IsStreaming : IsStreaming decode
decode-IsStreaming = record { nothing = λ d. refl; cut = λ d a b. refl }

write-Writes : Writes decode parse write
unfolding trim
write-Writes true = (refl, refl, refl)
write-Writes false = (refl, refl, refl)

abbrev chunks : List (List ℕ)
chunks = codes "1" ∷ [] ∷ (newline ∷ codes "0") ∷ (newline ∷ []) ∷ []

run_of_chunks :
    iterate decode parse (chunk (codes "x") ∷ chunk (newline ∷ codes "1") ∷ aborted ∷ []) start
    ≡ failed_line (codes "x") ∷ yielded true ∷ []
unfolding iterate trim
run_of_chunks = refl

iterate-whole_example :
    iterate decode parse (map chunk chunks ++ aborted ∷ chunk (codes "1") ∷ []) start
    ≡ whole decode parse (codes "1" ++ newline ∷ codes "0" ++ newline ∷ [])
iterate-whole_example =
    iterate-whole decode parse decode-IsStreaming chunks (aborted ∷ chunk (codes "1") ∷ []) start
      refl tt

iterate-written_example :
    iterate decode parse (map chunk chunks) start ≡ yielded true ∷ yielded false ∷ []
iterate-written_example =
    iterate-written decode parse decode-IsStreaming write write-Writes (true ∷ false ∷ []) chunks 0
      refl
