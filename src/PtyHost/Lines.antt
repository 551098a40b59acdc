-- ===== src/PtyHost/Lines.antt =====
-- src/pty-host/protocol.ts: messages as lines of JSON over a socket that splits its text anywhere.
-- A text is the list of its code units; `JSON.stringify` is a parameter.
pub mod Chunks
pub mod Tests
use threadbase_streamer.Prelude.{
  ℕ, List, [], ◌∷◌, ◌++◌, Bool, true, false, not, ◌==◌, if◌then◌else◌, keep_if,
}

abbrev pub newline : ℕ
newline = 10

-- `text.split("\n")`: the first part and the others.
unfoldable pub split : List ℕ → List ℕ × List (List ℕ)
split [] = ([], [])
split (c ∷ cs) =
    let rest = split cs in if c == newline then ([], rest.0 ∷ rest.1) else (c ∷ rest.0, rest.1)

-- `lines.pop()`: the parts before the last, and the last.
unfoldable pub pop : List ℕ → List (List ℕ) → List (List ℕ) × List ℕ
pop first [] = ([], first)
pop first (next ∷ rest) = let r = pop next rest in (first ∷ r.0, r.1)

abbrev pub is_text : List ℕ → Bool
is_text [] = false
is_text (c ∷ cs) = true

pub record LineDecoder : Type 0 where
  pub buffer : List ℕ

abbrev pub new_line_decoder : LineDecoder
new_line_decoder = record { buffer = [] }

abbrev pub parts : List ℕ → List (List ℕ) × List ℕ
parts text = let s = split text in pop s.0 s.1

-- `push`: the decoder afterwards, and the complete lines that are not empty.
unfoldable pub push : LineDecoder → List ℕ → LineDecoder × List (List ℕ)
push decoder chunk =
    let r = parts (decoder.buffer ++ chunk) in (record { buffer = r.1 }, keep_if is_text r.0)

module _ {Message : Type 0} (stringify : Message → List ℕ) where
  unfoldable pub encode_message : Message → List ℕ
  encode_message message = stringify message ++ newline ∷ []
