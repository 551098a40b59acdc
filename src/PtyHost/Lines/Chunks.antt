-- ===== src/PtyHost/Lines/Chunks.antt =====
-- The decoder does not depend on where the socket splits the text.
use mathlib.Core.List.{append-nil, append_assoc}
use threadbase_streamer.Prelude.{
  ℕ, ◌≡◌, refl, sym, ap, ◌∙◌, List, [], ◌∷◌, ◌++◌, Bool, true, false, ◌==◌, keep_if, Bool-cases,
  inl, inr, All, arith, map,
}
use threadbase_streamer.PtyHost.Lines.{
  newline, split, pop, parts, is_text, LineDecoder, new_line_decoder, push, encode_message,
}

-- A unit that ends no line is the first of the first line, or of the tail where there is none.
abbrev grow : ℕ → List (List ℕ) × List ℕ → List (List ℕ) × List ℕ
grow c ([], tail) = ([], c ∷ tail)
grow c (line ∷ lines, tail) = ((c ∷ line) ∷ lines, tail)

abbrev also : List (List ℕ) → List (List ℕ) × List ℕ → List (List ℕ) × List ℕ
also lines r = (lines ++ r.0, r.1)

pop-grow :
    (c : ℕ) (first : List ℕ) (rest : List (List ℕ)) → pop (c ∷ first) rest ≡ grow c (pop first rest)
unfolding pop
pop-grow c first [] = refl
pop-grow c first (next ∷ rest) = refl

parts-line :
    (c : ℕ) (cs : List ℕ) → (c == newline) ≡ true → parts (c ∷ cs) ≡ also ([] ∷ []) (parts cs)
unfolding split pop
parts-line c cs h = rw h refl

parts-grow : (c : ℕ) (cs : List ℕ) → (c == newline) ≡ false → parts (c ∷ cs) ≡ grow c (parts cs)
unfolding split
parts-grow c cs h = rw h (pop-grow c (split cs).0 (split cs).1)

grow-also :
    (c : ℕ) (r : List (List ℕ) × List ℕ) (more : List ℕ)
    → (c == newline) ≡ false
    → grow c (also r.0 (parts (r.1 ++ more))) ≡ also (grow c r).0 (parts ((grow c r).1 ++ more))
grow-also c ([], tail) more h = sym (parts-grow c (tail ++ more) h)
grow-also c (line ∷ lines, tail) more h = refl

-- The parts of a text with more behind it: the complete lines stay, and the tail goes on.
parts-append : (xs ys : List ℕ) → parts (xs ++ ys) ≡ also (parts xs).0 (parts ((parts xs).1 ++ ys))
unfolding split pop
parts-append [] ys = refl
parts-append (c ∷ cs) ys = elim (Bool-cases (c == newline)) [
  | inl h ↦
      parts-line c (cs ++ ys) h
      ∙ (ap (also ([] ∷ [])) (parts-append cs ys)
          ∙ sym (ap (λ r. also r.0 (parts (r.1 ++ ys))) (parts-line c cs h)))
  | inr h ↦
      parts-grow c (cs ++ ys) h
      ∙ (ap (grow c) (parts-append cs ys)
          ∙ (grow-also c (parts cs) ys h
              ∙ sym (ap (λ r. also r.0 (parts (r.1 ++ ys))) (parts-grow c cs h))))
]

grow-tail :
    (c : ℕ) (r : List (List ℕ) × List ℕ)
    → (c == newline) ≡ false
    → parts r.1 ≡ ([], r.1)
    → parts (grow c r).1 ≡ ([], (grow c r).1)
grow-tail c ([], tail) h whole = parts-grow c tail h ∙ ap (grow c) whole
grow-tail c (line ∷ lines, tail) h whole = whole

-- What follows the last newline has no complete line.
tail-parts : (xs : List ℕ) → parts (parts xs).1 ≡ ([], (parts xs).1)
unfolding split pop
tail-parts [] = refl
tail-parts (c ∷ cs) = elim (Bool-cases (c == newline)) [
  | inl h ↦ rw (parts-line c cs h) (tail-parts cs)
  | inr h ↦ rw (parts-grow c cs h) (grow-tail c (parts cs) h (tail-parts cs))
]

-- The chunks that a socket hands on, one after the other, and all lines that come of them.
unfoldable pub push_all : LineDecoder → List (List ℕ) → LineDecoder × List (List ℕ)
push_all decoder [] = (decoder, [])
push_all decoder (chunk ∷ chunks) =
    let r = push decoder chunk in let rest = push_all r.0 chunks in (rest.0, r.1 ++ rest.1)

abbrev pub joined : List (List ℕ) → List ℕ
joined [] = []
joined (xs ∷ rest) = xs ++ joined rest

keep_if-append :
    {A : Type 0} (p : A → Bool) (xs ys : List A)
    → keep_if p (xs ++ ys) ≡ keep_if p xs ++ keep_if p ys
keep_if-append p [] ys = refl
keep_if-append p (x ∷ xs) ys = ground (arith, keep_if-append p xs ys)

-- All chunks give what their whole text gives at once.
push_all-joined :
    (before : List ℕ) (chunks : List (List ℕ))
    → push_all (record { buffer = (parts before).1 }) chunks
      ≡ push (record { buffer = (parts before).1 }) (joined chunks)
unfolding push_all push
push_all-joined before [] = rw (append-nil (parts before).1, tail-parts before) refl
push_all-joined before (chunk ∷ chunks) =
    let tail = (parts before).1 in
    let more = joined chunks in
    rw
      (
        push_all-joined (tail ++ chunk) chunks,
        sym (append_assoc tail chunk more),
        parts-append (tail ++ chunk) more,
        keep_if-append is_text (parts (tail ++ chunk)).0
            (parts ((parts (tail ++ chunk)).1 ++ more)).0,
      )
      refl

-- `JSON.stringify` of a message is a text without a newline.
pub record IsStringify {Message : Type 0} (stringify : Message → List ℕ) : Type 0 where
  pub texts : (message : Message) → is_text (stringify message) ≡ true
  pub one_line : (message : Message) → All (λ c. (c == newline) ≡ false) (stringify message)

parts-message :
    (line rest : List ℕ)
    → All (λ c. (c == newline) ≡ false) line
    → parts ((line ++ newline ∷ []) ++ rest) ≡ also (line ∷ []) (parts rest)
parts-message [] rest h = parts-line newline rest refl
parts-message (c ∷ cs) rest (h, hs) =
    rw (parts-grow c ((cs ++ newline ∷ []) ++ rest) h, parts-message cs rest hs) refl

module _ {Message : Type 0} (stringify : Message → List ℕ) where
  parts-encode_message :
      IsStringify stringify
      → (messages : List Message)
      → parts (joined (map (encode_message stringify) messages)) ≡ (map stringify messages, [])
  unfolding encode_message split pop
  parts-encode_message ok [] = refl
  parts-encode_message ok (message ∷ messages) =
      parts-message (stringify message) (joined (map (encode_message stringify) messages))
        (ok.one_line message)
      ∙ ap (also (stringify message ∷ [])) (parts-encode_message ok messages)

  keep_if-stringify :
      IsStringify stringify
      → (messages : List Message)
      → keep_if is_text (map stringify messages) ≡ map stringify messages
  keep_if-stringify ok [] = refl
  keep_if-stringify ok (message ∷ messages) =
      rw (ok.texts message, keep_if-stringify ok messages) refl

  push-encode_message :
      IsStringify stringify
      → (messages : List Message)
      → push new_line_decoder (joined (map (encode_message stringify) messages))
        ≡ (new_line_decoder, map stringify messages)
  unfolding push
  push-encode_message ok messages =
      rw (parts-encode_message ok messages, keep_if-stringify ok messages) refl

  -- However the socket splits the text of encoded messages, the decoder gives them all in order, and
  -- nothing is left.
  pub push_all-encode_message :
      IsStringify stringify
      → (messages : List Message) (chunks : List (List ℕ))
      → joined chunks ≡ joined (map (encode_message stringify) messages)
      → push_all new_line_decoder chunks ≡ (new_line_decoder, map stringify messages)
  unfolding split pop
  push_all-encode_message ok messages chunks h =
      push_all-joined [] chunks ∙ (ap (push new_line_decoder) h ∙ push-encode_message ok messages)
