-- ===== src/PtyHost/Lines/Tests.antt =====
-- Two messages over three chunks, each split within its text.
use threadbase_streamer.Prelude.{ℕ, ◌≡◌, refl, List, [], ◌∷◌, Bool, true, false, ◌==◌, All}
use threadbase_streamer.PtyHost.Lines.{newline, is_text, new_line_decoder, encode_message}
use threadbase_streamer.PtyHost.Lines.Chunks.{IsStringify, push_all, push_all-encode_message}

-- `[]` and `{}`.
abbrev braces : Bool → List ℕ
braces true = 91 ∷ 93 ∷ []
braces false = 123 ∷ 125 ∷ []

braces-texts : (m : Bool) → is_text (braces m) ≡ true
braces-texts true = refl
braces-texts false = refl

braces-one_line : (m : Bool) → All (λ c. (c == newline) ≡ false) (braces m)
braces-one_line true = (refl, (refl, tt))
braces-one_line false = (refl, (refl, tt))

braces-IsStringify : IsStringify braces
braces-IsStringify = record { texts = braces-texts; one_line = braces-one_line }

push_all-encode_message_example :
    push_all new_line_decoder ((91 ∷ []) ∷ (93 ∷ 10 ∷ 123 ∷ []) ∷ (125 ∷ 10 ∷ []) ∷ [])
    ≡ (new_line_decoder, (91 ∷ 93 ∷ []) ∷ (123 ∷ 125 ∷ []) ∷ [])
unfolding encode_message
push_all-encode_message_example =
    push_all-encode_message braces braces-IsStringify (true ∷ false ∷ [])
      ((91 ∷ []) ∷ (93 ∷ 10 ∷ 123 ∷ []) ∷ (125 ∷ 10 ∷ []) ∷ []) refl
