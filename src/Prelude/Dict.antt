-- ===== src/Prelude/Dict.antt =====
-- The JavaScript `Map` with text keys: entries in the order of their first insertion, and a
-- write to a key that is there keeps the entry's place.
use Prim.Native.Nat.{◌+◌, ◌≤◌}
use Prim.Native.String.{String}
use mathlib.Core.Path.{◌≡◌, refl}
use mathlib.Core.Option.{Option, none, some}
use mathlib.Core.List.{List, [], ◌∷◌}
use native.Mathlib.Omega.{arith}
use text.Mathlib.Text.{◌==◌}
use text.Mathlib.TextEquality.{eq_iff}
use threadbase_streamer.Prelude.Tests.{if◌then◌else◌}
use threadbase_streamer.Prelude.Lists.{length}

abbrev pub Dict {ℓ} : Type ℓ → Type ℓ
Dict Value = List (String × Value)

module _ {ℓ} {Value : Type ℓ} where
  -- `map.get(key)`, `map.set(key, value)`, `map.delete(key)`.
  unfoldable pub get : Dict Value → String → Option Value
  get [] key = none
  get ((old, value) ∷ rest) key = if key == old then some value else get rest key

  unfoldable pub put : Dict Value → String → Value → Dict Value
  put [] key value = (key, value) ∷ []
  put ((old, was) ∷ rest) key value =
      if key == old then (old, value) ∷ rest else (old, was) ∷ put rest key value

  unfoldable pub remove : Dict Value → String → Dict Value
  remove [] key = []
  remove ((old, was) ∷ rest) key =
      if key == old then remove rest key else (old, was) ∷ remove rest key

  pub get-put :
      (map : Dict Value) (key : String) (value : Value) (asked : String)
      → get (put map key value) asked ≡ (if asked == key then some value else get map asked)
  unfolding get put
  get-put [] key value asked = refl
  get-put ((old, was) ∷ rest) key value asked =
      ground
        (arith, eq_iff asked key, eq_iff key old, eq_iff asked old, get-put rest key value asked)

  pub get-remove :
      (map : Dict Value) (key asked : String)
      → get (remove map key) asked ≡ (if asked == key then none else get map asked)
  unfolding get remove
  get-remove [] key asked = ground arith
  get-remove ((old, was) ∷ rest) key asked =
      ground (arith, eq_iff asked key, eq_iff key old, eq_iff asked old, get-remove rest key asked)

  pub length-remove : (map : Dict Value) (key : String) → length (remove map key) ≤ length map
  unfolding remove
  length-remove [] key = omega arith
  length-remove ((old, was) ∷ rest) key = ground (arith, length-remove rest key)

  pub length-put :
      (map : Dict Value) (key : String) (value : Value)
      → length (put map key value) ≤ length map + 1
  unfolding put
  length-put [] key value = omega arith
  length-put ((old, was) ∷ rest) key value = ground (arith, length-put rest key value)
