-- ===== src/Sessions/Store/Paging/Tests.antt =====
-- Texts compared by their lengths, with a cursor that is written character by character.
use Prim.Native.Char.{Char, code}
use threadbase_streamer.Prelude.{
  ℕ, suc, ◌≡◌, refl, List, [], ◌∷◌, Option, none, some, false, String, str_eq, arith, length, ◌==◌,
  eq_iff, ap, Bool-cases, inl, inr, if◌then◌else◌,
}
use threadbase_streamer.Prelude.Comparison.{compare_ℕ, compare_ℕ-IsOrder, pulled-IsOrder}
use threadbase_streamer.Sessions.Store.{running, idle}
use threadbase_streamer.Sessions.Store.Listing.{SessionResponse, managed_to_response}
use threadbase_streamer.Sessions.Store.Tests.{live}
use threadbase_streamer.Sessions.Store.Paging.{
  Platform, ParsedCursor, SessionListQuery, text, by_project_name, desc, comparator, filtered,
  get_sort_value, sorted_for,
}
use threadbase_streamer.Sessions.Store.Paging.Boundary.{Ascending}
use threadbase_streamer.Sessions.Store.Paging.Pages.{IsPlatform, read_all, read_all-Complete}
use mathlib.Core.List.{Perm}

abbrev width : String → ℕ
width String.[] = 0
width (String.◌∷◌ c s) = suc (width s)

-- Each character of the key behind an "a", then a "b" and the id.
print : String → String → String
print String.[] id = String.◌∷◌ "b" id
print (String.◌∷◌ c s) id = String.◌∷◌ "a" (String.◌∷◌ c (print s id))

push : Char → Option (String × String) → Option (String × String)
push c none = none
push c (some (k, id)) = some (String.◌∷◌ c k, id)

parse : String → Option (String × String)
parse String.[] = none
parse (String.◌∷◌ t String.[]) = if code t == b'b' then some ("", "") else none
parse (String.◌∷◌ t (String.◌∷◌ x r)) =
    if code t == b'b' then some ("", String.◌∷◌ x r) else push x (parse r)

parse-print : (k id : String) → parse (print k id) ≡ some (k, id)
unfolding parse print push
parse-print String.[] String.[] = refl
parse-print String.[] (String.◌∷◌ c s) = refl
parse-print (String.◌∷◌ c k) id = rw (parse-print k id)

not_empty : (c : Char) (s : String) → str_eq (String.◌∷◌ c s) "" ≡ false
not_empty c s = elim (Bool-cases (str_eq (String.◌∷◌ c s) "")) [
  | inl h ↦
      let e : suc (width s) ≡ 0 = ap width ((eq_iff (String.◌∷◌ c s) "").0 h) in
      absurd (omega arith)
  | inr h ↦ h
]

print_visible : (k id : String) → str_eq (print k id) "" ≡ false
unfolding print
print_visible String.[] id = not_empty "b" id
print_visible (String.◌∷◌ c k) id = not_empty "a" (String.◌∷◌ c (print k id))

abbrev wrap : Option (String × String) → Option (Option ParsedCursor)
wrap none = none
wrap (some (k, id)) = some (some (record { k = text k; id = text id }))

abbrev platform : Platform
platform = record {
  locale_compare = λ a b. compare_ℕ (width a) (width b);
  iso_string = λ ms. "";
  print_cursor = λ c. print c.k c.id;
  parse_cursor = λ s. wrap (parse s);
}

platform-IsPlatform : IsPlatform platform
platform-IsPlatform = record {
  locale = pulled-IsOrder compare_ℕ-IsOrder width;
  parsed = λ c. rw (parse-print c.k c.id);
  visible = λ c. print_visible c.k c.id;
}

abbrev one : SessionResponse
one = managed_to_response live false false 10

abbrev listing : List SessionResponse
listing = one ∷ record one { id = "s10" } ∷ record one { id = "s100"; status = idle } ∷ []

abbrev query : SessionListQuery
query = record {
  statuses = running ∷ [];
  sort_by = by_project_name;
  order = desc;
  limit = 1;
  cursor = none;
}

read_all-Complete_example :
    (result : List SessionResponse) × (read_all platform query listing
        (suc (length (sorted_for platform query listing)))
      ≡ some result)
    × Ascending (comparator platform query.sort_by query.order) result
    × Perm result (filtered query.statuses listing)
unfolding managed_to_response get_sort_value
read_all-Complete_example =
    read_all-Complete platform query listing platform-IsPlatform (omega arith) (ground arith)
