-- ===== src/Sessions/Store/Paging.antt =====
-- `paginate` (src/session-store.ts): the listing filtered, sorted and cut at a cursor. Dates are
-- texts of one width, so the order of the texts of two dates is `locale_compare`'s.
pub mod Boundary
pub mod Pages
pub mod Tests
use threadbase_streamer.Prelude.{
  ℕ, zero, suc, ◌+◌, ◌-◌, ◌/◌, ◌%◌, List, [], ◌∷◌, Option, none, some, Bool, true, false, not, ◌&&◌,
  ◌||◌, ◌==◌, ltb, String, str_eq, ◌<>◌, length, take, drop, get_elem?, keep_if, if◌then◌else◌,
}
use threadbase_streamer.Prelude.Comparison.{Comparison, before, same, after, flip, or_then}
use threadbase_streamer.Sessions.Store.{SessionStatus, running, waiting_input, idle, SessionStore}
use threadbase_streamer.Sessions.Store.Listing.{SessionResponse, View, list_sessions}

pub data SessionSortKey : Type 0 where
  by_started_at by_last_activity_at by_project_name by_status : SessionSortKey

pub data SortOrder : Type 0 where
  asc desc : SortOrder

-- The value of the sort key of a session, and its id.
pub record SessionCursor : Type 0 where
  pub k : String
  pub id : String

-- What a parsed cursor has in a field: a text, a number with the text that it prints as, or
-- something else.
pub data CursorField : Type 0 where
  text number : String → CursorField
  other : CursorField

pub record ParsedCursor : Type 0 where
  pub k : CursorField
  pub id : CursorField

-- What the platform does with texts: `localeCompare`, `toISOString` of a number of milliseconds,
-- and the cursor's base64url of JSON. A text that is not JSON is none, and JSON that is no object
-- is some none.
pub record Platform : Type 0 where
  pub locale_compare : String → String → Comparison
  pub iso_string : ℕ → String
  pub print_cursor : SessionCursor → String
  pub parse_cursor : String → Option (Option ParsedCursor)

pub record SessionListQuery : Type 0 where
  pub statuses : List SessionStatus
  pub sort_by : SessionSortKey
  pub order : SortOrder
  pub limit : ℕ
  pub cursor : Option String

pub record SessionListPage : Type 0 where
  pub sessions : List SessionResponse
  pub next_cursor : Option String
  pub total : ℕ

abbrev digit : ℕ → String
digit d =
    if d == 0
    then "0"
    else if d == 1
    then "1"
    else if d == 2
    then "2"
    else if d == 3
    then "3"
    else if d == 4
    then "4"
    else if d == 5
    then "5"
    else if d == 6
    then "6"
    else if d == 7
    then "7"
    else if d == 8
    then "8"
    else "9"

-- `String(n).padStart(w, "0")` for a number of at most `w` digits.
pad_start : ℕ → ℕ → String
pad_start zero n = ""
pad_start (suc w) n = pad_start w (n / 10) <> digit (n % 10)

abbrev last_active : SessionResponse → ℕ
last_active s = elim s.last_activity_at [ none ↦ s.started_at | some at ↦ at ]

abbrev rank : SessionStatus → String
rank idle = "1"
rank _ = "0"

-- `statusSortValue`, for times up to 10^15 ms.
unfoldable pub status_sort_value : SessionResponse → String
unfolding pad_start
status_sort_value s = rank s.status <> (":" <> pad_start 16 (1_000_000_000_000_000 - last_active s))

-- `getSortValue`: always a text.
unfoldable pub get_sort_value : Platform → SessionSortKey → SessionResponse → String
unfolding status_sort_value
get_sort_value platform by_started_at s = platform.iso_string s.started_at
get_sort_value platform by_last_activity_at s = platform.iso_string (last_active s)
get_sort_value platform by_project_name s = s.project_name
get_sort_value platform by_status s = status_sort_value s

-- `cmp * dir`.
abbrev pub directed : SortOrder → Comparison → Comparison
directed asc c = c
directed desc c = flip c

-- `makeComparator`.
abbrev pub comparator :
    Platform → SessionSortKey → SortOrder → SessionResponse → SessionResponse → Comparison
comparator platform key order a b =
    or_then
      (directed order
        (platform.locale_compare (get_sort_value platform key a) (get_sort_value platform key b)))
      (platform.locale_compare a.id b.id)

module _ {A : Type 0} (c : A → A → Comparison) where
  -- A stable insertion sort: in front of the first element that is not before it.
  insert : A → List A → List A
  insert x [] = x ∷ []
  insert x (y ∷ ys) = elim (c x y) [ after ↦ y ∷ insert x ys | _ ↦ x ∷ y ∷ ys ]

  unfoldable pub sort : List A → List A
  unfolding insert
  sort [] = []
  sort (x ∷ xs) = insert x (sort xs)

-- `findCursorBoundary`: the index of the first element after the cursor.
unfoldable pub find_cursor_boundary :
    Platform → List SessionResponse → SessionCursor → SessionSortKey → SortOrder → ℕ
find_cursor_boundary platform [] cursor key order = 0
find_cursor_boundary platform (item ∷ items) cursor key order =
    elim (or_then
      (directed order (platform.locale_compare (get_sort_value platform key item) cursor.k))
      (platform.locale_compare item.id cursor.id)) [
        | after ↦ 0
        | _ ↦ suc (find_cursor_boundary platform items cursor key order)
      ]

field_text : CursorField → Option String
field_text (text s) = some s
field_text (number s) = some s
field_text other = none

id_text : CursorField → Option String
id_text (text s) = some s
id_text _ = none

checked : Option String → Option String → Option SessionCursor
checked (some k) (some id) = some (record { k = k; id = id })
checked _ _ = none

-- `decodeCursor`: none where it throws INVALID_CURSOR.
unfoldable pub decode_cursor : Platform → String → Option SessionCursor
unfolding field_text id_text checked
decode_cursor platform s = elim (platform.parse_cursor s) [
  | none ↦ none
  | some none ↦ none
  | some (some parsed) ↦ checked (field_text parsed.k) (id_text parsed.id)
]

abbrev status_eq : SessionStatus → SessionStatus → Bool
status_eq running running = true
status_eq waiting_input waiting_input = true
status_eq idle idle = true
status_eq _ _ = false

abbrev has_status : List SessionStatus → SessionStatus → Bool
has_status [] s = false
has_status (x ∷ xs) s = status_eq x s || has_status xs s

-- No status in the query asks for all.
abbrev pub filtered : List SessionStatus → List SessionResponse → List SessionResponse
filtered [] all = all
filtered (x ∷ xs) all = keep_if (λ s. has_status (x ∷ xs) s.status) all

abbrev pub page_at : Platform → SessionListQuery → List SessionResponse → ℕ → SessionListPage
page_at platform query sorted start =
    let page = take query.limit (drop start sorted) in
    record {
      sessions = page;
      next_cursor = elim (get_elem? page (length page - 1)) [
        | none ↦ none
        | some last ↦
            if ltb (start + length page) (length sorted)
            then some (
                platform.print_cursor
                  (record { k = get_sort_value platform query.sort_by last; id = last.id }))
            else none
      ];
      total = length sorted;
    }

abbrev pub sorted_for : Platform → SessionListQuery → List SessionResponse → List SessionResponse
sorted_for platform query all =
    sort (comparator platform query.sort_by query.order) (filtered query.statuses all)

abbrev pub start_at : Platform → SessionListQuery → List SessionResponse → SessionCursor → ℕ
start_at platform query sorted cursor =
    find_cursor_boundary platform sorted cursor query.sort_by query.order

-- The page of a listing. An empty cursor is none.
unfoldable pub paginate_list :
    Platform → SessionListQuery → List SessionResponse → Option SessionListPage
paginate_list platform query all =
    let sorted = sorted_for platform query all in
    elim query.cursor [
      | none ↦ some (page_at platform query sorted 0)
      | some s ↦
          if str_eq s ""
          then some (page_at platform query sorted 0)
          else elim (decode_cursor platform s) [
            | none ↦ none
            | some cursor ↦
                some (page_at platform query sorted (start_at platform query sorted cursor))
          ]
    ]

-- `paginate`: none where the cursor is refused.
unfoldable pub paginate :
    Platform → View → SessionStore → ℕ → SessionListQuery → Option SessionListPage
unfolding paginate_list
paginate platform view store now query = paginate_list platform query (list_sessions view store now)
