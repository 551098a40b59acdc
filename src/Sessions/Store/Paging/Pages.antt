-- ===== src/Sessions/Store/Paging/Pages.antt =====
-- The pages of a listing, read one after another by the cursors they end with.
use mathlib.Core.List.{Perm, append_assoc}
use threadbase_streamer.Prelude.{
  ℕ, zero, suc, ◌-◌, ◌≤◌, ◌<◌, ◌≡◌, refl, sym, ap, ◌∙◌, subst, List, [], ◌∷◌, ◌++◌, Option, none,
  some, false, String, str_eq, arith, length, take, drop, get_elem?, length-append, length-take,
  length-drop, take-append_length, take_of_length-le, take-append-drop, drop-append_length,
  split_last, get_elem?-append_last, Bool-cases, inl, inr, leb,
}
use threadbase_streamer.Prelude.Comparison.{IsOrder}
use threadbase_streamer.Sessions.Store.Listing.{SessionResponse}
use threadbase_streamer.Sessions.Store.Paging.{
  Platform, SessionCursor, SessionListQuery, SessionListPage, comparator, find_cursor_boundary,
  decode_cursor, page_at, sorted_for, filtered, paginate_list, text, field_text, id_text, checked,
}
use threadbase_streamer.Sessions.Store.Paging.Boundary.{
  Ascending, Apart, cursor_of, sort-Ascending, sort-perm, comparator-IsOrder, boundary_behind,
}

-- What the listing relies on: `localeCompare` is consistent, and a cursor's text is not empty and
-- gives the cursor back.
pub record IsPlatform (platform : Platform) : Type 0 where
  pub locale : IsOrder platform.locale_compare
  pub parsed :
      (c : SessionCursor)
      → platform.parse_cursor (platform.print_cursor c)
        ≡ some (some (record { k = text c.k; id = text c.id }))
  pub visible : (c : SessionCursor) → str_eq (platform.print_cursor c) "" ≡ false

abbrev prepend :
    List SessionResponse → Option (List SessionResponse) → Option (List SessionResponse)
prepend xs none = none
prepend xs (some ys) = some (xs ++ ys)

last_of :
    (init : List SessionResponse) (last : SessionResponse)
    → get_elem? (init ++ last ∷ []) (length (init ++ last ∷ []) - 1) ≡ some last
last_of init last =
    ap (get_elem? (init ++ last ∷ [])) (omega (arith, length-append init (last ∷ [])))
    ∙ get_elem?-append_last init last

module _ (platform : Platform) (query : SessionListQuery) (all : List SessionResponse) where
  -- What a client has that asks for the next page until there is none.
  unfoldable pub follow : ℕ → SessionListPage → Option (List SessionResponse)
  follow zero page = none
  follow (suc fuel) page = elim page.next_cursor [
    | none ↦ some page.sessions
    | some next ↦ elim (paginate_list platform (record query { cursor = some next }) all) [
      | none ↦ none
      | some p ↦ prepend page.sessions (follow fuel p)
    ]
  ]

  unfoldable pub read_all : ℕ → Option (List SessionResponse)
  unfolding follow
  read_all fuel = elim (paginate_list platform (record query { cursor = none }) all) [
    | none ↦ none
    | some p ↦ follow fuel p
  ]

  abbrev sorted : List SessionResponse
  sorted = sorted_for platform query all

  follow-end :
      (fuel : ℕ) (page : SessionListPage)
      → page.next_cursor ≡ none
      → follow (suc fuel) page ≡ some page.sessions
  unfolding follow
  follow-end fuel page e = ground arith

  follow-next :
      (fuel : ℕ) (page p : SessionListPage) (next : String) (ys : List SessionResponse)
      → page.next_cursor ≡ some next
      → paginate_list platform (record query { cursor = some next }) all ≡ some p
      → follow fuel p ≡ some ys
      → follow (suc fuel) page ≡ some (page.sessions ++ ys)
  unfolding follow
  follow-next fuel page p next ys e h k = ground arith

  module _ (ok : IsPlatform platform) where
    -- The cursor of a session is read back, and the page begins at its boundary.
    resumed :
        (last : SessionResponse)
        → paginate_list platform
            (record query {
              cursor = some (platform.print_cursor (cursor_of platform query.sort_by last));
            })
            all
          ≡ some (
              page_at platform query sorted (
                find_cursor_boundary platform sorted
                  (cursor_of platform query.sort_by last)
                  query.sort_by
                  query.order))
    unfolding paginate_list decode_cursor field_text id_text checked
    resumed last = ground (
      arith,
      ok.parsed (cursor_of platform query.sort_by last),
      ok.visible (cursor_of platform query.sort_by last),
    )

    -- A page that reaches the end has no cursor.
    page_end :
        (start : ℕ)
        → length (drop start sorted) ≤ query.limit
        → start ≤ length sorted
        → (page_at platform query sorted start).next_cursor ≡ none
    page_end start h k =
        ground (arith, length-take query.limit (drop start sorted), length-drop start sorted)

    -- A page that does not has the cursor of its last session.
    page_next :
        (start : ℕ) (last : SessionResponse)
        → query.limit < length (drop start sorted)
        → get_elem?
            (take query.limit (drop start sorted))
            (length (take query.limit (drop start sorted)) - 1)
          ≡ some last
        → (page_at platform query sorted start).next_cursor
          ≡ some (platform.print_cursor (cursor_of platform query.sort_by last))
    page_next start last h e =
        ground (arith, length-take query.limit (drop start sorted), length-drop start sorted)

    module _ (positive : 1 ≤ query.limit)
        (strict : Ascending (comparator platform query.sort_by query.order) sorted) where
      behind :
          (pre init : List SessionResponse) (last : SessionResponse) (post : List SessionResponse)
          → sorted ≡ pre ++ ((init ++ last ∷ []) ++ post)
          → find_cursor_boundary platform sorted
              (cursor_of platform query.sort_by last)
              query.sort_by
              query.order
            ≡ length (pre ++ (init ++ last ∷ []))
      behind pre init last post e =
          let order = comparator platform query.sort_by query.order in
          let cut : sorted ≡ (pre ++ init) ++ last ∷ post = e ∙ simp append_assoc in
          ap
            (λ t.
              find_cursor_boundary platform t (cursor_of platform query.sort_by last) query.sort_by
                query.order)
            cut
          ∙ (boundary_behind platform ok.locale query.sort_by query.order (pre ++ init) last post
                (subst (λ t. Ascending order t) cut strict)
              ∙ omega (
                arith,
                length-append pre init,
                length-append pre (init ++ last ∷ []),
                length-append init (last ∷ []),
              ))

      -- The page from `pre` on ends with `last`, and more follows.
      follow_more :
          (fuel : ℕ) (pre init : List SessionResponse) (last : SessionResponse)
          (post : List SessionResponse)
          → sorted ≡ pre ++ ((init ++ last ∷ []) ++ post)
          → length (init ++ last ∷ []) ≡ query.limit
          → 0 < length post
          → follow fuel (page_at platform query sorted (length (pre ++ (init ++ last ∷ []))))
            ≡ some post
          → follow (suc fuel) (page_at platform query sorted (length pre))
            ≡ some ((init ++ last ∷ []) ++ post)
      follow_more fuel pre init last post e n more ih =
          let rest : List SessionResponse = (init ++ last ∷ []) ++ post in
          let d : drop (length pre) sorted ≡ rest =
            ap (drop (length pre)) e ∙ drop-append_length (length pre) pre rest refl in
          let chunk : take query.limit (drop (length pre) sorted) ≡ init ++ last ∷ [] =
            ap (take query.limit) d ∙ take-append_length query.limit (init ++ last ∷ []) post n in
          let next =
            page_next (length pre) last
              (omega (arith, ap length d, length-append (init ++ last ∷ []) post))
              (ap (λ t. get_elem? t (length t - 1)) chunk ∙ last_of init last) in
          rw (← chunk) (
            follow-next fuel (page_at platform query sorted (length pre))
              (page_at platform query sorted (length (pre ++ (init ++ last ∷ []))))
              (platform.print_cursor (cursor_of platform query.sort_by last)) post next
              (resumed last
                ∙ ap (λ n. some (page_at platform query sorted n)) (behind pre init last post e))
              ih)

      follow_all :
          (fuel : ℕ) (pre rest : List SessionResponse)
          → sorted ≡ pre ++ rest
          → length rest < fuel
          → follow fuel (page_at platform query sorted (length pre)) ≡ some rest
      follow_all zero pre rest e h = elim h [ ]
      follow_all (suc fuel) pre rest e h =
          let d : drop (length pre) sorted ≡ rest =
            ap (drop (length pre)) e ∙ drop-append_length (length pre) pre rest refl in
          elim (Bool-cases (leb (length rest) query.limit)) [
            | inl short ↦
                follow-end fuel (page_at platform query sorted (length pre)) (
                  page_end (length pre) (ground (arith, ap length d))
                    (omega (arith, ap length e, length-append pre rest)))
                ∙ ap some
                    (ap (take query.limit) d ∙ take_of_length-le query.limit rest (ground arith))
            | inr long ↦
                let (init, last, s) =
                  split_last (take query.limit rest)
                    (ground (arith, length-take query.limit rest)) in
                let post : List SessionResponse = drop query.limit rest in
                let whole : (init ++ last ∷ []) ++ post ≡ rest =
                  ap (λ t. t ++ post) (sym s) ∙ take-append-drop query.limit rest in
                follow_more fuel pre init last post (e ∙ ap (λ t. pre ++ t) (sym whole))
                  (ap length (sym s) ∙ ground (arith, length-take query.limit rest))
                  (ground (arith, length-drop query.limit rest))
                  (follow_all fuel (pre ++ (init ++ last ∷ [])) post
                    (e
                      ∙ (ap (λ t. pre ++ t) (sym whole)
                          ∙ sym (append_assoc pre (init ++ last ∷ []) post)))
                    (ground (arith, length-drop query.limit rest)))
                ∙ ap some whole
          ]

  -- A client that reads page after page gets every listed session of the statuses it asks for, once
  -- each and in the order it asks for, if no two of them are alike for that order, and a page takes
  -- at least one session.
  pub read_all-Complete :
      IsPlatform platform
      → 1 ≤ query.limit
      → Apart (comparator platform query.sort_by query.order) (filtered query.statuses all)
      → (result : List SessionResponse) × (read_all (suc (length sorted)) ≡ some result)
        × Ascending (comparator platform query.sort_by query.order) result
        × Perm result (filtered query.statuses all)
  unfolding read_all paginate_list
  read_all-Complete ok positive apart =
      let order = comparator platform query.sort_by query.order in
      let strict =
        sort-Ascending (comparator-IsOrder platform ok.locale query.sort_by query.order)
          (filtered query.statuses all) apart in
      (
        sorted,
        follow_all ok positive strict (suc (length sorted)) [] sorted refl (omega arith),
        strict,
        sort-perm order (filtered query.statuses all),
      )
