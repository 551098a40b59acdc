-- ===== src/Sessions/Store/Paging/Boundary.antt =====
-- A consistent comparator sorts strictly, and a cursor at a session of the sorted list has its
-- boundary right behind it.
use mathlib.Core.List.{Perm}
use mathlib.Core.List.Perm
use threadbase_streamer.Prelude.{suc, ◌≡◌, ◌≢◌, refl, List, [], ◌∷◌, ◌++◌, arith, length, All}
use threadbase_streamer.Prelude.Comparison.{
  Comparison, before, same, after, IsOrder, self, flipped-IsOrder, pulled-IsOrder, or_then-IsOrder,
}
use threadbase_streamer.Sessions.Store.Listing.{SessionResponse}
use threadbase_streamer.Sessions.Store.Paging.{
  SessionSortKey, SortOrder, asc, desc, Platform, SessionCursor, get_sort_value, directed,
  comparator, insert, sort, find_cursor_boundary,
}

module _ {A : Type 0} (c : A → A → Comparison) where
  -- Every element comes before all that follow it.
  abbrev pub Ascending : List A → Type 0
  Ascending [] = Unit
  Ascending (x ∷ xs) = All (λ y. c x y ≡ before) xs × Ascending xs

  -- No two elements are alike for the comparator.
  abbrev pub Apart : List A → Type 0
  Apart [] = Unit
  Apart (x ∷ xs) = All (λ y. c x y ≢ same) xs × Apart xs

  All-insert {κ} : (P : A → Type κ) (x : A) (ys : List A) → P x → All P ys → All P (insert c x ys)
  unfolding insert
  All-insert P x [] h t = (h, t)
  All-insert P x (y ∷ ys) h (p, t) =
      elim (c x y) as (λ r. All P (elim r [ after ↦ y ∷ insert c x ys | _ ↦ x ∷ y ∷ ys ])) [
        | after ↦ (p, All-insert P x ys h t)
        | _ ↦ (h, (p, t))
      ]

  pub All-sort {κ} : (P : A → Type κ) (xs : List A) → All P xs → All P (sort c xs)
  unfolding sort
  All-sort P [] h = tt
  All-sort P (x ∷ xs) (h, t) = All-insert P x (sort c xs) h (All-sort P xs t)

  insert-perm : (x : A) (ys : List A) → Perm (insert c x ys) (x ∷ ys)
  unfolding insert
  insert-perm x [] = Perm.rfl
  insert-perm x (y ∷ ys) =
      elim (c x y)
        as (λ r. Perm (elim r [ after ↦ y ∷ insert c x ys | _ ↦ x ∷ y ∷ ys ]) (x ∷ y ∷ ys)) [
          | after ↦ Perm.trans (Perm.cons y (insert-perm x ys)) (Perm.swap x y ys)
          | _ ↦ Perm.rfl
        ]

  -- Sorting keeps what is there.
  pub sort-perm : (xs : List A) → Perm (sort c xs) xs
  unfolding sort
  sort-perm [] = Perm.rfl
  sort-perm (x ∷ xs) = Perm.trans (insert-perm x (sort c xs)) (Perm.cons x (sort-perm xs))

module _ {A : Type 0} {c : A → A → Comparison} (o : IsOrder c) where
  All-trans :
      (x y : A) (zs : List A)
      → c x y ≡ before
      → All (λ z. c y z ≡ before) zs
      → All (λ z. c x z ≡ before) zs
  All-trans x y [] h t = tt
  All-trans x y (z ∷ zs) h (p, t) = (o.trans x y z h p, All-trans x y zs h t)

  insert-Ascending :
      (x : A) (ys : List A)
      → All (λ y. c x y ≢ same) ys
      → Ascending c ys
      → Ascending c (insert c x ys)
  unfolding insert
  insert-Ascending x [] d a = (tt, tt)
  insert-Ascending x (y ∷ ys) (p, d) (b, a) =
      (elim (c x y)
          as (λ r.
            c x y ≡ r → Ascending c (elim r [ after ↦ y ∷ insert c x ys | _ ↦ x ∷ y ∷ ys ])) [
              | before ↦ λ e. ((e, All-trans x y ys e b), (b, a))
              | same ↦ λ e. absurd (p e)
              | after ↦ λ e. (
                All-insert c (λ z. c y z ≡ before) x ys (ground (arith, o.swap x y)) b,
                insert-Ascending x ys d a,
              )
            ])
        refl

  -- Sorting puts elements that are apart in strict order.
  pub sort-Ascending : (xs : List A) → Apart c xs → Ascending c (sort c xs)
  unfolding sort
  sort-Ascending [] d = tt
  sort-Ascending (x ∷ xs) (p, d) =
      insert-Ascending x (sort c xs) (All-sort c (λ y. c x y ≢ same) xs p) (sort-Ascending xs d)

abbrev pub cursor_of : Platform → SessionSortKey → SessionResponse → SessionCursor
cursor_of platform key s = record { k = get_sort_value platform key s; id = s.id }

module _ (platform : Platform) (locale : IsOrder platform.locale_compare) where
  directed-IsOrder :
      {A : Type 0} {c : A → A → Comparison} (order : SortOrder)
      → IsOrder c
      → IsOrder (λ x y. directed order (c x y))
  directed-IsOrder asc o = o
  directed-IsOrder desc o = flipped-IsOrder o

  pub comparator-IsOrder :
      (key : SessionSortKey) (order : SortOrder) → IsOrder (comparator platform key order)
  comparator-IsOrder key order =
      or_then-IsOrder (directed-IsOrder order (pulled-IsOrder locale (get_sort_value platform key)))
        (pulled-IsOrder locale (λ (s : SessionResponse). s.id))

  -- What follows in the order is right behind the boundary.
  boundary_here :
      (key : SessionSortKey) (order : SortOrder) (last : SessionResponse)
      (post : List SessionResponse)
      → All (λ y. comparator platform key order last y ≡ before) post
      → find_cursor_boundary platform post (cursor_of platform key last) key order ≡ 0
  unfolding find_cursor_boundary
  boundary_here key order last [] h = refl
  boundary_here key order last (y ∷ post) (h, t) =
      ground (arith, (comparator-IsOrder key order).swap last y)

  before_last :
      (key : SessionSortKey) (order : SortOrder) (x : SessionResponse) (pre : List SessionResponse)
      (last : SessionResponse) (post : List SessionResponse)
      → All (λ y. comparator platform key order x y ≡ before) (pre ++ last ∷ post)
      → comparator platform key order x last ≡ before
  before_last key order x [] last post (h, t) = h
  before_last key order x (y ∷ pre) last post (h, t) = before_last key order x pre last post t

  pub boundary_behind :
      (key : SessionSortKey) (order : SortOrder) (pre : List SessionResponse)
      (last : SessionResponse) (post : List SessionResponse)
      → Ascending (comparator platform key order) (pre ++ last ∷ post)
      → find_cursor_boundary platform (pre ++ last ∷ post) (cursor_of platform key last) key order
        ≡ suc (length pre)
  unfolding find_cursor_boundary
  boundary_behind key order [] last post (h, t) =
      ground (arith, self (comparator-IsOrder key order) last, boundary_here key order last post h)
  boundary_behind key order (x ∷ pre) last post (h, t) =
      ground
        (arith, before_last key order x pre last post h, boundary_behind key order pre last post t)
