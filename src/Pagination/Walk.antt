-- ===== src/Pagination/Walk.antt =====
-- A client that follows `meta.nextCursor` from page to page.
use task_scheduling_platform.Base.{
  ℕ, zero, suc, ◌*◌, ◌/◌, ◌%◌, ◌≤◌, ◌<◌, ◌≡◌, ◌≢◌, ◌↔◌, refl, sym, ap, ◌∙◌, Bool, true, Option,
  none, some, List, [], ◌∷◌, ◌++◌, arith, In, In-append, inl, inr, subst, find-true, find,
  find-In_iff, length, ltb, Bool-cases, IsCut, cut, take_all, take-take-suc, length-take_eq,
  append_assoc,
}
use task_scheduling_platform.Http.{Result, ok, err}
use task_scheduling_platform.Pagination.{
  build_page, seek_from, cast, position_of, page_from, list_page,
}
use task_scheduling_platform.Pagination.Cursor.{
  Text, Codec, IsFaithful, Position, encode_cursor, decode_cursor, decode_cursor-encode_cursor,
  encode_cursor-ne,
}
use task_scheduling_platform.Pagination.Order.{
  order_by, IsSorted, IsKeyed, In-order_by, order_by-IsSorted, find-IsSorted, find_after,
}

abbrev pub prepend : {A : Type 0} → List A → Result (List A) → Result (List A)
prepend xs (ok ys) = ok (xs ++ ys)
prepend xs (err e) = err e

module _ {A : Type 0} (codec : Codec) (created_at id : A → ℕ) (matches : A → Bool) (limit : ℕ)
    (table : List A) where
  -- The rows of all pages, one request for each round.
  pub walk : ℕ → Option Text → Result (List A)
  walk zero cursor = ok []
  walk (suc rounds) cursor = elim (list_page codec created_at id matches limit cursor table) [
    | err e ↦ err e
    | ok page ↦ elim page.meta.next_cursor [
      | none ↦ ok page.rows
      | some next ↦ prepend page.rows (walk rounds (some next))
    ]
  ]

  abbrev found : List A
  found = find matches (order_by created_at id table)

  abbrev key : A → Position
  key row = record { created_at = created_at row; id = id row }

  position_of-text :
      (t : Text)
      → t ≢ []
      → position_of codec created_at id (some t) ≡ cast codec created_at id (decode_cursor codec t)
  unfolding position_of
  position_of-text [] h = absurd (h refl)
  position_of-text (c ∷ t) h = refl

  -- A cursor is read back as the row's sort key, with the creation time cut to milliseconds.
  pub position_of_row :
      (row : A)
      → IsFaithful codec
      → position_of codec created_at id (some (encode_cursor codec (created_at row) (id row)))
        ≡ ok (some (record { created_at = created_at row / 1000 * 1000; id = id row }))
  position_of_row row laws =
      rw
        (
          position_of-text _ (encode_cursor-ne codec (created_at row) (id row) laws),
          decode_cursor-encode_cursor codec (created_at row) (id row) laws,
        )
        (ground (arith, laws.cast_iso (created_at row / 1000), laws.cast_uuid_text (id row)))

  position_of_cursor :
      (row : A)
      → IsFaithful codec
      → created_at row % 1000 ≡ 0
      → position_of codec created_at id (some (encode_cursor codec (created_at row) (id row)))
        ≡ ok (some (key row))
  position_of_cursor row laws whole =
      let exact : created_at row / 1000 * 1000 ≡ created_at row = omega arith in
      rw exact at (position_of_row row laws)

  last_page :
      (rounds : ℕ) (cursor : Option Text) (from : Option Position) (rest : List A)
      → position_of codec created_at id cursor ≡ ok from
      → find (seek_from codec created_at id from) found ≡ rest
      → length rest ≤ limit
      → walk (suc rounds) cursor ≡ ok rest
  unfolding walk list_page page_from build_page
  last_page rounds cursor from rest at left few =
      ground (arith, take_all (suc limit) rest (omega arith))

  -- The page ends at the row `c.at`, and the next request asks for what follows it.
  next_page :
      (rounds : ℕ) (cursor : Option Text) (from : Option Position) (rest : List A)
      → position_of codec created_at id cursor ≡ ok from
      → find (seek_from codec created_at id from) found ≡ rest
      → limit < length rest
      → (c : IsCut limit rest)
      → walk (suc rounds) cursor
        ≡ prepend
            (c.front ++ c.at ∷ [])
            (walk rounds (some (encode_cursor codec (created_at c.at) (id c.at))))
  unfolding walk list_page page_from build_page
  next_page rounds cursor from rest at left more c =
      ground (arith, take-take-suc limit rest, length-take_eq (suc limit) rest more, c.page, c.end)

  -- What a walk from `cursor` still has to return, and where it stands in `found`.
  walk_rest :
      (rounds : ℕ) (cursor : Option Text) (from : Option Position) (before rest : List A)
      → IsFaithful codec
      → 0 < limit
      → ((row : A) → In row found → created_at row % 1000 ≡ 0)
      → IsSorted created_at id found
      → found ≡ before ++ rest
      → position_of codec created_at id cursor ≡ ok from
      → find (seek_from codec created_at id from) found ≡ rest
      → length rest ≤ rounds
      → walk (suc rounds) cursor ≡ ok rest
  walk_rest zero cursor from before rest laws some_limit whole sorted split at left enough =
      last_page zero cursor from rest at left (omega arith)
  walk_rest (suc rounds) cursor from before rest laws some_limit whole sorted split at left enough =
      elim (Bool-cases (ltb limit (length rest))) [
        | inr few ↦ last_page (suc rounds) cursor from rest at left (ground arith)
        | inl more ↦
            let c : IsCut limit rest = cut limit rest some_limit (ground arith) in
            let parts : found ≡ (before ++ c.front) ++ c.at ∷ c.rest =
              split ∙ ap (λ t. before ++ t) c.whole ∙ sym (append_assoc before c.front _) in
            let member : In c.at found =
              subst (In c.at) (sym parts)
                ((In-append c.at (before ++ c.front) (c.at ∷ c.rest)).1 (inr (inl refl))) in
            let pages =
              walk_rest rounds (some (encode_cursor codec (created_at c.at) (id c.at)))
                (some (key c.at)) ((before ++ c.front) ++ c.at ∷ []) c.rest laws some_limit whole
                sorted (parts ∙ sym (append_assoc (before ++ c.front) (c.at ∷ []) c.rest))
                (position_of_cursor c.at laws (whole c.at member))
                (rw parts
                  (find_after created_at id (before ++ c.front) c.at c.rest (rw parts at sorted)))
                (omega (arith, c.shorter)) in
            next_page (suc rounds) cursor from rest at left (ground arith) c
            ∙ rw pages (ap ok (append_assoc c.front (c.at ∷ []) c.rest ∙ sym c.whole))
      ]

  In-found : (row : A) → In row found ↔ (In row table × (matches row ≡ true))
  In-found row = ground (
    arith,
    find-In_iff matches (order_by created_at id table) {x = row},
    In-order_by created_at id row table,
  )

  found_all : find (seek_from codec created_at id none) found ≡ found
  found_all = find-true found

-- Following the cursors from the first page returns every matching row exactly once, newest first:
-- the result is the sorted list of the matching rows. The creation times are whole milliseconds,
-- the ids differ, the limit is at least 1, and there is a request for each row at hand.
pub walk_complete :
    {A : Type 0} (codec : Codec) (created_at id : A → ℕ) (matches : A → Bool) (limit : ℕ)
    (table : List A) (rounds : ℕ)
    → IsFaithful codec
    → 0 < limit
    → ((row : A) → In row table → created_at row % 1000 ≡ 0)
    → IsKeyed created_at id table
    → length (find matches (order_by created_at id table)) ≤ rounds
    → (rows : List A) × (walk codec created_at id matches limit table (suc rounds) none ≡ ok rows)
      × IsSorted created_at id rows
      × ((row : A) → In row rows ↔ (In row table × (matches row ≡ true)))
unfolding position_of
walk_complete codec created_at id matches limit table rounds laws some_limit whole keyed enough =
    let sorted =
      find-IsSorted created_at id matches _ (order_by-IsSorted created_at id table keyed) in
    (
      find matches (order_by created_at id table),
      walk_rest codec created_at id matches limit table rounds none none [] _ laws some_limit
          (λ row m. whole row ((In-found codec created_at id matches limit table row).0 m).0) sorted
          refl refl (found_all codec created_at id matches limit table) enough,
      sorted,
      In-found codec created_at id matches limit table,
    )
