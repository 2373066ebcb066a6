-- ===== src/Pagination/Precision.antt =====
-- The cursor holds a Date, which has milliseconds, and the column has microseconds.
use task_scheduling_platform.Base.{
  ℕ, suc, ◌/◌, ◌%◌, ◌<◌, ◌≡◌, Bool, true, Option, some, List, arith, In, In-find, In-take, find,
  ltb, length, Bool-cases, inl, inr,
}
use task_scheduling_platform.Http.{ok, Result-cases}
use task_scheduling_platform.Pagination.{
  Page, build_page, seek_from, position_of, page_from, list_page, to_cursor,
}
use task_scheduling_platform.Pagination.Cursor.{Text, Codec, IsFaithful, Position}
use task_scheduling_platform.Pagination.Order.{order_by, precedes, In-order_by}
use task_scheduling_platform.Pagination.Walk.{position_of_row}

In-build_page :
    {A : Type 0} (rows : List A) (limit : ℕ) (f : A → Text) (x : A)
    → In x (build_page rows limit f).rows
    → In x rows
unfolding build_page
In-build_page rows limit f x m = elim (Bool-cases (ltb limit (length rows))) [
  | inl e ↦ In-take limit rows x (rw e at m)
  | inr e ↦ rw e at m
]

module _ {A : Type 0} (codec : Codec) (created_at id : A → ℕ) (matches : A → Bool) (limit : ℕ)
    (table : List A) where
  In-page_from :
      (from : Option Position) (x : A)
      → In x (page_from codec created_at id matches limit table from).rows
      → In x table × (matches x ≡ true) × (seek_from codec created_at id from x ≡ true)
  unfolding page_from
  In-page_from from x m =
      let sorted = order_by created_at id table in
      let in_take = In-build_page _ limit (to_cursor codec created_at id) x m in
      let (in_found, after) =
        In-find (seek_from codec created_at id from) (find matches sorted)
          (In-take (suc limit) _ x in_take) in
      let (in_sorted, fits) = In-find matches sorted in_found in
      ((In-order_by created_at id x table).0 in_sorted, fits, after)

  -- A page holds rows of the table that match the filter and come after the cursor.
  pub In-list_page :
      (cursor : Option Text) (from : Option Position) (page : Page A) (x : A)
      → position_of codec created_at id cursor ≡ ok from
      → list_page codec created_at id matches limit cursor table ≡ ok page
      → In x page.rows
      → In x table × (matches x ≡ true) × (seek_from codec created_at id from x ≡ true)
  unfolding list_page
  In-list_page cursor from page x at h m =
      let same : page_from codec created_at id matches limit table from ≡ page = ground arith in
      In-page_from from x (rw (← same) at m)

  -- The same without the cursor's position: a page that is returned at all had one.
  pub In-list_page_rows :
      (cursor : Option Text) (page : Page A) (x : A)
      → list_page codec created_at id matches limit cursor table ≡ ok page
      → In x page.rows
      → In x table × (matches x ≡ true)
  unfolding list_page
  In-list_page_rows cursor page x h m =
      elim (Result-cases (position_of codec created_at id cursor)) [
        | inl (from, at) ↦ let (k, fits, _) = In-list_page cursor from page x at h m in (k, fits)
        | inr (e, failed) ↦ absurd (ground arith)
      ]

-- The page behind the row `x` leaves out every row `y` that follows `x` in the order but was
-- created in the same millisecond and not exactly at its start.
pub list_page_skips :
    {A : Type 0} (codec : Codec) (created_at id : A → ℕ) (matches : A → Bool) (limit : ℕ)
    (table : List A) (x y : A) (page : Page A)
    → IsFaithful codec
    → precedes created_at id x y ≡ true
    → created_at x / 1000 ≡ created_at y / 1000
    → 0 < created_at y % 1000
    → list_page codec created_at id matches limit (some (to_cursor codec created_at id x)) table
      ≡ ok page
    → ¬ In y page.rows
list_page_skips codec created_at id matches limit table x y page laws after same_ms inside h m =
    let (_, _, behind) =
      In-list_page codec created_at id matches limit table _ _ page y
        (position_of_row codec created_at id matches limit table x laws) h m in
    ground arith
