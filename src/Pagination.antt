-- ===== src/Pagination.antt =====
-- common/pagination/pagination.util.ts, and the query that every list endpoint builds around it:
-- `ORDER BY created_at DESC, id DESC`, the row comparison with the cursor, and `LIMIT limit + 1`.
-- A text is the list of its code points.
pub mod Cursor
pub mod Order
pub mod Walk
pub mod Precision
mod Tests
use task_scheduling_platform.Base.{
  ℕ, zero, suc, ◌+◌, ◌*◌, ◌<◌, String, ◌≡◌, ◌≢◌, Bool, true, false, ◌&&◌, ◌||◌, Option, none, some,
  List, [], ◌∷◌, ◌++◌, ltb, ◌==◌, if◌then◌else◌, length, find, take, last,
}
use task_scheduling_platform.Http.{Result, ok, err, internal}
use Cursor.{Text, Codec, Position, encode_cursor, decode_cursor}
use Order.{order_by}

pub record PageMeta : Type 0 where
  pub limit : ℕ
  pub count : ℕ
  pub has_more : Bool
  pub next_cursor : Option Text

pub record Page (A : Type 0) : Type 0 where
  pub rows : List A
  pub meta : PageMeta

module _ {A : Type 0} where
  abbrev cursor_of : (A → Text) → Option A → Option Text
  cursor_of to_cursor none = none
  cursor_of to_cursor (some row) = some (to_cursor row)

  -- `data[data.length - 1]` of an empty page is undefined, which a limit of at least one rules out.
  unfoldable pub build_page : List A → ℕ → (A → Text) → Page A
  build_page rows limit to_cursor =
      let has_more = ltb limit (length rows) in
      let data' = if has_more then take limit rows else rows in
      record {
        rows = data';
        meta = record {
          limit = limit;
          count = length data';
          has_more = has_more;
          next_cursor = if has_more then cursor_of to_cursor (last data') else none;
        };
      }

-- A table with the two columns that the pages are sorted by.
module _ {A : Type 0} (codec : Codec) (created_at id : A → ℕ) where
  abbrev pub to_cursor : A → Text
  to_cursor row = encode_cursor codec (created_at row) (id row)

  -- `(created_at, id) < (CAST(:cc AS timestamptz), CAST(:ci AS uuid))`
  abbrev pub seek : Position → A → Bool
  seek p row =
      ltb (created_at row) p.created_at || created_at row == p.created_at && ltb (id row) p.id

  abbrev cast : Option (Text × Text) → Result (Option Position)
  cast none = ok none
  cast (some (created, row_id)) = elim (codec.cast_timestamptz created) [
    | none ↦ err (internal "invalid input syntax for type timestamp with time zone")
    | some cc ↦ elim (codec.cast_uuid row_id) [
      | none ↦ err (internal "invalid input syntax for type uuid")
      | some ci ↦ ok (some (record { created_at = cc; id = ci }))
    ]
  ]

  -- `if (query.cursor) { const decoded = decodeCursor(query.cursor); if (decoded) … }`
  unfoldable pub position_of : Option Text → Result (Option Position)
  unfolding decode_cursor
  position_of none = ok none
  position_of (some []) = ok none
  position_of (some (c ∷ cursor)) = cast (decode_cursor codec (c ∷ cursor))

  abbrev pub seek_from : Option Position → A → Bool
  seek_from none row = true
  seek_from (some p) row = seek p row

  unfoldable pub page_from : (A → Bool) → ℕ → List A → Option Position → Page A
  unfolding build_page
  page_from matches limit table from =
      build_page
        (take (suc limit) (find (seek_from from) (find matches (order_by created_at id table))))
        limit to_cursor

  unfoldable pub list_page : (A → Bool) → ℕ → Option Text → List A → Result (Page A)
  unfolding page_from position_of
  list_page matches limit cursor table = elim (position_of cursor) [
    | err e ↦ err e
    | ok from ↦ ok (page_from matches limit table from)
  ]
