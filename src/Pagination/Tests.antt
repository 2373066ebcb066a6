-- ===== src/Pagination/Tests.antt =====
-- A codec that the cursor can rely on, and the theorems at small tables.
use task_scheduling_platform.Base.{
  ℕ, ◌+◌, ◌*◌, ◌≤◌, ◌≡◌, ◌↔◌, refl, ap, Bool, true, Option, none, some, List, [], ◌∷◌, arith, In,
  inl, inr, find, length, ◌-◌,
}
use task_scheduling_platform.Http.{ok}
use task_scheduling_platform.Pagination.{
  Page, build_page, position_of, page_from, list_page, to_cursor,
}
use task_scheduling_platform.Pagination.Cursor.{
  Text, Codec, IsFaithful, bar, encode_cursor, decode_cursor, to_date, decode_cursor-encode_cursor,
}
use task_scheduling_platform.Pagination.Order.{order_by, IsSorted, IsKeyed}
use task_scheduling_platform.Pagination.Walk.{walk, walk_complete}
use task_scheduling_platform.Pagination.Precision.{list_page_skips}

-- Texts of one character above `|`, which base64url keeps.
abbrev print : ℕ → Text
print n = (n + 125) ∷ []

abbrev read : ℕ → Text → Option ℕ
read scale [] = none
read scale (c ∷ cs) = some ((c - 125) * scale)

abbrev plain_codec : Codec
plain_codec = record {
  to_base64url = λ t. t;
  from_base64url = λ t. t;
  to_iso_string = print;
  uuid_text = print;
  cast_timestamptz = read 1000;
  cast_uuid = read 1;
}

print-plain : (n : ℕ) → ¬ In bar (print n)
print-plain n (inl e) = omega arith
print-plain n (inr m) = m

plain_codec-IsFaithful : IsFaithful plain_codec
plain_codec-IsFaithful = record {
  base64url = λ t. refl;
  base64url_some = λ c t h. ground arith;
  iso_some = λ t h. ground arith;
  iso_plain = print-plain;
  uuid_some = λ i h. ground arith;
  uuid_plain = print-plain;
  cast_iso = λ t. ap some (omega arith);
  cast_uuid_text = λ i. ap some (omega arith);
}

-- A row: its creation time and its id.
abbrev Row : Type 0
Row = ℕ × ℕ

abbrev created_at : Row → ℕ
created_at r = r.0

abbrev id : Row → ℕ
id r = r.1

decode_cursor-encode_cursor_example :
    decode_cursor plain_codec (encode_cursor plain_codec 5000 7)
    ≡ some (print (to_date 5000), print 7)
decode_cursor-encode_cursor_example =
    decode_cursor-encode_cursor plain_codec 5000 7 plain_codec-IsFaithful

abbrev table : List Row
table = (3000, 1) ∷ (5000, 2) ∷ (3000, 4) ∷ []

abbrev any : Row → Bool
any r = true

table-IsKeyed : IsKeyed created_at id table
table-IsKeyed = (λ y m e. ground arith, (λ y m e. ground arith, (λ y m e. ground arith, tt)))

service : Unit {0}
unfolding list_page page_from position_of build_page order_by decode_cursor encode_cursor
service = tt

sorted_few : length (find any (order_by created_at id table)) ≤ 3
unfolding service
sorted_few = omega arith

walk_complete_example :
    (rows : List Row) × (walk plain_codec created_at id any 2 table 4 none ≡ ok rows)
    × IsSorted created_at id rows
    × ((row : Row) → In row rows ↔ (In row table × (any row ≡ true)))
walk_complete_example =
    walk_complete plain_codec created_at id any 2 table 3 plain_codec-IsFaithful (omega arith)
      (λ row m. ground arith) table-IsKeyed sorted_few

abbrev first_page : Page Row
first_page = page_from plain_codec created_at id any 2 table none

first_served : list_page plain_codec created_at id any 2 none table ≡ ok first_page
unfolding service
first_served = refl

from_start : position_of plain_codec created_at id none ≡ ok none
unfolding service
from_start = refl

newest : In (5000, 2) first_page.rows
unfolding service
newest = inl refl

-- Two rows of one millisecond.
abbrev close_rows : List Row
close_rows = (3900, 1) ∷ (3500, 2) ∷ []

abbrev second_page : Page Row
second_page =
    page_from plain_codec created_at id any 1 close_rows
      (some (record { created_at = 3000; id = 1 }))

second_served :
    list_page plain_codec created_at id any 1
      (some (to_cursor plain_codec created_at id (3900, 1)))
      close_rows
    ≡ ok second_page
unfolding service
second_served = refl

list_page_skips_example : ¬ In (3500, 2) second_page.rows
list_page_skips_example =
    list_page_skips plain_codec created_at id any 1 close_rows (3900, 1) (3500, 2) second_page
      plain_codec-IsFaithful refl refl (omega arith) second_served
