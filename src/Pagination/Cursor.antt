-- ===== src/Pagination/Cursor.antt =====
-- encodeCursor and decodeCursor of common/pagination/pagination.util.ts.
use task_scheduling_platform.Base.{
  ℕ, ◌*◌, ◌/◌, ◌≡◌, ◌≢◌, refl, Option, none, some, List, [], ◌∷◌, ◌++◌, ◌==◌, if◌then◌else◌, arith,
  In, inr,
}
use task_scheduling_platform.World.{Uuid, Instant, Micros}

abbrev pub Text : Type 0
Text = List ℕ

-- What the cursor relies on of Node's Buffer, of Date, and of the casts in the database.
pub record Codec : Type 0 where
  pub to_base64url : Text → Text
  pub from_base64url : Text → Text
  pub to_iso_string : Instant → Text
  pub uuid_text : Uuid → Text
  pub cast_timestamptz : Text → Option Micros
  pub cast_uuid : Text → Option Uuid

abbrev pub bar : ℕ
bar = b'|'

-- Base64url gives back what it was given, and is not empty unless that was; a printed instant and a
-- printed uuid are not empty and hold no `|`, and the casts read them back.
pub record IsFaithful (codec : Codec) : Type 0 where
  pub base64url : (t : Text) → codec.from_base64url (codec.to_base64url t) ≡ t
  pub base64url_some : (c : ℕ) (t : Text) → codec.to_base64url (c ∷ t) ≢ []
  pub iso_some : (t : Instant) → codec.to_iso_string t ≢ []
  pub iso_plain : (t : Instant) → ¬ In bar (codec.to_iso_string t)
  pub uuid_some : (i : Uuid) → codec.uuid_text i ≢ []
  pub uuid_plain : (i : Uuid) → ¬ In bar (codec.uuid_text i)
  pub cast_iso : (t : Instant) → codec.cast_timestamptz (codec.to_iso_string t) ≡ some (t * 1000)
  pub cast_uuid_text : (i : Uuid) → codec.cast_uuid (codec.uuid_text i) ≡ some i

-- The sort key that a cursor stands for.
pub record Position : Type 0 where
  pub created_at : Micros
  pub id : Uuid

-- The driver reads a `timestamptz` into a Date, which keeps whole milliseconds.
abbrev pub to_date : Micros → Instant
to_date t = t / 1000

unfoldable pub encode_cursor : Codec → Micros → Uuid → Text
encode_cursor codec created_at id =
    codec.to_base64url (codec.to_iso_string (to_date created_at) ++ bar ∷ codec.uuid_text id)

-- The text up to the first `|`.
abbrev first_part : Text → Text
first_part [] = []
first_part (c ∷ cs) = let rest = first_part cs in if c == bar then [] else c ∷ rest

-- The text behind the first `|`, or undefined.
abbrev after_bar : Text → Option Text
after_bar [] = none
after_bar (c ∷ cs) = let rest = after_bar cs in if c == bar then some cs else rest

abbrev both : Text → Option Text → Option (Text × Text)
both [] id = none
both (c ∷ cs) none = none
both (c ∷ cs) (some []) = none
both (c ∷ cs) (some (d ∷ ds)) = some (c ∷ cs, d ∷ ds)

-- `const [createdAt, id] = text.split('|')`
abbrev second_part : Option Text → Option Text
second_part none = none
second_part (some rest) = some (first_part rest)

unfoldable pub decode_cursor : Codec → Text → Option (Text × Text)
decode_cursor codec cursor =
    let text = codec.from_base64url cursor in both (first_part text) (second_part (after_bar text))

first_part-append : (s t : Text) → ¬ In bar s → first_part (s ++ bar ∷ t) ≡ s
first_part-append [] t h = refl
first_part-append (c ∷ s) t h = ground (arith, h, first_part-append s t (λ m. h (inr m)))

after_bar-append : (s t : Text) → ¬ In bar s → after_bar (s ++ bar ∷ t) ≡ some t
after_bar-append [] t h = refl
after_bar-append (c ∷ s) t h = ground (arith, h, after_bar-append s t (λ m. h (inr m)))

first_part_plain : (s : Text) → ¬ In bar s → first_part s ≡ s
first_part_plain [] h = refl
first_part_plain (c ∷ s) h = ground (arith, h, first_part_plain s (λ m. h (inr m)))

both-some : (s t : Text) → s ≢ [] → t ≢ [] → both s (some t) ≡ some (s, t)
both-some [] t h k = absurd (h refl)
both-some (c ∷ s) [] h k = absurd (k refl)
both-some (c ∷ s) (d ∷ t) h k = refl

-- decode ∘ encode gives the printed creation time, cut to milliseconds, and the printed id.
pub decode_cursor-encode_cursor :
    (codec : Codec) (created_at : Micros) (id : Uuid)
    → IsFaithful codec
    → decode_cursor codec (encode_cursor codec created_at id)
      ≡ some (codec.to_iso_string (to_date created_at), codec.uuid_text id)
unfolding decode_cursor encode_cursor
decode_cursor-encode_cursor codec created_at id laws =
    let iso = codec.to_iso_string (to_date created_at) in
    let uuid = codec.uuid_text id in
    simp
      (
        laws.base64url,
        first_part-append iso uuid (laws.iso_plain _),
        after_bar-append iso uuid (laws.iso_plain _),
        first_part_plain uuid (laws.uuid_plain _),
      )
      (both-some iso uuid (laws.iso_some _) (laws.uuid_some _))

append-ne : (s t : Text) (c : ℕ) → (d : ℕ) × (u : Text) × (s ++ c ∷ t ≡ d ∷ u)
append-ne [] t c = (c, t, refl)
append-ne (d ∷ s) t c = (d, s ++ c ∷ t, refl)

pub encode_cursor-ne :
    (codec : Codec) (created_at : Micros) (id : Uuid)
    → IsFaithful codec
    → encode_cursor codec created_at id ≢ []
unfolding encode_cursor
encode_cursor-ne codec created_at id laws =
    let (d, u, e) = append-ne (codec.to_iso_string (to_date created_at)) (codec.uuid_text id) bar in
    rw (e, encode_cursor) (laws.base64url_some d u)
