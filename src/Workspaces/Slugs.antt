-- ===== src/Workspaces/Slugs.antt =====
-- common/utils/slugify.util.ts, over code points. `lower` is `toLowerCase`.
pub mod Shape
use task_scheduling_platform.Base.{
  ℕ, suc, zero, Bool, true, false, not, ◌&&◌, ◌||◌, List, [], ◌∷◌, ◌++◌, leb, ◌==◌, if◌then◌else◌,
  take,
}
use mathlib.Core.List.{reverse}

abbrev pub dash : ℕ
dash = b'-'

-- `[a-z0-9]`
abbrev pub is_slug_char : ℕ → Bool
is_slug_char c = leb b'a' c && leb c b'z' || leb b'0' c && leb c b'9'

-- The white space and line ends that `trim` removes.
abbrev is_space : ℕ → Bool
is_space c =
    c == 32
    || leb 9 c && leb c 13
    || c == 0xa0
    || c == 0x1680
    || leb 0x2000 c && leb c 0x200a
    || c == 0x2028
    || c == 0x2029
    || c == 0x202f
    || c == 0x205f
    || c == 0x3000
    || c == 0xfeff

abbrev pub drop_while : (ℕ → Bool) → List ℕ → List ℕ
drop_while p [] = []
drop_while p (c ∷ cs) = let rest = drop_while p cs in if p c then rest else c ∷ cs

abbrev pub drop_while_end : (ℕ → Bool) → List ℕ → List ℕ
drop_while_end p cs = reverse (drop_while p (reverse cs))

abbrev trim : List ℕ → List ℕ
trim cs = drop_while_end is_space (drop_while is_space cs)

-- `.replace(/[^a-z0-9]+/g, '-')`: `within` says that a run was begun, whose dash is written.
unfoldable pub hyphenate : Bool → List ℕ → List ℕ
hyphenate within [] = []
hyphenate within (c ∷ cs) =
    let plain = c ∷ hyphenate false cs in
    let run = hyphenate true cs in
    if is_slug_char c then plain else if within then run else dash ∷ run

abbrev pub is_dash : ℕ → Bool
is_dash c = c == dash

abbrev pub or_default : List ℕ → List ℕ
or_default [] = b'w' ∷ b'o' ∷ b'r' ∷ b'k' ∷ b's' ∷ b'p' ∷ b'a' ∷ b'c' ∷ b'e' ∷ []
or_default (c ∷ cs) = c ∷ cs

-- the pattern `^-+|-+$` removed
abbrev strip_dashes : List ℕ → List ℕ
strip_dashes cs = drop_while_end is_dash (drop_while is_dash cs)

unfoldable pub slugify : (List ℕ → List ℕ) → List ℕ → List ℕ
unfolding hyphenate
slugify lower input =
    or_default
      (drop_while_end is_dash (take 60 (strip_dashes (hyphenate false (trim (lower input))))))
