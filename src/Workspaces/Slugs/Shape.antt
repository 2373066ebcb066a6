-- ===== src/Workspaces/Slugs/Shape.antt =====
-- common/utils/slugify.util.ts: what a slug looks like.
use task_scheduling_platform.Base.{
  ℕ, zero, suc, ◌≤◌, ◌≡◌, ◌≢◌, refl, sym, ap, ◌∙◌, Bool, true, false, ◌||◌, Option, none, some,
  List, [], ◌∷◌, ◌++◌, arith, In, In-append, In-take, inl, inr, Bool-cases, length, take, last,
  length-take_le,
}
use mathlib.Core.List.{reverse, reverse-cons, reverse-append, reverse-reverse}
use task_scheduling_platform.Workspaces.Slugs.{
  dash, is_dash, is_slug_char, trim, drop_while, drop_while_end, strip_dashes, hyphenate,
  or_default, slugify,
}

abbrev pub first : List ℕ → Option ℕ
first [] = none
first (c ∷ cs) = some c

-- 1 to 60 characters `a-z`, `0-9` and `-`, the first and the last of which are no `-`.
pub record IsSlug (cs : List ℕ) : Type 0 where
  pub plain : (c : ℕ) → In c cs → is_slug_char c || is_dash c ≡ true
  pub nonempty : cs ≢ []
  pub short : length cs ≤ 60
  pub starts : first cs ≢ some dash
  pub ends : last cs ≢ some dash

drop_while_suffix :
    (p : ℕ → Bool) (cs : List ℕ) → (front : List ℕ) × (cs ≡ front ++ drop_while p cs)
drop_while_suffix p [] = ([], refl)
drop_while_suffix p (c ∷ cs) = elim (Bool-cases (p c)) [
  | inl h ↦ let (front, e) = drop_while_suffix p cs in rw h (c ∷ front, ap (λ t. c ∷ t) e)
  | inr h ↦ rw h ([], refl)
]

first-drop_while :
    (p : ℕ → Bool) (cs : List ℕ) (c : ℕ) → first (drop_while p cs) ≡ some c → p c ≡ false
first-drop_while p [] c h = cc
first-drop_while p (d ∷ cs) c h = ground (arith, first-drop_while p cs c)

drop_while_end_prefix :
    (p : ℕ → Bool) (cs : List ℕ) → (back : List ℕ) × (cs ≡ drop_while_end p cs ++ back)
drop_while_end_prefix p cs =
    let (front, e) = drop_while_suffix p (reverse cs) in
    (
      reverse front,
      sym (reverse-reverse cs) ∙ ap reverse e ∙ reverse-append front (drop_while p (reverse cs)),
    )

last-snoc : (cs : List ℕ) (c : ℕ) → last (cs ++ c ∷ []) ≡ some c
last-snoc [] c = refl
last-snoc (d ∷ []) c = refl
last-snoc (d ∷ e ∷ cs) c = last-snoc (e ∷ cs) c

last-reverse : (cs : List ℕ) → last (reverse cs) ≡ first cs
last-reverse [] = refl
last-reverse (c ∷ cs) = rw (reverse-cons c cs) (last-snoc (reverse cs) c)

last-drop_while_end :
    (p : ℕ → Bool) (cs : List ℕ) (c : ℕ) → last (drop_while_end p cs) ≡ some c → p c ≡ false
last-drop_while_end p cs c h =
    first-drop_while p (reverse cs) c (sym (last-reverse (drop_while p (reverse cs))) ∙ h)

first-append : (cs ds : List ℕ) (c : ℕ) → first cs ≡ some c → first (cs ++ ds) ≡ some c
first-append [] ds c h = cc
first-append (b ∷ cs) ds c h = h

length-append_le : (cs ds : List ℕ) → length cs ≤ length (cs ++ ds)
length-append_le [] ds = omega arith
length-append_le (c ∷ cs) ds = omega (arith, length-append_le cs ds)

first-take : (n : ℕ) (cs : List ℕ) (c : ℕ) → first (take n cs) ≡ some c → first cs ≡ some c
first-take zero cs c h = cc
first-take (suc n) [] c h = h
first-take (suc n) (d ∷ cs) c h = h

hyphenate-plain :
    (within : Bool) (cs : List ℕ) (c : ℕ)
    → In c (hyphenate within cs)
    → is_slug_char c || is_dash c ≡ true
unfolding hyphenate
hyphenate-plain within [] c m = absurd m
hyphenate-plain true (d ∷ cs) c m = elim (Bool-cases (is_slug_char d)) [
  | inl plain ↦ elim (rw plain at m) [
    | inl e ↦ rw (e, plain) refl
    | inr k ↦ hyphenate-plain false cs c k
  ]
  | inr other ↦ hyphenate-plain true cs c (rw other at m)
]
hyphenate-plain false (d ∷ cs) c m = elim (Bool-cases (is_slug_char d)) [
  | inl plain ↦ elim (rw plain at m) [
    | inl e ↦ rw (e, plain) refl
    | inr k ↦ hyphenate-plain false cs c k
  ]
  | inr other ↦ elim (rw other at m) [ inl e ↦ rw e refl | inr k ↦ hyphenate-plain true cs c k ]
]

In-prefix : (cs front back : List ℕ) (c : ℕ) → cs ≡ front ++ back → In c front → In c cs
In-prefix cs front back c e m = rw e ((In-append c front back).1 (inl m))

In-suffix : (cs front back : List ℕ) (c : ℕ) → cs ≡ front ++ back → In c back → In c cs
In-suffix cs front back c e m = rw e ((In-append c front back).1 (inr m))

-- The text that `or_default` replaces when it is empty.
unfoldable body : (List ℕ → List ℕ) → List ℕ → List ℕ
body lower input =
    drop_while_end is_dash (take 60 (strip_dashes (hyphenate false (trim (lower input)))))

body-plain :
    (lower : List ℕ → List ℕ) (input : List ℕ) (c : ℕ)
    → In c (body lower input)
    → is_slug_char c || is_dash c ≡ true
unfolding body
body-plain lower input c m =
    let written = hyphenate false (trim (lower input)) in
    let opened = drop_while is_dash written in
    let closed = strip_dashes written in
    let (back, e) = drop_while_end_prefix is_dash (take 60 closed) in
    let (back', e') = drop_while_end_prefix is_dash opened in
    let (front, e'') = drop_while_suffix is_dash written in
    hyphenate-plain false (trim (lower input)) c (
      In-suffix written front opened c e'' (
        In-prefix opened closed back' c e' (
          In-take 60 closed c
            (In-prefix (take 60 closed) (drop_while_end is_dash (take 60 closed)) back c e m))))

prefix-short : (n : ℕ) (cs front back : List ℕ) → take n cs ≡ front ++ back → length front ≤ n
prefix-short n cs front back e =
    let a = length-append_le front back in
    let b = length-take_le n cs in
    let k : length (take n cs) ≡ length (front ++ back) = ap length e in omega arith

body-starts :
    (lower : List ℕ → List ℕ) (input : List ℕ) (c : ℕ)
    → first (body lower input) ≡ some c
    → is_dash c ≡ false
unfolding body
body-starts lower input c h =
    let opened = drop_while is_dash (hyphenate false (trim (lower input))) in
    let closed = drop_while_end is_dash opened in
    let (back, e) = drop_while_end_prefix is_dash (take 60 closed) in
    let (back', e') = drop_while_end_prefix is_dash opened in
    first-drop_while is_dash (hyphenate false (trim (lower input))) c (
      ap first e'
      ∙ first-append closed back' c (
          first-take 60 closed c
            (ap first e ∙ first-append (drop_while_end is_dash (take 60 closed)) back c h)))

or_default-IsSlug :
    (cs : List ℕ)
    → ((c : ℕ) → In c cs → is_slug_char c || is_dash c ≡ true)
    → length cs ≤ 60
    → ((c : ℕ) → first cs ≡ some c → is_dash c ≡ false)
    → ((c : ℕ) → last cs ≡ some c → is_dash c ≡ false)
    → IsSlug (or_default cs)
or_default-IsSlug [] plain short starts ends = record {
  plain = λ c m. ground arith;
  nonempty = λ h. ground arith;
  short = omega arith;
  starts = λ h. ground arith;
  ends = λ h. ground arith;
}
or_default-IsSlug (c ∷ cs) plain short starts ends = record {
  plain = plain;
  nonempty = λ h. ground arith;
  short = short;
  starts = λ h. let k = starts dash h in ground arith;
  ends = λ h. let k = ends dash h in ground arith;
}

-- Whatever the name, its slug has 1 to 60 characters, all of them `a-z`, `0-9` or `-`, and it
-- neither starts nor ends with `-`.
pub slugify-IsSlug : (lower : List ℕ → List ℕ) (input : List ℕ) → IsSlug (slugify lower input)
unfolding slugify body
slugify-IsSlug lower input =
    let closed = strip_dashes (hyphenate false (trim (lower input))) in
    let (back, e) = drop_while_end_prefix is_dash (take 60 closed) in
    or_default-IsSlug (body lower input) (body-plain lower input)
      (prefix-short 60 closed (drop_while_end is_dash (take 60 closed)) back e)
      (body-starts lower input) (last-drop_while_end is_dash (take 60 closed))
