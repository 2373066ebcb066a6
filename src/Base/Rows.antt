-- ===== src/Base/Rows.antt =====
-- A table is the list of its rows. These are the queries and writes that a repository makes of it:
-- `where` clauses are Boolean tests, and a row is addressed by its primary key.
use Prim.Native.Nat.{ℕ, zero, suc, ◌≤◌, ◌<◌, ◌≤◌, ◌<◌}
use mathlib.Core.Path.{◌≡◌, refl, ap}
use mathlib.Core.Logic.{◌⊎◌, ◌↔◌, ◌≢◌, inl, inr}
use mathlib.Core.Bool.{Bool, true, false, not, ◌||◌}
use mathlib.Core.Option.{Option, none, some}
use mathlib.Core.List.{List, [], ◌∷◌, ◌++◌}
use native.Mathlib.Omega.{arith}
use task_scheduling_platform.Base.Tests.{if◌then◌else◌, ◌==◌, Bool-cases}

-- `x` is a row of the table.
abbrev pub In : {A : Type 0} → A → List A → Type 0
In x [] = ⊥
In x (y ∷ ys) = (x ≡ y) ⊎ In x ys

module _ {A : Type 0} where
  abbrev pub length : List A → ℕ
  length [] = 0
  length (x ∷ xs) = suc (length xs)

  abbrev pub take : ℕ → List A → List A
  take zero xs = []
  take (suc n) [] = []
  take (suc n) (x ∷ xs) = x ∷ take n xs

  abbrev pub last : List A → Option A
  last [] = none
  last (x ∷ []) = some x
  last (x ∷ y ∷ xs) = last (y ∷ xs)

  abbrev pub find_one : (A → Bool) → List A → Option A
  find_one p [] = none
  find_one p (x ∷ xs) = if p x then some x else find_one p xs

  abbrev pub find : (A → Bool) → List A → List A
  find p [] = []
  find p (x ∷ xs) = let rest = find p xs in if p x then x ∷ rest else rest

  abbrev pub exists : (A → Bool) → List A → Bool
  exists p [] = false
  exists p (x ∷ xs) = p x || exists p xs

  -- `UPDATE … SET … WHERE p`
  abbrev pub update_where : (A → Bool) → (A → A) → List A → List A
  update_where p f [] = []
  update_where p f (x ∷ xs) = (if p x then f x else x) ∷ update_where p f xs

  -- `save` of a row that is in the table: the row with its key is replaced.
  abbrev pub save_row : (A → ℕ) → A → List A → List A
  save_row key row xs = update_where (λ x. key x == key row) (λ _. row) xs

  -- `DELETE … WHERE p`
  abbrev pub delete_where : (A → Bool) → List A → List A
  delete_where p xs = find (λ x. not (p x)) xs

  pub In-find_one :
      (p : A → Bool) (xs : List A) {a : A} → find_one p xs ≡ some a → In a xs × (p a ≡ true)
  In-find_one p [] h = cc
  In-find_one p (x ∷ xs) {a} h = ground (arith, In-find_one p xs {a = a})

  -- A query that finds nothing: no row satisfies the test.
  pub find_one-none :
      (p : A → Bool) (xs : List A) {x : A} → find_one p xs ≡ none → In x xs → p x ≡ false
  find_one-none p [] h m = absurd m
  find_one-none p (y ∷ xs) {x} h m = ground (arith, find_one-none p xs {x = x})

  pub exists-In : (p : A → Bool) (xs : List A) {x : A} → In x xs → p x ≡ true → exists p xs ≡ true
  exists-In p [] m h = absurd m
  exists-In p (y ∷ xs) {x} m h = ground (arith, exists-In p xs {x = x})

  pub exists-witness :
      (p : A → Bool) (xs : List A) → exists p xs ≡ true → (x : A) × In x xs × (p x ≡ true)
  exists-witness p [] h = cc
  exists-witness p (x ∷ xs) h = elim (Bool-cases (p x)) [
    | inl e ↦ (x, inl refl, e)
    | inr e ↦ let (y, m, k) = exists-witness p xs (rw e at h) in (y, inr m, k)
  ]

  pub In-find : (p : A → Bool) (xs : List A) {x : A} → In x (find p xs) → In x xs × (p x ≡ true)
  In-find p [] m = absurd m
  In-find p (y ∷ xs) {x} m = ground (arith, In-find p xs {x = x})

  pub find-In : (p : A → Bool) (xs : List A) {x : A} → In x xs → p x ≡ true → In x (find p xs)
  find-In p [] m h = absurd m
  find-In p (y ∷ xs) {x} m h = ground (arith, find-In p xs {x = x})

  pub In-append : (x : A) (xs ys : List A) → In x (xs ++ ys) ↔ (In x xs ⊎ In x ys)
  In-append x [] ys = ground arith
  In-append x (y ∷ xs) ys = ground (arith, In-append x xs ys)

  -- Where the rows of an updated table come from.
  pub In-update_where :
      (p : A → Bool) (f : A → A) (xs : List A) {x : A}
      → In x (update_where p f xs)
      → (a : A) × In a xs × (x ≡ (if p a then f a else a))
  In-update_where p f [] m = absurd m
  In-update_where p f (y ∷ xs) (inl e) = (y, inl refl, e)
  In-update_where p f (y ∷ xs) (inr m) = let (a, m', e) = In-update_where p f xs m in (a, inr m', e)

  pub update_where-In :
      (p : A → Bool) (f : A → A) (xs : List A) (a : A)
      → In a xs
      → In (if p a then f a else a) (update_where p f xs)
  update_where-In p f [] a m = absurd m
  update_where-In p f (y ∷ xs) a (inl e) = inl (ap (λ t. if p t then f t else t) e)
  update_where-In p f (y ∷ xs) a (inr m) = inr (update_where-In p f xs a m)

  -- An update that no row asks for changes nothing.
  pub update_where-none :
      (p : A → Bool) (f : A → A) (xs : List A)
      → ((a : A) → In a xs → p a ≡ true → f a ≡ a)
      → update_where p f xs ≡ xs
  update_where-none p f [] h = refl
  update_where-none p f (y ∷ xs) h =
      ground (arith, h y (inl refl), update_where-none p f xs (λ a m. h a (inr m)))

  pub find-true : (xs : List A) → find (λ x. true) xs ≡ xs
  find-true [] = refl
  find-true (x ∷ xs) = ap (λ t. x ∷ t) (find-true xs)

  pub find-In_iff :
      (p : A → Bool) (xs : List A) {x : A} → In x (find p xs) ↔ (In x xs × (p x ≡ true))
  find-In_iff p xs = (In-find p xs, λ h. find-In p xs h.0 h.1)

  pub take_all : (n : ℕ) (xs : List A) → length xs ≤ n → take n xs ≡ xs
  take_all zero [] h = refl
  take_all zero (x ∷ xs) h = elim h [ ]
  take_all (suc n) [] h = refl
  take_all (suc n) (x ∷ xs) h = ap (λ t. x ∷ t) (take_all n xs (omega arith))

  pub take-take-suc : (n : ℕ) (xs : List A) → take n (take (suc n) xs) ≡ take n xs
  take-take-suc zero xs = refl
  take-take-suc (suc n) [] = refl
  take-take-suc (suc n) (x ∷ xs) = ap (λ t. x ∷ t) (take-take-suc n xs)

  pub length-take_le : (n : ℕ) (xs : List A) → length (take n xs) ≤ n
  length-take_le zero xs = omega arith
  length-take_le (suc n) [] = omega arith
  length-take_le (suc n) (x ∷ xs) = omega (arith, length-take_le n xs)

  pub length-take_eq : (n : ℕ) (xs : List A) → n ≤ length xs → length (take n xs) ≡ n
  length-take_eq zero xs h = refl
  length-take_eq (suc n) [] h = elim h [ ]
  length-take_eq (suc n) (x ∷ xs) h = omega (arith, length-take_eq n xs)

  -- The last row of a full page, and what follows it.
  pub record IsCut (n : ℕ) (xs : List A) : Type 0 where
    pub front : List A
    pub at : A
    pub rest : List A
    pub whole : xs ≡ front ++ at ∷ rest
    pub page : take n xs ≡ front ++ at ∷ []
    pub end : last (take n xs) ≡ some at
    pub shorter : length rest < length xs

  last-cons : (x y : A) (xs : List A) → last xs ≡ some y → last (x ∷ xs) ≡ some y
  last-cons x y [] h = cc
  last-cons x y (z ∷ xs) h = h

  pub cut : (n : ℕ) (xs : List A) → 0 < n → n < length xs → IsCut n xs
  cut zero xs h k = absurd (omega arith)
  cut (suc n) [] h k = absurd (omega arith)
  cut (suc zero) (x ∷ xs) h k = record {
    front = [];
    at = x;
    rest = xs;
    whole = refl;
    page = refl;
    end = refl;
    shorter = omega arith;
  }
  cut (suc (suc n)) (x ∷ xs) h k =
      let c = cut (suc n) xs (omega arith) (omega arith) in
      record {
        front = x ∷ c.front;
        at = c.at;
        rest = c.rest;
        whole = ap (λ t. x ∷ t) c.whole;
        page = ap (λ t. x ∷ t) c.page;
        end = last-cons x c.at (take (suc n) xs) c.end;
        shorter = omega (arith, c.shorter);
      }

  pub In-take : (n : ℕ) (xs : List A) (x : A) → In x (take n xs) → In x xs
  In-take zero xs x m = absurd m
  In-take (suc n) [] x m = m
  In-take (suc n) (y ∷ xs) x m = ground (arith, In-take n xs x)

  -- The rows after a save: the saved one, and the others.
  pub In-save_row :
      (key : A → ℕ) (row : A) (xs : List A) (x : A)
      → In x (save_row key row xs)
      → (x ≡ row) ⊎ (In x xs × (key x ≢ key row))
  In-save_row key row xs x m =
      let (a, m', e) = In-update_where (λ y. key y == key row) (λ _. row) xs m in
      elim (Bool-cases (key a == key row)) [
        | inl same ↦ inl (rw same at e)
        | inr other ↦
            let kept : x ≡ a = rw other at e in inr (rw kept m', rw kept (λ h. ground arith))
      ]

  pub save_row-kept :
      (key : A → ℕ) (row : A) (xs : List A) (a : A)
      → In a xs
      → key a ≢ key row
      → In a (save_row key row xs)
  save_row-kept key row xs a m h =
      let other : (key a == key row) ≡ false = ground arith in
      rw other at (update_where-In (λ y. key y == key row) (λ _. row) xs a m)

  pub save_row-saved :
      (key : A → ℕ) (row : A) (xs : List A) (a : A)
      → In a xs
      → key a ≡ key row
      → In row (save_row key row xs)
  save_row-saved key row xs a m h =
      let same : (key a == key row) ≡ true = ground arith in
      rw same at (update_where-In (λ y. key y == key row) (λ _. row) xs a m)

  -- An inserted row stands at the end.
  pub In-snoc : (y x : A) (xs : List A) → In y (xs ++ x ∷ []) → In y xs ⊎ (y ≡ x)
  In-snoc y x xs m = elim ((In-append y xs (x ∷ [])).0 m) [
    | inl k ↦ inl k
    | inr k ↦ elim k [ inl e ↦ inr e | inr n ↦ absurd n ]
  ]

  pub snoc-In : (y x : A) (xs : List A) → In y xs ⊎ (y ≡ x) → In y (xs ++ x ∷ [])
  snoc-In y x xs (inl k) = (In-append y xs (x ∷ [])).1 (inl k)
  snoc-In y x xs (inr e) = (In-append y xs (x ∷ [])).1 (inr (inl e))
