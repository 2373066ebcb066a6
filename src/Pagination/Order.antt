-- ===== src/Pagination/Order.antt =====
-- `ORDER BY created_at DESC, id DESC`.
use task_scheduling_platform.Base.{
  ℕ, ◌≡◌, ◌≢◌, refl, Bool, true, false, ◌&&◌, ◌||◌, List, [], ◌∷◌, ◌++◌, ◌↔◌, ◌⊎◌, Bool-cases,
  In-append, In-find, ltb, ◌==◌, if◌then◌else◌, arith, In, inl, inr, find,
}

module _ {A : Type 0} (created_at id : A → ℕ) where
  -- `x` comes before `y`.
  abbrev pub precedes : A → A → Bool
  precedes x y =
      ltb (created_at y) (created_at x) || created_at y == created_at x && ltb (id y) (id x)

  abbrev insert : A → List A → List A
  insert x [] = x ∷ []
  insert x (y ∷ ys) = let rest = insert x ys in if precedes x y then x ∷ y ∷ ys else y ∷ rest

  unfoldable pub order_by : List A → List A
  order_by [] = []
  order_by (x ∷ xs) = insert x (order_by xs)

  abbrev pub Before : A → List A → Type 0
  Before x ys = (y : A) → In y ys → precedes x y ≡ true

  abbrev pub IsSorted : List A → Type 0
  IsSorted [] = Unit
  IsSorted (x ∷ xs) = Before x xs × IsSorted xs

  In-insert : (x y : A) (ys : List A) → In y (insert x ys) ↔ ((y ≡ x) ⊎ In y ys)
  In-insert x y [] = ground arith
  In-insert x y (z ∷ ys) = ground (arith, In-insert x y ys)

  -- The primary keys of a table differ from one another.
  abbrev pub IsKeyed : List A → Type 0
  IsKeyed [] = Unit
  IsKeyed (x ∷ xs) = ((y : A) → In y xs → id x ≢ id y) × IsKeyed xs

  precedes_total : (x y : A) → id x ≢ id y → precedes x y ≡ false → precedes y x ≡ true
  precedes_total x y h k = ground arith

  precedes_trans : (x y z : A) → precedes x y ≡ true → precedes y z ≡ true → precedes x z ≡ true
  precedes_trans x y z h k = ground arith

  Before-insert :
      (x y : A) (ys : List A) → precedes y x ≡ true → Before y ys → Before y (insert x ys)
  Before-insert x y ys h b z m = elim ((In-insert x z ys).0 m) [ inl e ↦ rw e h | inr m' ↦ b z m' ]

  Before-cons : (x y : A) (ys : List A) → precedes x y ≡ true → Before y ys → Before x (y ∷ ys)
  Before-cons x y ys h b z (inl e) = rw e h
  Before-cons x y ys h b z (inr m) = precedes_trans x y z h (b z m)

  insert-IsSorted :
      (x : A) (ys : List A)
      → ((y : A) → In y ys → id x ≢ id y)
      → IsSorted ys
      → IsSorted (insert x ys)
  insert-IsSorted x [] fresh s = (λ y m. absurd m, tt)
  insert-IsSorted x (y ∷ ys) fresh s = elim (Bool-cases (precedes x y)) [
    | inl e ↦ rw e (Before-cons x y ys e s.0, s)
    | inr e ↦ rw e (
      Before-insert x y ys (precedes_total x y (fresh y (inl refl)) e) s.0,
      insert-IsSorted x ys (λ z m. fresh z (inr m)) s.1,
    )
  ]

  pub In-order_by : (y : A) (xs : List A) → In y (order_by xs) ↔ In y xs
  unfolding order_by
  In-order_by y [] = (λ m. m, λ m. m)
  In-order_by y (x ∷ xs) = ground (arith, In-insert x y (order_by xs), In-order_by y xs)

  pub order_by-IsSorted : (xs : List A) → IsKeyed xs → IsSorted (order_by xs)
  unfolding order_by
  order_by-IsSorted [] k = tt
  order_by-IsSorted (x ∷ xs) k =
      insert-IsSorted x (order_by xs) (λ y m. k.0 y ((In-order_by y xs).0 m))
        (order_by-IsSorted xs k.1)

  pub find-IsSorted : (p : A → Bool) (xs : List A) → IsSorted xs → IsSorted (find p xs)
  find-IsSorted p [] s = tt
  find-IsSorted p (x ∷ xs) s = elim (Bool-cases (p x)) [
    | inl e ↦ rw e (λ y m. s.0 y (In-find p xs m).0, find-IsSorted p xs s.1)
    | inr e ↦ rw e (find-IsSorted p xs s.1)
  ]

  precedes_irrefl : (x : A) → precedes x x ≡ false
  precedes_irrefl x = ground arith

  precedes_asym : (x y : A) → precedes x y ≡ true → precedes y x ≡ false
  precedes_asym x y h = ground arith

  find_all : (x : A) (ys : List A) → Before x ys → find (precedes x) ys ≡ ys
  find_all x [] b = refl
  find_all x (y ∷ ys) b = rw (b y (inl refl), find_all x ys (λ z m. b z (inr m)))

  -- What a sorted list holds after its element `x`.
  pub find_after :
      (front : List A) (x : A) (rest : List A)
      → IsSorted (front ++ x ∷ rest)
      → find (precedes x) (front ++ x ∷ rest) ≡ rest
  find_after [] x rest s = rw (precedes_irrefl x, find_all x rest s.0)
  find_after (y ∷ front) x rest s =
      let first = s.0 x ((In-append x front (x ∷ rest)).1 (inr (inl refl))) in
      rw (precedes_asym y x first) (find_after front x rest s.1)
