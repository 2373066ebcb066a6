-- ===== src/Base/Writes.antt =====
-- What a query finds after a write: a saved row, an inserted row, a bulk update.
use Prim.Native.Nat.{ℕ}
use mathlib.Core.Path.{◌≡◌, refl}
use mathlib.Core.Logic.{inl, inr}
use mathlib.Core.Bool.{Bool, true, false}
use mathlib.Core.Option.{none, some}
use mathlib.Core.List.{List, [], ◌∷◌, ◌++◌}
use native.Mathlib.Omega.{arith}
use task_scheduling_platform.Base.Rows.{In, find_one, find, update_where, save_row, delete_where}

module _ {A : Type 0} where
  pub find_one-save_row :
      (p : A → Bool) (key : A → ℕ) (row : A) (xs : List A) {a : A}
      → find_one p xs ≡ some a
      → key a ≡ key row
      → p row ≡ true
      → find_one p (save_row key row xs) ≡ some row
  find_one-save_row p key row [] h e k = cc
  find_one-save_row p key row (x ∷ xs) {a} h e k =
      ground (arith, find_one-save_row p key row xs {a = a})

  pub find_one-append :
      (p : A → Bool) (xs ys : List A) {a : A}
      → find_one p xs ≡ some a
      → find_one p (xs ++ ys) ≡ some a
  find_one-append p [] ys h = cc
  find_one-append p (x ∷ xs) ys {a} h = ground (arith, find_one-append p xs ys {a = a})

  -- A bulk update after which no updated row passes its own test leaves no row that does.
  pub find-update_where :
      (p : A → Bool) (f : A → A) (xs : List A)
      → ((a : A) → p (f a) ≡ false)
      → find p (update_where p f xs) ≡ []
  find-update_where p f [] h = refl
  find-update_where p f (x ∷ xs) h = ground (arith, h x, find-update_where p f xs h)

  -- A query is not touched by an update of rows that it does not return, before and after.
  pub find_one-update_where :
      (p q : A → Bool) (f : A → A) (xs : List A)
      → ((a : A) → In a xs → q a ≡ true → p a ≡ false)
      → ((a : A) → In a xs → q a ≡ true → p (f a) ≡ false)
      → find_one p (update_where q f xs) ≡ find_one p xs
  find_one-update_where p q f [] h k = refl
  find_one-update_where p q f (x ∷ xs) h k = ground (
    arith,
    h x (inl refl),
    k x (inl refl),
    find_one-update_where p q f xs (λ a m. h a (inr m)) (λ a m. k a (inr m)),
  )

  pub find_one-delete_where_other :
      (p q : A → Bool) (xs : List A)
      → ((a : A) → In a xs → q a ≡ true → p a ≡ false)
      → find_one p (delete_where q xs) ≡ find_one p xs
  find_one-delete_where_other p q [] h = refl
  find_one-delete_where_other p q (x ∷ xs) h =
      ground (arith, h x (inl refl), find_one-delete_where_other p q xs (λ a m. h a (inr m)))

  -- A deletion of every row that a query returns.
  pub find_one-delete_where_all :
      (p q : A → Bool) (xs : List A)
      → ((a : A) → In a xs → p a ≡ true → q a ≡ true)
      → find_one p (delete_where q xs) ≡ none
  find_one-delete_where_all p q [] h = refl
  find_one-delete_where_all p q (x ∷ xs) h =
      ground (arith, h x (inl refl), find_one-delete_where_all p q xs (λ a m. h a (inr m)))
