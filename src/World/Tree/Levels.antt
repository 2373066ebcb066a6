-- ===== src/World/Tree/Levels.antt =====
-- What a recursive query returns, against the rows that its steps reach.
use task_scheduling_platform.Base.{
  ℕ, zero, suc, ◌+◌, ◌<◌, ◌≡◌, ◌↔◌, refl, List, [], ◌∷◌, arith, In, In-append, inl, inr,
}
use task_scheduling_platform.World.Tree.{flat_map, tag, levels}

module _ {A : Type 0} (next : A → List A) where
  -- `n` steps lead from `x` to `z`.
  pub data Reaches : A → A → ℕ → Type 0 where
    here : (x : A) → Reaches x x zero
    step : {x y z : A} {n : ℕ} → In y (next x) → Reaches y z n → Reaches x z (suc n)

  pub Reaches-snoc : (x y z : A) (n : ℕ) → Reaches x y n → In z (next y) → Reaches x z (suc n)
  Reaches-snoc x y z n (here _) k = step k (here z)
  Reaches-snoc x y z n (step {y = v} {n = m} first r) k = step first (Reaches-snoc v y z m r k)

  pub In-flat_map :
      (x y : A) (rows : List A) → In x rows → In y (next x) → In y (flat_map next rows)
  In-flat_map x y [] m k = absurd m
  In-flat_map x y (z ∷ rows) (inl e) k = (In-append y (next z) _).1 (inl (rw e at k))
  In-flat_map x y (z ∷ rows) (inr m) k = (In-append y (next z) _).1 (inr (In-flat_map x y rows m k))

  pub flat_map-In :
      (y : A) (rows : List A) → In y (flat_map next rows) → (x : A) × In x rows × In y (next x)
  flat_map-In y [] m = absurd m
  flat_map-In y (z ∷ rows) m = elim ((In-append y (next z) _).0 m) [
    | inl k ↦ (z, inl refl, k)
    | inr k ↦ let (x, m', k') = flat_map-In y rows k in (x, inr m', k')
  ]

  In-tag : (x : A) (e d : ℕ) (rows : List A) → In (x, e) (tag d rows) ↔ (In x rows × (e ≡ d))
  In-tag x e d [] = ground arith
  In-tag x e d (y ∷ rows) = ground (arith, In-tag x e d rows)

  pub In-levels_start :
      (fuel d : ℕ) (x : A) (rows : List A)
      → 0 < fuel
      → In x rows
      → In (x, d) (levels fuel next d rows)
  unfolding levels
  In-levels_start zero d x rows h m = absurd (omega arith)
  In-levels_start (suc fuel) d x rows h m =
      (In-append (x, d) (tag d rows) _).1 (inl ((In-tag x d d rows).1 (m, refl)))

  -- Among the values of `D` a step lowers the measure, and the fuel is above it: the levels run out.
  module _ (D : A → Type 0) (measure : A → ℕ)
      (falls : (x y : A) → D x → In y (next x) → D y × (measure y < measure x)) where
    falls_below :
        (fuel : ℕ) (rows : List A)
        → ((x : A) → In x rows → D x × (measure x < suc fuel))
        → (y : A) → In y (flat_map next rows)
        → D y × (measure y < fuel)
    falls_below fuel rows small y m =
        let (x, m', k) = flat_map-In y rows m in
        let (dx, low) = small x m' in let (dy, lower) = falls x y dx k in (dy, omega arith)

    -- What is a step away from a row of the result is in the result, one level on.
    pub levels_closed :
        (fuel d : ℕ) (rows : List A)
        → ((x : A) → In x rows → D x × (measure x < fuel))
        → (x y : A) (e : ℕ) → In (x, e) (levels fuel next d rows)
        → In y (next x)
        → In (y, suc e) (levels fuel next d rows)
    unfolding levels
    levels_closed zero d rows small x y e m k = absurd m
    levels_closed (suc fuel) d rows small x y e m k = (In-append (y, suc e) (tag d rows) _).1 (
        inr (elim ((In-append (x, e) (tag d rows) _).0 m) [
          | inl here' ↦
              let (at, same) = (In-tag x e d rows).0 here' in
              let (dx, low) = small x at in
              rw same (
                In-levels_start fuel (suc d) y (flat_map next rows)
                  (omega (arith, (falls x y dx k).1)) (In-flat_map x y rows at k))
          | inr later ↦
              levels_closed fuel (suc d) (flat_map next rows) (falls_below fuel rows small) x y e
                later k
        ]))

    pub In-levels_reached :
        (fuel d : ℕ) (rows : List A)
        → ((x : A) → In x rows → D x × (measure x < fuel))
        → (x y : A) (n : ℕ) → In x rows
        → Reaches x y n
        → In (y, d + n) (levels fuel next d rows)
    unfolding levels
    In-levels_reached zero d rows small x y n m r = absurd (omega (arith, (small x m).1))
    In-levels_reached (suc fuel) d rows small x y n m (here _) =
        let start = In-levels_start (suc fuel) d x rows (omega arith) m in
        let same : d + 0 ≡ d = omega arith in rw same start
    In-levels_reached (suc fuel) d rows small x y n m (step {y = z} {n = k} first r) =
        let same : d + suc k ≡ suc d + k = omega arith in
        rw same (
          (In-append (y, suc d + k) (tag d rows) _).1 (
            inr (
              In-levels_reached fuel (suc d) (flat_map next rows) (falls_below fuel rows small) z y
                k (In-flat_map x z rows m first) r)))

  pub levels-Reaches :
      (fuel d : ℕ) (rows : List A) (y : A) (e : ℕ)
      → In (y, e) (levels fuel next d rows)
      → (x : A) × (n : ℕ) × In x rows × (e ≡ d + n) × Reaches x y n
  unfolding levels
  levels-Reaches zero d rows y e m = absurd m
  levels-Reaches (suc fuel) d rows y e m = elim ((In-append (y, e) (tag d rows) _).0 m) [
    | inl now ↦ let (at, same) = (In-tag y e d rows).0 now in (y, 0, at, omega arith, here y)
    | inr later ↦
        let (z, n, at, same, r) = levels-Reaches fuel (suc d) (flat_map next rows) y e later in
        let (x, at', k) = flat_map-In z rows at in (x, suc n, at', omega arith, step k r)
  ]
