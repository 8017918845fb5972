-- ===== src/Common/Ordered.antt =====
-- Rows in the order of a comparison `before`: what sorting makes, and what WHERE and LIMIT leave.
use Prim.Native.Nat.{ℕ, zero, suc, ◌≤◌}
use mathlib.Core.Path.{◌≡◌, refl}
use mathlib.Core.Bool.{Bool, true, false, ◌&&◌, ◌||◌}
use mathlib.Core.List.{List, [], ◌∷◌}
use mathlib.Core.Option.{some}
use native.Mathlib.Omega.{arith}
use flash_core.Common.Tests.{if◌then◌else◌}
use flash_core.Common.Sequence.{length, take, drop, insert_with, sort_with, last_of}
use flash_core.Common.Table.{select}

module _ {ℓ} {A : Type ℓ} where
  abbrev pub all_rows : (A → Bool) → List A → Bool
  all_rows p [] = true
  all_rows p (x ∷ xs) = p x && all_rows p xs

  pub all_rows-map :
      (p q : A → Bool)
      → ((x : A) → p x ≡ true → q x ≡ true)
      → (xs : List A) → all_rows p xs ≡ true
      → all_rows q xs ≡ true
  all_rows-map p q imp [] h = refl
  all_rows-map p q imp (x ∷ xs) h = ground (arith, imp x, all_rows-map p q imp xs)

  pub all_rows-select :
      (p q : A → Bool) (xs : List A) → all_rows p xs ≡ true → all_rows p (select q xs) ≡ true
  all_rows-select p q [] h = refl
  all_rows-select p q (x ∷ xs) h = ground (arith, all_rows-select p q xs)

  pub all_rows-chosen : (p : A → Bool) (xs : List A) → all_rows p (select p xs) ≡ true
  all_rows-chosen p [] = refl
  all_rows-chosen p (x ∷ xs) = ground (arith, all_rows-chosen p xs)

  pub select-true : (xs : List A) → select (λ x. true) xs ≡ xs
  select-true [] = refl
  select-true (x ∷ xs) = rw (select-true xs) refl

  pub select_all : (p : A → Bool) (xs : List A) → all_rows p xs ≡ true → select p xs ≡ xs
  select_all p [] h = refl
  select_all p (x ∷ xs) h = ground (arith, select_all p xs)

  pub select-and :
      (p q : A → Bool) (xs : List A) → select (λ x. p x && q x) xs ≡ select q (select p xs)
  select-and p q [] = refl
  select-and p q (x ∷ xs) = ground (arith, select-and p q xs)

  pub select-select :
      (p q : A → Bool)
      → ((x : A) → q x ≡ true → p x ≡ true)
      → (xs : List A) → select q (select p xs) ≡ select q xs
  select-select p q imp [] = refl
  select-select p q imp (x ∷ xs) = ground (arith, imp x, select-select p q imp xs)

  pub last-all_rows :
      (p : A → Bool) (n : ℕ) (xs : List A) (l : A)
      → all_rows p xs ≡ true
      → last_of (take n xs) ≡ some l
      → p l ≡ true
  last-all_rows p zero xs l h e = ground arith
  last-all_rows p (suc n) [] l h e = ground arith
  last-all_rows p (suc zero) (x ∷ xs) l h e = ground arith
  last-all_rows p (suc (suc n)) (x ∷ []) l h e = ground arith
  last-all_rows p (suc (suc n)) (x ∷ y ∷ xs) l h e =
      ground (arith, last-all_rows p (suc n) (y ∷ xs) l)

  pub last-take-some :
      (n : ℕ) (xs : List A) → 1 ≤ n → 1 ≤ length xs → (l : A) × (last_of (take n xs) ≡ some l)
  last-take-some zero xs h k = absurd (omega arith)
  last-take-some (suc n) [] h k = absurd (omega arith)
  last-take-some (suc zero) (x ∷ xs) h k = (x, refl)
  last-take-some (suc (suc n)) (x ∷ []) h k = (x, refl)
  last-take-some (suc (suc n)) (x ∷ y ∷ xs) h k =
      last-take-some (suc n) (y ∷ xs) (omega arith) (omega arith)

module _ {ℓ} {A : Type ℓ} (before : A → A → Bool) where
  -- Each row stands before all that follow.
  abbrev pub in_order : List A → Bool
  in_order [] = true
  in_order (x ∷ xs) = all_rows (before x) xs && in_order xs

  abbrev pub comparable : A → A → Bool
  comparable x y = before x y || before y x

  abbrev pub all_comparable : List A → Bool
  all_comparable [] = true
  all_comparable (x ∷ xs) = all_rows (comparable x) xs && all_comparable xs

  all_rows-insert :
      (p : A → Bool) (x : A) (xs : List A)
      → p x ≡ true
      → all_rows p xs ≡ true
      → all_rows p (insert_with before x xs) ≡ true
  all_rows-insert p x [] h k = ground arith
  all_rows-insert p x (y ∷ ys) h k = ground (arith, all_rows-insert p x ys)

  pub all_rows-sort :
      (p : A → Bool) (xs : List A) → all_rows p xs ≡ true → all_rows p (sort_with before xs) ≡ true
  all_rows-sort p [] h = refl
  all_rows-sort p (x ∷ xs) h =
      ground (arith, all_rows-sort p xs, all_rows-insert p x (sort_with before xs))

  pub in_order-select :
      (q : A → Bool) (xs : List A) → in_order xs ≡ true → in_order (select q xs) ≡ true
  in_order-select q [] h = refl
  in_order-select q (x ∷ xs) h =
      ground (arith, in_order-select q xs, all_rows-select (before x) q xs)

  pub all_comparable-select :
      (q : A → Bool) (xs : List A) → all_comparable xs ≡ true → all_comparable (select q xs) ≡ true
  all_comparable-select q [] h = refl
  all_comparable-select q (x ∷ xs) h =
      ground (arith, all_comparable-select q xs, all_rows-select (comparable x) q xs)

  insert-front :
      (x : A) (xs : List A) → all_rows (before x) xs ≡ true → insert_with before x xs ≡ x ∷ xs
  insert-front x [] h = refl
  insert-front x (y ∷ ys) h = ground arith

  module _ (trans : (x y z : A) → before x y ≡ true → before y z ≡ true → before x z ≡ true)
      (asym : (x y : A) → before x y ≡ true → before y x ≡ false) where
    all_rows-before :
        (x y : A) (xs : List A)
        → before x y ≡ true
        → all_rows (before y) xs ≡ true
        → all_rows (before x) xs ≡ true
    all_rows-before x y xs h k = all_rows-map (before y) (before x) (λ z. trans x y z h) xs k

    in_order-insert :
        (x : A) (xs : List A)
        → all_rows (comparable x) xs ≡ true
        → in_order xs ≡ true
        → in_order (insert_with before x xs) ≡ true
    in_order-insert x [] h k = refl
    in_order-insert x (y ∷ ys) h k =
        ground
          (arith, in_order-insert x ys, all_rows-before x y ys, all_rows-insert (before y) x ys)

    pub in_order-sort :
        (xs : List A) → all_comparable xs ≡ true → in_order (sort_with before xs) ≡ true
    in_order-sort [] h = refl
    in_order-sort (x ∷ xs) h = ground (
      arith,
      in_order-sort xs,
      all_rows-sort (comparable x) xs,
      in_order-insert x (sort_with before xs),
    )

    select-insert :
        (q : A → Bool) (x : A) (xs : List A)
        → in_order xs ≡ true
        → select q (insert_with before x xs)
          ≡ (if q x then insert_with before x (select q xs) else select q xs)
    select-insert q x [] h = ground arith
    select-insert q x (y ∷ ys) h = ground (
      arith,
      select-insert q x ys,
      all_rows-before x y ys,
      all_rows-select (before x) q ys,
      insert-front x (select q ys),
    )

    -- WHERE and ORDER BY may change places.
    pub select-sort :
        (q : A → Bool) (xs : List A)
        → all_comparable xs ≡ true
        → select q (sort_with before xs) ≡ sort_with before (select q xs)
    select-sort q [] h = refl
    select-sort q (x ∷ xs) h =
        ground (arith, select-sort q xs, in_order-sort xs, select-insert q x (sort_with before xs))

    -- The rows after the last row of a LIMIT are those that the LIMIT has left out.
    pub select_after-last :
        (n : ℕ) (xs : List A) (l : A)
        → in_order xs ≡ true
        → last_of (take n xs) ≡ some l
        → select (before l) xs ≡ drop n xs
    select_after-last zero xs l h e = ground arith
    select_after-last (suc n) [] l h e = ground arith
    select_after-last (suc zero) (x ∷ xs) l h e = ground (arith, asym x x, select_all (before x) xs)
    select_after-last (suc (suc n)) (x ∷ []) l h e = ground (arith, asym x x)
    select_after-last (suc (suc n)) (x ∷ y ∷ xs) l h e = ground (
      arith,
      asym x l,
      last-all_rows (before x) (suc n) (y ∷ xs) l,
      select_after-last (suc n) (y ∷ xs) l,
    )
