-- ===== src/Common/Table.antt =====
-- A table as the list of its rows, and what the SQL of the repositories does with one: a row
-- found by a WHERE clause, the rows that an UPDATE changes, a sum over the rows.
use Prim.Native.Nat.{ℕ, suc, ◌+◌, ◌≤◌}
use mathlib.Core.Path.{◌≡◌, refl}
use mathlib.Core.Bool.{Bool, true, false, ◌&&◌, ◌||◌}
use mathlib.Core.List.{List, [], ◌∷◌, ◌++◌}
use mathlib.Core.Option.{Option, none, some}
use native.Mathlib.Omega.{arith}
use flash_core.Common.Tests.{if◌then◌else◌, is_some}

module _ {ℓ} {A : Type ℓ} where
  -- `SELECT ... WHERE p`, and its first row.
  abbrev pub select : (A → Bool) → List A → List A
  select p [] = []
  select p (x ∷ xs) = if p x then x ∷ select p xs else select p xs

  abbrev pub find : (A → Bool) → List A → Option A
  find p [] = none
  find p (x ∷ xs) = if p x then some x else find p xs

  abbrev pub exists_row : (A → Bool) → List A → Bool
  exists_row p xs = is_some (find p xs)

  -- `UPDATE ... SET f WHERE p`, and the number of rows that it reports.
  abbrev pub update_where : (A → Bool) → (A → A) → List A → List A
  update_where p f [] = []
  update_where p f (x ∷ xs) = (if p x then f x else x) ∷ update_where p f xs

  abbrev pub count_where : (A → Bool) → List A → ℕ
  count_where p [] = 0
  count_where p (x ∷ xs) = if p x then suc (count_where p xs) else count_where p xs

  -- `DELETE ... WHERE p`.
  abbrev pub delete_where : (A → Bool) → List A → List A
  delete_where p [] = []
  delete_where p (x ∷ xs) = if p x then delete_where p xs else x ∷ delete_where p xs

  abbrev pub sum_by : (A → ℕ) → List A → ℕ
  sum_by w [] = 0
  sum_by w (x ∷ xs) = w x + sum_by w xs

  -- A further condition on a row that has been found.
  abbrev pub keep : (A → Bool) → Option A → Option A
  keep c none = none
  keep c (some x) = if c x then some x else none

  pub find-none_count : (p : A → Bool) (xs : List A) → find p xs ≡ none → count_where p xs ≡ 0
  find-none_count p [] h = refl
  find-none_count p (x ∷ xs) h = ground (arith, find-none_count p xs)

  pub find-some_count :
      (p : A → Bool) (xs : List A) (r : A) → find p xs ≡ some r → 1 ≤ count_where p xs
  find-some_count p [] r h = ground arith
  find-some_count p (x ∷ xs) r h = ground (arith, find-some_count p xs r)

  pub find-holds : (p : A → Bool) (xs : List A) (r : A) → find p xs ≡ some r → p r ≡ true
  find-holds p [] r h = ground arith
  find-holds p (x ∷ xs) r h = ground (arith, find-holds p xs r)

  pub absent_by_count : (p : A → Bool) (xs : List A) → count_where p xs ≡ 0 → find p xs ≡ none
  absent_by_count p [] h = refl
  absent_by_count p (x ∷ xs) h = ground (arith, absent_by_count p xs)

  pub exists-find :
      (p q : A → Bool) (xs : List A) (r : A)
      → find p xs ≡ some r
      → q r ≡ true
      → is_some (find q xs) ≡ true
  exists-find p q [] r h k = ground arith
  exists-find p q (x ∷ xs) r h k = ground (arith, exists-find p q xs r)

  -- An UPDATE that makes its own WHERE clause false leaves no row that meets it.
  pub count-update_where_off :
      (p : A → Bool) (f : A → A) (xs : List A)
      → ((x : A) → p (f x) ≡ false)
      → count_where p (update_where p f xs) ≡ 0
  count-update_where_off p f [] off = refl
  count-update_where_off p f (x ∷ xs) off = ground (arith, off x, count-update_where_off p f xs off)

  pub update_where_absent :
      (p : A → Bool) (f : A → A) (xs : List A) → count_where p xs ≡ 0 → update_where p f xs ≡ xs
  update_where_absent p f [] h = refl
  update_where_absent p f (x ∷ xs) h = ground (arith, update_where_absent p f xs)

-- A test by a unique key, and one more condition on the row.
module _ {ℓ} {A : Type ℓ} (key c : A → Bool) where
  count-and_absent : (xs : List A) → count_where key xs ≡ 0 → count_where (λ x. key x && c x) xs ≡ 0
  count-and_absent [] h = refl
  count-and_absent (x ∷ xs) h = ground (arith, count-and_absent xs)

  pub find-and :
      (xs : List A) → count_where key xs ≤ 1 → find (λ x. key x && c x) xs ≡ keep c (find key xs)
  find-and [] h = refl
  find-and (x ∷ xs) h =
      ground (arith, find-and xs, absent_by_count (λ x. key x && c x) xs, count-and_absent xs)

  pub update_where-and :
      (f : A → A) (xs : List A)
      → count_where key xs ≤ 1
      → update_where (λ x. key x && c x) f xs
        ≡ (if is_some (keep c (find key xs)) then update_where key f xs else xs)
  update_where-and f [] h = refl
  update_where-and f (x ∷ xs) h = ground (
    arith,
    update_where-and f xs,
    update_where_absent key f xs,
    update_where_absent (λ x. key x && c x) f xs,
    count-and_absent xs,
  )

-- What an UPDATE leaves as it was: the count of a key that `f` does not touch, and with it the
-- uniqueness of that key.
module _ {ℓ} {A : Type ℓ} (p q : A → Bool) (f : A → A) where
  pub count-update_where :
      ((x : A) → q (f x) ≡ q x)
      → (xs : List A) → count_where q (update_where p f xs) ≡ count_where q xs
  count-update_where same [] = refl
  count-update_where same (x ∷ xs) = ground (arith, same x, count-update_where same xs)

  pub find-update_where :
      ((x : A) → q (f x) ≡ q x)
      → (xs : List A)
      → find q (update_where p f xs)
        ≡ (elim (find q xs) [ none ↦ none | some r ↦ some (if p r then f r else r) ])
  find-update_where same [] = refl
  find-update_where same (x ∷ xs) = ground (arith, same x, find-update_where same xs)

-- What an UPDATE does to a sum over the rows.
module _ {ℓ} {A : Type ℓ} (p : A → Bool) (f : A → A) (w : A → ℕ) where
  pub sum-update_same :
      ((x : A) → p x ≡ true → w (f x) ≡ w x)
      → (xs : List A) → sum_by w (update_where p f xs) ≡ sum_by w xs
  sum-update_same same [] = refl
  sum-update_same same (x ∷ xs) = ground (arith, same x, sum-update_same same xs)

  pub sum-update_one :
      (xs : List A) (r : A)
      → count_where p xs ≤ 1
      → find p xs ≡ some r
      → sum_by w (update_where p f xs) + w r ≡ sum_by w xs + w (f r)
  sum-update_one [] r one found = ground arith
  sum-update_one (x ∷ xs) r one found =
      ground (arith, sum-update_one xs r, update_where_absent p f xs)

pub sum-append {ℓ} :
    {A : Type ℓ} (w : A → ℕ) (xs ys : List A) → sum_by w (xs ++ ys) ≡ sum_by w xs + sum_by w ys
sum-append w [] ys = omega arith
sum-append w (x ∷ xs) ys = omega (arith, sum-append w xs ys)

pub count-append {ℓ} :
    {A : Type ℓ} (p : A → Bool) (xs ys : List A)
    → count_where p (xs ++ ys) ≡ count_where p xs + count_where p ys
count-append p [] ys = omega arith
count-append p (x ∷ xs) ys = ground (arith, count-append p xs ys)

pub find-append {ℓ} :
    {A : Type ℓ} (p : A → Bool) (xs ys : List A)
    → find p (xs ++ ys) ≡ (elim (find p xs) [ none ↦ find p ys | some r ↦ some r ])
find-append p [] ys = refl
find-append p (x ∷ xs) ys = ground (arith, find-append p xs ys)

-- A WHERE clause of several conditions, and a row that is found by one that it implies.
pub find-or_none {ℓ} :
    {A : Type ℓ} (p q : A → Bool) (xs : List A)
    → is_some (find (λ x. p x || q x) xs) ≡ false
    → (find p xs ≡ none) × (find q xs ≡ none)
find-or_none p q [] h = (refl, refl)
find-or_none p q (x ∷ xs) h = ground (arith, find-or_none p q xs)

pub find-or_some {ℓ} :
    {A : Type ℓ} (p q : A → Bool) (xs : List A)
    → is_some (find q xs) ≡ true
    → is_some (find (λ x. p x || q x) xs) ≡ true
find-or_some p q [] h = h
find-or_some p q (x ∷ xs) h = ground (arith, find-or_some p q xs)

pub select-append {ℓ} :
    {A : Type ℓ} (p : A → Bool) (xs ys : List A) → select p (xs ++ ys) ≡ select p xs ++ select p ys
select-append p [] ys = refl
select-append p (x ∷ xs) ys = ground (arith, select-append p xs ys)
