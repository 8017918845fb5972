-- ===== src/Retention/Batches.antt =====
-- One batch of deletions (retention.repository.ts): what leaves a table, and what stays.
use Prim.Native.Nat.{min}
use flash_core.Common.{
  ap, ℕ, zero, suc, ◌+◌, ◌≤◌, ◌≡◌, refl, ◌∙◌, Bool, true, false, List, [], ◌∷◌, ◌==◌, ◌||◌, not,
  ==_refl, arith,
}
use flash_core.Common.Sequence.{length, take, insert_with, sort_with, length-take}
use flash_core.Common.Table.{select, count_where, delete_where}
use flash_core.Retention.Sweep.{oldest_first, batch_of, is_in}

module _ {A : Type 0} where
  count-or :
      (p q : A → Bool)
      → ((y : A) → p y ≡ true → q y ≡ false)
      → (xs : List A) → count_where (λ y. p y || q y) xs ≡ count_where p xs + count_where q xs
  count-or p q apart [] = refl
  count-or p q apart (x ∷ xs) = ground (arith, apart x, count-or p q apart xs)

  count-select :
      (p old : A → Bool) (xs : List A)
      → count_where p (select old xs) + count_where p (select (λ y. not (old y)) xs)
        ≡ count_where p xs
  count-select p old [] = refl
  count-select p old (x ∷ xs) = ground (arith, count-select p old xs)

  count-take : (p : A → Bool) (n : ℕ) (xs : List A) → count_where p (take n xs) ≤ count_where p xs
  count-take p zero xs = omega arith
  count-take p (suc n) [] = omega arith
  count-take p (suc n) (x ∷ xs) = ground (arith, count-take p n xs)

  count-insert :
      (before : A → A → Bool) (p : A → Bool) (x : A) (xs : List A)
      → count_where p (insert_with before x xs) ≡ count_where p (x ∷ xs)
  count-insert before p x [] = refl
  count-insert before p x (y ∷ ys) = ground (arith, count-insert before p x ys)

  count-sort :
      (before : A → A → Bool) (p : A → Bool) (xs : List A)
      → count_where p (sort_with before xs) ≡ count_where p xs
  count-sort before p [] = refl
  count-sort before p (x ∷ xs) =
      ground (arith, count-sort before p xs, count-insert before p x (sort_with before xs))

  count_all : (xs : List A) → count_where (λ y. true) xs ≡ length xs
  count_all [] = refl
  count_all (x ∷ xs) = omega (arith, count_all xs)

  -- Rows that a DELETE does not meet stay.
  select-delete :
      (r q : A → Bool) (xs : List A)
      → count_where q (select r xs) ≡ 0
      → select r (delete_where q xs) ≡ select r xs
  select-delete r q [] h = refl
  select-delete r q (x ∷ xs) h = ground (arith, select-delete r q xs)

  count-length : (r : A → Bool) (xs : List A) → count_where r xs ≡ length (select r xs)
  count-length r [] = refl
  count-length r (x ∷ xs) = ground (arith, count-length r xs)

  length-delete :
      (q : A → Bool) (xs : List A) → length (delete_where q xs) + count_where q xs ≡ length xs
  length-delete q [] = refl
  length-delete q (x ∷ xs) = ground (arith, length-delete q xs)

  count-delete_le :
      (p q : A → Bool) (xs : List A) → count_where p (delete_where q xs) ≤ count_where p xs
  count-delete_le p q [] = omega arith
  count-delete_le p q (x ∷ xs) = ground (arith, count-delete_le p q xs)

  count_never : (xs : List A) → count_where (λ y. false) xs ≡ 0
  count_never [] = refl
  count_never (x ∷ xs) = count_never xs

module _ {A : Type 0} (key : A → ℕ) where
  abbrev pub has : ℕ → A → Bool
  has k y = k == key y

  -- No two rows have one key.
  abbrev pub IsUnique : List A → Type 0
  IsUnique xs = (k : ℕ) → count_where (has k) xs ≤ 1

  is_in-absent :
      (k : ℕ) (cs : List A) (y : A)
      → count_where (has k) cs ≡ 0
      → (k == key y) ≡ true
      → is_in key cs y ≡ false
  is_in-absent k [] y h e = refl
  is_in-absent k (c ∷ cs) y h e = ground (arith, is_in-absent k cs y)

  once_only :
      (c : A) (cs : List A)
      → IsUnique (c ∷ cs)
      → (y : A) → (key c == key y) ≡ true
      → is_in key cs y ≡ false
  once_only c cs unique y e =
      ground (arith, unique (key c), ==_refl (key c), is_in-absent (key c) cs y)

  IsUnique-tail : (c : A) (cs : List A) → IsUnique (c ∷ cs) → IsUnique cs
  IsUnique-tail c cs unique k = ground (arith, unique k)

  at_least :
      (c : A) (cs xs : List A)
      → count_where (has (key c)) (c ∷ cs) ≤ count_where (has (key c)) xs
      → 1 ≤ count_where (has (key c)) xs
  at_least c cs xs below = ground (arith, ==_refl (key c))

  -- Rows of a table are found in it by their keys, each once.
  count-is_in :
      (cs xs : List A)
      → ((k : ℕ) → count_where (has k) cs ≤ count_where (has k) xs)
      → IsUnique xs
      → count_where (is_in key cs) xs ≡ length cs
  count-is_in [] xs below unique = count_never xs
  count-is_in (c ∷ cs) xs below unique =
      let tail_below : (k : ℕ) → count_where (has k) cs ≤ count_where (has k) xs =
        λ k. ground (arith, below k) in
      let unique_cs : IsUnique (c ∷ cs) = λ k. omega (arith, below k, unique k) in
      omega (
        arith,
        count-or (has (key c)) (is_in key cs) (once_only c cs unique_cs) xs,
        count-is_in cs xs tail_below unique,
        unique (key c),
        at_least c cs xs (below (key c)),
      )

  -- Rows of other keys are not.
  count-is_in_none :
      (cs olds zs : List A)
      → ((k : ℕ) → count_where (has k) cs ≤ count_where (has k) olds)
      → ((k : ℕ) → count_where (has k) olds + count_where (has k) zs ≤ 1)
      → count_where (is_in key cs) zs ≡ 0
  count-is_in_none [] olds zs below unique = count_never zs
  count-is_in_none (c ∷ cs) olds zs below unique =
      let tail_below : (k : ℕ) → count_where (has k) cs ≤ count_where (has k) olds =
        λ k. ground (arith, below k) in
      let unique_cs : IsUnique (c ∷ cs) = λ k. omega (arith, below k, unique k) in
      omega (
        arith,
        count-or (has (key c)) (is_in key cs) (once_only c cs unique_cs) zs,
        count-is_in_none cs olds zs tail_below unique,
        unique (key c),
        at_least c cs olds (below (key c)),
      )

module _ {A : Type 0} (key : A → ℕ) (old : A → Bool) (age : A → ℕ) where
  abbrev pub is_kept : A → Bool
  is_kept y = not (old y)

  abbrev pub survivors : ℕ → List A → List A
  survivors batch xs = delete_where (is_in key (batch_of key old age batch xs)) xs

  batch-below :
      (batch : ℕ) (xs : List A) (k : ℕ)
      → count_where (has key k) (batch_of key old age batch xs)
        ≤ count_where (has key k) (select old xs)
  batch-below batch xs k = omega (
    arith,
    count-take (has key k) batch (sort_with (oldest_first key old age) (select old xs)),
    count-sort (oldest_first key old age) (has key k) (select old xs),
  )

  length-batch :
      (batch : ℕ) (xs : List A)
      → length (batch_of key old age batch xs) ≡ min batch (count_where old xs)
  length-batch batch xs = omega (
    arith,
    length-take {0} batch (sort_with (oldest_first key old age) (select old xs)),
    count_all (sort_with (oldest_first key old age) (select old xs)),
    count-sort (oldest_first key old age) (λ (y : A). true) (select old xs),
    count_all (select old xs),
    count-length old xs,
  )

  length_both : (xs : List A) → count_where old xs + length (select is_kept xs) ≡ length xs
  length_both xs = omega (
    arith,
    count-select (λ (y : A). true) old xs,
    count_all xs,
    count_all (select old xs),
    count_all (select is_kept xs),
    count-length old xs,
  )

  -- As many rows as the batch allows are deleted.
  pub deleted-batch :
      (batch : ℕ) (xs : List A)
      → IsUnique key xs
      → count_where (is_in key (batch_of key old age batch xs)) xs ≡ min batch (count_where old xs)
  deleted-batch batch xs unique =
      count-is_in key (batch_of key old age batch xs) xs
        (λ k. omega (arith, batch-below batch xs k, count-select (has key k) old xs)) unique
      ∙ length-batch batch xs

  -- No row that is not old is among them.
  pub kept-survivors :
      (batch : ℕ) (xs : List A)
      → IsUnique key xs
      → select is_kept (survivors batch xs) ≡ select is_kept xs
  kept-survivors batch xs unique =
      select-delete is_kept (is_in key (batch_of key old age batch xs)) xs (
        count-is_in_none key (batch_of key old age batch xs) (select old xs) (select is_kept xs)
          (batch-below batch xs) (λ k. omega (arith, count-select (has key k) old xs, unique k)))

  pub survivors-IsUnique :
      (batch : ℕ) (xs : List A) → IsUnique key xs → IsUnique key (survivors batch xs)
  survivors-IsUnique batch xs unique k =
      omega (
        arith,
        count-delete_le (has key k) (is_in key (batch_of key old age batch xs)) xs,
        unique k,
      )

  pub old-survivors :
      (batch : ℕ) (xs : List A)
      → IsUnique key xs
      → count_where old (survivors batch xs) + min batch (count_where old xs) ≡ count_where old xs
  old-survivors batch xs unique = omega (
    arith,
    length-delete (is_in key (batch_of key old age batch xs)) xs,
    deleted-batch batch xs unique,
    length_both (survivors batch xs),
    length_both xs,
    ap length (kept-survivors batch xs unique),
  )
