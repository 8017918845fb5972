-- ===== src/Common/Listing.antt =====
-- Rows read out of a table before a loop updates them one by one: every row is still in the table
-- as it was read when its turn comes.
use flash_core.Common.Tests.{Bool-cases}
use Prim.Native.Nat.{◌≤◌}
use mathlib.Core.Path.{◌≡◌, refl}
use mathlib.Core.Logic.{inl, inr}
use mathlib.Core.Bool.{Bool, true}
use mathlib.Core.List.{List, [], ◌∷◌}
use mathlib.Core.Option.{none, some}
use native.Mathlib.Omega.{arith}
use flash_core.Common.Table.{
  select, find, count_where, update_where, absent_by_count, find-update_where,
}

-- `same x y`: the two rows have the same key.
module _ {A : Type 0} (same : A → A → Bool) (chosen : A → Bool) where
  abbrev pub Listed : List A → List A → Type 0
  Listed [] table = Unit
  Listed (x ∷ xs) table =
      (chosen x ≡ true)
      × ((find (same x) table ≡ some x) × ((find (same x) xs ≡ none) × Listed xs table))

  module _ (refl_same : (x : A) → same x x ≡ true)
      (sym_same : (x y : A) → same x y ≡ same y x) where
    still_absent :
        (x : A) (table : List A)
        → find (same x) table ≡ none
        → find (same x) (select chosen table) ≡ none
    still_absent x [] h = refl
    still_absent x (y ∷ table) h = ground (arith, still_absent x table)

    Listed-cons :
        (y : A) (xs table : List A)
        → find (same y) xs ≡ none
        → Listed xs table
        → Listed xs (y ∷ table)
    Listed-cons y [] table h l = tt
    Listed-cons y (x ∷ xs) table h l = ground (arith, Listed-cons y xs table, sym_same x y)

    -- What a unique key says of the table below the row `y`.
    fresh :
        (y : A) (table : List A)
        → count_where (same y) (y ∷ table) ≤ 1
        → find (same y) (select chosen table) ≡ none
    fresh y table one =
        still_absent y table (absent_by_count (same y) table (ground (arith, refl_same y)))

    Listed-head :
        (y : A) (table : List A)
        → chosen y ≡ true
        → find (same y) (select chosen table) ≡ none
        → Listed (select chosen table) (y ∷ table)
        → Listed (y ∷ select chosen table) (y ∷ table)
    Listed-head y table e new rest = (e, (rw (refl_same y) refl, (new, rest)))

    pub select-Listed :
        (table : List A)
        → ((x : A) → count_where (same x) table ≤ 1)
        → Listed (select chosen table) table
    select-Listed [] keyed = tt
    select-Listed (y ∷ table) keyed =
        let below : Listed (select chosen table) (y ∷ table) =
          Listed-cons y (select chosen table) table (fresh y table (keyed y))
            (select-Listed table (λ x. ground (arith, keyed x))) in
        elim (Bool-cases (chosen y)) [
          | inl e ↦ rw e (Listed-head y table e (fresh y table (keyed y)) below)
          | inr e ↦ rw e below
        ]

  pub Listed-update :
      (f : A → A) (x : A) (xs table : List A)
      → ((y z : A) → same y (f z) ≡ same y z)
      → ((y z : A) → same y z ≡ same z y)
      → find (same x) xs ≡ none
      → Listed xs table
      → Listed xs (update_where (same x) f table)
  Listed-update f x [] table keeps sym_same h l = tt
  Listed-update f x (y ∷ ys) table keeps sym_same h l = ground (
    arith,
    Listed-update f x ys table keeps sym_same,
    find-update_where (same x) (same y) f (keeps y) table,
  )
