-- ===== src/Catalogue/Creation.antt =====
-- What `createProduct` and `addSku` (product.service.ts) leave behind.
use flash_core.Common.{
  ℕ, suc, ◌<◌, true, Option, some, Option-cases, ◌≡◌, refl, sym, ap, ◌∙◌, ◌⊎◌, none, List, [], ◌∷◌,
  ◌++◌, ◌&&◌, ◌||◌, not, arith, Bool-cases, inl, inr,
}
use mathlib.Core.Path.{subst}
use mathlib.Core.List.{append-nil, append_assoc}
use flash_core.Common.Table.{find, exists_row, find-or_none}
use flash_core.Store.{Result, ok, err, Error, transaction, pure, ◌>>◌}
use flash_core.Pages.{Text}
use flash_core.Catalogue.Slug.{Unicode, slugify}
use flash_core.Catalogue.Code.{generate_sku_code}
use flash_core.Catalogue.Rows.{
  ProductStatus, Product, ProductSku, Catalogue, SkuInput, CreateProductDto, show_size,
}
use flash_core.Catalogue.Repository.{
  insert_sku, insert_skus, insert_product, to_sku_create_input, create_product_row, has_product_id,
  has_slug, fits_integer, collides, find_product_by_slug,
}
use flash_core.Catalogue.Service.{Row, chosen_slug, create_product}

-- Why a row of a variant is not stored: a number beyond its INTEGER column, or a unique key in use.
abbrev pub NoRoom : ProductSku → List ProductSku → Error → Type 0
NoRoom new skus e =
    ((e ≡ Error.query_failed) × ((2_147_483_647 < new.price_vnd) ⊎ (2_147_483_647 < new.stock)))
    ⊎ ((e ≡ Error.unique_violation) × (exists_row (collides new) skus ≡ true))

-- An insert adds its row, or changes nothing.
insert_sku-cases :
    (new : ProductSku) (c : Catalogue)
    → (insert_sku new c ≡ (ok new, record c { skus = c.skus ++ (new ∷ []) }))
      ⊎ ((e : Error) × NoRoom new c.skus e × (insert_sku new c ≡ (err e, c)))
unfolding insert_sku
insert_sku-cases new c =
    elim (Bool-cases (not (fits_integer new.price_vnd && fits_integer new.stock))) [
      | inl big ↦ inr (Error.query_failed, inl (refl, ground arith), ground arith)
      | inr small ↦ elim (Bool-cases (exists_row (collides new) c.skus)) [
        | inl taken ↦ inr (Error.unique_violation, inr (refl, taken), ground arith)
        | inr free ↦ inl (ground arith)
      ]
    ]

insert_product-cases :
    (new : Product) (c : Catalogue)
    → ((find (has_product_id new.id) c.products ≡ none)
        × (find (has_slug new.slug) c.products ≡ none)
        × (insert_product new c ≡ (ok tt, record c { products = c.products ++ (new ∷ []) })))
      ⊎ ((exists_row (λ p. has_product_id new.id p || has_slug new.slug p) c.products ≡ true)
          × (insert_product new c ≡ (err Error.unique_violation, c)))
unfolding insert_product
insert_product-cases new c =
    elim (Bool-cases
      (exists_row (λ p. has_product_id new.id p || has_slug new.slug p) c.products)) [
        | inl taken ↦ inr (taken, ground arith)
        | inr free ↦
            let absent = find-or_none (has_product_id new.id) (has_slug new.slug) c.products free in
            inl (absent.0, absent.1, ground arith)
      ]

module _ (unicode : Unicode) (ids : ℕ → ℕ) (now product : ℕ) (slug : Text) where
  -- The row that an entry of the body asks for: on sale, with the entry's size, color, price and
  -- stock.
  abbrev pub asked_sku : ℕ → SkuInput → ProductSku
  asked_sku n input = record {
    id = ids n;
    product_id = product;
    size = input.size;
    color = input.color;
    sku_code = generate_sku_code unicode slug input.color (show_size input.size);
    price_vnd = input.price_vnd;
    stock = input.stock;
    is_active = true;
    created_at = now;
  }

  -- The rows of the variants, the first with the id `ids n`.
  abbrev pub built : ℕ → List SkuInput → List ProductSku
  built n [] = []
  built n (input ∷ inputs) = asked_sku n input ∷ built (suc n) inputs

  -- Some entry has no room after the rows of the entries before it.
  abbrev pub Stuck : ℕ → List SkuInput → List ProductSku → Error → Type 0
  Stuck n [] skus e = ⊥
  Stuck n (input ∷ inputs) skus e =
      NoRoom (asked_sku n input) skus e ⊎ Stuck (suc n) inputs (skus ++ (asked_sku n input ∷ [])) e

  abbrev Inserted : ℕ → List SkuInput → Catalogue → Result (Unit {0}) × Catalogue → Type 0
  Inserted n inputs c (err e, c') = Stuck n inputs c.skus e
  Inserted n inputs c (ok a, c') = c' ≡ (record c { skus = c.skus ++ built n inputs })

  Inserted-cons :
      (n : ℕ) (input : SkuInput) (inputs : List SkuInput) (c : Catalogue)
      (res : Result (Unit {0}) × Catalogue)
      → Inserted (suc n) inputs (record c { skus = c.skus ++ (asked_sku n input ∷ []) }) res
      → Inserted n (input ∷ inputs) c res
  Inserted-cons n input inputs c (err e, c') h = inr h
  Inserted-cons n input inputs c (ok a, c') h =
      h
      ∙ ap (λ skus. record c { skus = skus })
          (append_assoc c.skus (asked_sku n input ∷ []) (built (suc n) inputs))

  -- The rest of `createMany` after the insert of the first row.
  abbrev AfterInsert :
      ℕ → SkuInput → List SkuInput → Catalogue → Result ProductSku × Catalogue → Type 0
  AfterInsert n input inputs c r =
      Inserted n (input ∷ inputs) c
        (◌>>◌ (λ _. r) (insert_skus unicode ids (suc n) now product slug inputs) c)

  insert_skus-Inserted :
      (n : ℕ) (inputs : List SkuInput) (c : Catalogue)
      → Inserted n inputs c (insert_skus unicode ids n now product slug inputs c)
  unfolding insert_skus to_sku_create_input
  insert_skus-Inserted n [] c = ap (λ skus. record c { skus = skus }) (sym (append-nil c.skus))
  insert_skus-Inserted n (input ∷ inputs) c = elim (insert_sku-cases (asked_sku n input) c) [
    | inr (e, stuck, h) ↦ subst (AfterInsert n input inputs c) (sym h) (inl stuck)
    | inl h ↦
        subst (AfterInsert n input inputs c) (sym h)
          (Inserted-cons n input inputs c _ (insert_skus-Inserted (suc n) inputs _))
  ]

module _ (unicode : Unicode) (row : Row) (dto : CreateProductDto) where
  -- The client's slug, or one made from the name.
  abbrev pub asked_slug : Option Text → Text
  asked_slug (some given) = given
  asked_slug none = slugify unicode dto.name

  abbrev slug : Text
  slug = asked_slug dto.slug

  chosen_slug_lem : chosen_slug unicode dto ≡ slug
  unfolding chosen_slug
  chosen_slug_lem = elim (Option-cases dto.slug) [
    | inl left_out ↦ rw left_out refl
    | inr (given, there) ↦ rw there refl
  ]

  -- A draft with the fields of the body.
  abbrev pub created : Product
  created = record {
    id = row.id;
    name = dto.name;
    slug = slug;
    description = dto.description;
    status = ProductStatus.draft;
    attributes = dto.attributes;
    created_at = row.now;
  }

  abbrev pub created_skus : List ProductSku
  created_skus = built unicode row.sku_ids row.now row.id slug 0 dto.skus

  -- Why no product is created.
  abbrev pub Refuses : Catalogue → Error → Type 0
  Refuses c e =
      ((e ≡ Error.slug_already_exists) × (exists_row (has_slug slug) c.products ≡ true))
      ⊎ ((e ≡ Error.unique_violation)
          × (exists_row (λ p. has_product_id row.id p || has_slug slug p) c.products ≡ true))
      ⊎ Stuck unicode row.sku_ids row.now row.id slug 0 dto.skus c.skus e

  -- Nothing happened, for one of the reasons; or the product and all its variants are there, under a
  -- new id and slug.
  abbrev pub Creates : Catalogue → Result Product × Catalogue → Type 0
  Creates c (err e, c') = (c' ≡ c) × Refuses c e
  Creates c (ok p, c') =
      (p ≡ created)
      × (find (has_product_id row.id) c.products ≡ none)
      × (find (has_slug slug) c.products ≡ none)
      × (c' ≡ (record c { products = c.products ++ (created ∷ []); skus = c.skus ++ created_skus }))

  Inserted-Creates :
      (c : Catalogue) (res : Result (Unit {0}) × Catalogue)
      → (find (has_product_id row.id) c.products ≡ none)
      → (find (has_slug slug) c.products ≡ none)
      → Inserted unicode row.sku_ids row.now row.id slug 0 dto.skus
          (record c { products = c.products ++ (created ∷ []) })
          res
      → Creates c (transaction (λ s. ◌>>◌ (λ _. res) (pure created) s) c)
  Inserted-Creates c (err e, c') i n h = (refl, inr (inr h))
  Inserted-Creates c (ok a, c') i n h = (refl, i, n, h)

  -- The rest of the transaction after the insert of the product.
  abbrev AfterProduct : Catalogue → Result (Unit {0}) × Catalogue → Type 0
  AfterProduct c r = Creates c (
      transaction
        (λ s.
          ◌>>◌ (λ _. r)
            (◌>>◌ (insert_skus unicode row.sku_ids 0 row.now row.id slug dto.skus) (pure created))
            s)
        c)

  row-Creates :
      (c : Catalogue) → Creates c (create_product_row unicode row.id row.sku_ids row.now slug dto c)
  unfolding create_product_row
  row-Creates c = elim (insert_product-cases created c) [
    | inr (taken, h) ↦ subst (AfterProduct c) (sym h) (refl, inr (inl (refl, taken)))
    | inl (i, n, h) ↦ subst (AfterProduct c) (sym h) (
        Inserted-Creates c _ i n (
          insert_skus-Inserted unicode row.sku_ids row.now row.id slug 0 dto.skus
            (record c { products = c.products ++ (created ∷ []) })))
  ]

  -- `createProduct` gives back and stores a draft with the body's name, description and attributes and
  -- with the client's slug, or one made from the name if there is none, and for each entry of the body,
  -- in order, a variant on sale with its size, color, price and stock; the id and the slug were not in
  -- use. Or it throws and the catalogue is as it was, and then the slug or the id was in use, or an
  -- entry has a number beyond its column or meets a unique key that is taken.
  pub create_product-Creates : (c : Catalogue) → Creates c (create_product unicode row dto c)
  unfolding create_product find_product_by_slug
  create_product-Creates c = elim (Bool-cases (exists_row (has_slug slug) c.products)) [
    | inl taken ↦ rw (chosen_slug_lem, taken) (refl, inl (refl, taken))
    | inr free ↦ rw (chosen_slug_lem, free) (row-Creates c)
  ]
