-- ===== src/Catalogue/Reading.antt =====
-- A product is read back as it was created (product.service.ts).
use mathlib.Core.Path.{subst}
use flash_core.Common.{ℕ, suc, ◌≡◌, refl, ap, sym, ◌∙◌, none, some, List, [], ◌∷◌, ◌++◌, ==_refl}
use flash_core.Common.Table.{find, select, select-append, find-append}
use flash_core.Store.{ok}
use flash_core.Pages.{Text}
use flash_core.Catalogue.Slug.{Unicode}
use flash_core.Catalogue.Rows.{Product, Catalogue, SkuInput, CreateProductDto}
use flash_core.Catalogue.Repository.{
  to_sku_create_input, has_product_id, is_of, with_skus, find_product_with_skus,
}
use flash_core.Catalogue.Service.{Row, create_product, found_or_error, get_product_with_skus}
use flash_core.Catalogue.Creation.{
  asked_slug, built, created, created_skus, Creates, create_product-Creates,
}

select-built :
    (unicode : Unicode) (ids : ℕ → ℕ) (now product : ℕ) (slug : Text) (n : ℕ)
    (inputs : List SkuInput)
    → select (is_of product) (built unicode ids now product slug n inputs)
      ≡ built unicode ids now product slug n inputs
unfolding to_sku_create_input
select-built unicode ids now product slug n [] = refl
select-built unicode ids now product slug n (input ∷ inputs) =
    rw (==_refl product, select-built unicode ids now product slug (suc n) inputs) refl

module _ (unicode : Unicode) (row : Row) (dto : CreateProductDto) where
  find-created :
      (c : Catalogue)
      → find (has_product_id row.id) c.products ≡ none
      → find (has_product_id row.id) (c.products ++ (created unicode row dto ∷ []))
        ≡ some (created unicode row dto)
  find-created c absent =
      find-append (has_product_id row.id) c.products (created unicode row dto ∷ [])
      ∙ rw (absent, ==_refl row.id) refl

  listed :
      (c : Catalogue)
      → select (is_of row.id) c.skus ≡ []
      → select (is_of row.id) (c.skus ++ created_skus unicode row dto)
        ≡ created_skus unicode row dto
  listed c none_yet =
      select-append (is_of row.id) c.skus (created_skus unicode row dto)
      ∙ rw
          (
            none_yet,
            select-built unicode row.sku_ids row.now row.id (asked_slug unicode row dto dto.slug) 0
                dto.skus,
          )
          refl

  read_created :
      (c : Catalogue) (p : Product) (c' : Catalogue)
      → select (is_of row.id) c.skus ≡ []
      → Creates unicode row dto c (ok p, c')
      → get_product_with_skus (some row.id) c' ≡ (ok (p, created_skus unicode row dto), c')
  unfolding get_product_with_skus find_product_with_skus found_or_error
  read_created c p c' none_yet h =
      ap (λ o. found_or_error o c')
        (ap (λ x. with_skus x (find (has_product_id row.id) x.products)) h.3
          ∙ (rw (find-created c h.1)
                (ap (λ skus. some (created unicode row dto, skus)) (listed c none_yet))
              ∙ ap (λ q. some (q, created_skus unicode row dto)) (sym h.0)))

  -- The product that a `createProduct` has given back is what `getProductWithSkus` finds under its id,
  -- with exactly the variants of the body, if no variant had that product id before.
  pub get_product_with_skus-create_product :
      (c : Catalogue) (p : Product) (c' : Catalogue)
      → select (is_of row.id) c.skus ≡ []
      → create_product unicode row dto c ≡ (ok p, c')
      → get_product_with_skus (some row.id) c' ≡ (ok (p, created_skus unicode row dto), c')
  get_product_with_skus-create_product c p c' none_yet made =
      read_created c p c' none_yet
        (subst (Creates unicode row dto c) made (create_product-Creates unicode row dto c))
