-- ===== src/Catalogue/Service.antt =====
-- ProductService (product.service.ts).
use flash_core.Common.{ℕ, true, Option, none, some, List, is_some, is_none}
use flash_core.Store.{Action, Error, pure, throw, throw_if, ◌>>=◌, ◌>>◌}
use flash_core.Pages.{Text, Codec, Page, list_page}
use flash_core.Catalogue.Slug.{Unicode, slugify}
use flash_core.Catalogue.Rows.{
  Product, ProductSku, Catalogue, SkuInput, CreateProductDto, UpdateProductDto, UpdateSkuDto,
}
use flash_core.Catalogue.Repository.{
  find_product_by_slug, find_product_by_id, find_product_with_skus, to_sku_create_input, insert_sku,
  create_product_row, update_product_row, archive_product_row, is_listed, find_sku_by_variant,
  find_sku_by_id, find_skus_by_product, update_sku_row, deactivate_sku_row, or_else,
}

-- What the database draws for a request: ids and the time.
pub record Row : Type 0 where
  pub id : ℕ
  pub sku_ids : ℕ → ℕ
  pub now : ℕ

unfoldable pub chosen_slug : Unicode → CreateProductDto → Text
unfolding slugify
chosen_slug unicode dto = or_else dto.slug (slugify unicode dto.name)

module _ (unicode : Unicode) where
  unfoldable pub create_product : Row → CreateProductDto → Action Catalogue Product
  unfolding find_product_by_slug create_product_row chosen_slug
  create_product row dto = do
    existing ← find_product_by_slug (chosen_slug unicode dto)
    throw_if (is_some existing) Error.slug_already_exists
    create_product_row unicode row.id row.sku_ids row.now (chosen_slug unicode dto) dto

  unfoldable pub add_to : Row → Option ℕ → SkuInput → Option Product → Action Catalogue ProductSku
  unfolding find_sku_by_variant insert_sku to_sku_create_input
  add_to row product input none = throw Error.product_not_found
  add_to row product input (some p) = do
    existing ← find_sku_by_variant product input.size input.color
    throw_if (is_some existing) Error.sku_already_exists
    insert_sku (to_sku_create_input unicode row.id row.now p.id p.slug input)

  unfoldable pub add_sku : Row → Option ℕ → SkuInput → Action Catalogue ProductSku
  unfolding add_to find_product_by_id
  add_sku row product input = do found ← find_product_by_id product; add_to row product input found

unfoldable pub assert_product_exists : Option ℕ → Action Catalogue (Unit {0})
unfolding find_product_by_id
assert_product_exists id = do
  found ← find_product_by_id id
  throw_if (is_none found) Error.product_not_found

unfoldable pub assert_sku_exists : Option ℕ → Action Catalogue (Unit {0})
unfolding find_sku_by_id
assert_sku_exists id = do found ← find_sku_by_id id; throw_if (is_none found) Error.sku_not_found

unfoldable pub found_or_error :
    Option (Product × List ProductSku) → Action Catalogue (Product × List ProductSku)
found_or_error none = throw Error.product_not_found
found_or_error (some p) = pure p

unfoldable pub get_product_with_skus : Option ℕ → Action Catalogue (Product × List ProductSku)
unfolding find_product_with_skus found_or_error
get_product_with_skus id = find_product_with_skus id >>= found_or_error

unfoldable pub update_product : Option ℕ → UpdateProductDto → Action Catalogue Product
unfolding assert_product_exists update_product_row
update_product id dto = assert_product_exists id >> update_product_row id dto

unfoldable pub archive_product : Option ℕ → Action Catalogue Product
unfolding assert_product_exists archive_product_row
archive_product id = assert_product_exists id >> archive_product_row id

unfoldable pub list_skus_of_product : Option ℕ → Action Catalogue (List ProductSku)
unfolding assert_product_exists find_skus_by_product
list_skus_of_product id = assert_product_exists id >> find_skus_by_product id

unfoldable pub update_sku : Option ℕ → UpdateSkuDto → Action Catalogue ProductSku
unfolding assert_sku_exists update_sku_row
update_sku id dto = assert_sku_exists id >> update_sku_row id dto

unfoldable pub deactivate_sku : Option ℕ → Action Catalogue ProductSku
unfolding assert_sku_exists deactivate_sku_row
deactivate_sku id = assert_sku_exists id >> deactivate_sku_row id

unfoldable pub list_products : Codec → Option Text → ℕ → Action Catalogue (Page Product)
unfolding list_page
list_products codec cursor limit c =
    (list_page codec (λ p. p.created_at) (λ p. p.id) is_listed cursor limit c.products, c)

unfoldable pub list_all_skus : Codec → Option Text → ℕ → Action Catalogue (Page ProductSku)
unfolding list_page
list_all_skus codec cursor limit c =
    (list_page codec (λ k. k.created_at) (λ k. k.id) (λ k. true) cursor limit c.skus, c)
