-- ===== src/Catalogue/Repository.antt =====
-- ProductRepository (product.repository.ts), one function for each statement. An id comes out of a
-- route as a text; it is here what the database makes of it, nothing where it is no UUID.
use flash_core.Common.{
  ℕ, suc, Bool, true, false, Option, none, some, List, [], ◌∷◌, ◌++◌, ◌==◌, ◌&&◌, ◌||◌, not, leb,
}
use flash_core.Common.Table.{find, select, exists_row, update_where}
use flash_core.Common.Sequence.{sort_by}
use flash_core.Store.{Action, Error, pure, throw, throw_if, gets, modify, transaction, ◌>>=◌, ◌>>◌}
use flash_core.Common.Texts.{same_text}
use flash_core.Pages.{Text}
use flash_core.Catalogue.Slug.{Unicode}
use flash_core.Catalogue.Code.{generate_sku_code}
use flash_core.Catalogue.Rows.{
  ProductStatus, SkuSize, Product, ProductSku, Catalogue, SkuInput, CreateProductDto,
  UpdateProductDto, UpdateSkuDto, show_size, same_size, is_archived,
}

abbrev pub has_product_id : ℕ → Product → Bool
has_product_id id p = p.id == id

abbrev pub has_slug : Text → Product → Bool
has_slug slug p = same_text p.slug slug

abbrev pub has_sku_id : ℕ → ProductSku → Bool
has_sku_id id k = k.id == id

abbrev pub is_of : ℕ → ProductSku → Bool
is_of product k = k.product_id == product

abbrev pub is_variant : ℕ → SkuSize → Text → ProductSku → Bool
is_variant product size color k =
    k.product_id == product && (same_size k.size size && same_text k.color color)

-- The text of a route as a `uuid`.
abbrev pub as_uuid : Option ℕ → Action Catalogue ℕ
as_uuid none = throw Error.query_failed
as_uuid (some id) = pure id

unfoldable pub find_product_by_slug : Text → Action Catalogue (Option Product)
find_product_by_slug slug = gets λ c. find (has_slug slug) c.products

unfoldable pub find_product_by_id : Option ℕ → Action Catalogue (Option Product)
find_product_by_id text = do id ← as_uuid text; gets λ c. find (has_product_id id) c.products

abbrev pub with_skus : Catalogue → Option Product → Option (Product × List ProductSku)
with_skus c none = none
with_skus c (some p) = some (p, select (is_of p.id) c.skus)

unfoldable pub find_product_with_skus :
    Option ℕ → Action Catalogue (Option (Product × List ProductSku))
find_product_with_skus text = do
  id ← as_uuid text
  gets λ c. with_skus c (find (has_product_id id) c.products)

-- `toSkuCreateInput`, with the id and the time that the database gives.
unfoldable pub to_sku_create_input : Unicode → ℕ → ℕ → ℕ → Text → SkuInput → ProductSku
unfolding generate_sku_code
to_sku_create_input unicode id now product slug input = record {
  id = id;
  product_id = product;
  size = input.size;
  color = input.color;
  sku_code = generate_sku_code unicode slug input.color (show_size input.size);
  price_vnd = input.price_vnd;
  stock = input.stock;
  is_active = true;
  created_at = now;
}

-- A row with the same id, code or variant: three unique keys. (No product is ever deleted, so the
-- foreign key to it holds.)
abbrev pub collides : ProductSku → ProductSku → Bool
collides new k =
    has_sku_id new.id k
    || (same_text k.sku_code new.sku_code || is_variant new.product_id new.size new.color k)

-- INTEGER columns.
abbrev pub fits_integer : ℕ → Bool
fits_integer n = leb n 2_147_483_647

unfoldable pub insert_sku : ProductSku → Action Catalogue ProductSku
insert_sku new = do
  throw_if (not (fits_integer new.price_vnd && fits_integer new.stock)) Error.query_failed
  taken ← gets λ c. exists_row (collides new) c.skus
  throw_if taken Error.unique_violation
  modify λ c. record c { skus = c.skus ++ (new ∷ []) }
  pure new

-- `createMany`, within the caller's transaction; the ids that the database gives are `ids 0`, `ids 1`
-- and so on.
unfoldable pub insert_skus :
    Unicode → (ℕ → ℕ) → ℕ → ℕ → ℕ → Text → List SkuInput → Action Catalogue (Unit {0})
unfolding insert_sku
insert_skus unicode ids n now product slug [] = pure tt
insert_skus unicode ids n now product slug (input ∷ inputs) =
    insert_sku (to_sku_create_input unicode (ids n) now product slug input)
    >> insert_skus unicode ids (suc n) now product slug inputs

abbrev pub new_product : ℕ → ℕ → Text → CreateProductDto → Product
new_product id now slug dto = record {
  id = id;
  name = dto.name;
  slug = slug;
  description = dto.description;
  status = ProductStatus.draft;
  attributes = dto.attributes;
  created_at = now;
}

unfoldable pub insert_product : Product → Action Catalogue (Unit {0})
insert_product new = do
  taken ← gets λ c. exists_row (λ p. has_product_id new.id p || has_slug new.slug p) c.products
  throw_if taken Error.unique_violation
  modify λ c. record c { products = c.products ++ (new ∷ []) }

unfoldable pub create_product_row :
    Unicode → ℕ → (ℕ → ℕ) → ℕ → Text → CreateProductDto → Action Catalogue Product
unfolding insert_product insert_skus
create_product_row unicode id ids now slug dto = transaction do
  insert_product (new_product id now slug dto)
  insert_skus unicode ids 0 now id slug dto.skus
  pure (new_product id now slug dto)

abbrev pub or_else {ℓ} : {A : Type ℓ} → Option A → A → A
or_else none old = old
or_else (some new) old = new

abbrev pub kept_unless {ℓ} : {A : Type ℓ} → Option A → Option A → Option A
kept_unless none old = old
kept_unless (some new) old = some new

-- A field that the body leaves out stays as it is.
abbrev pub updated_product : UpdateProductDto → Product → Product
updated_product dto p = record p {
  name = or_else dto.name p.name;
  description = kept_unless dto.description p.description;
  attributes = kept_unless dto.attributes p.attributes;
}

-- Prisma's `update`: it throws if there is no such row, and gives the row as it has become.
unfoldable pub change_found_product :
    (Product → Product) → ℕ → Option Product → Action Catalogue Product
change_found_product f id none = throw Error.query_failed
change_found_product f id (some p) = do
  modify λ c. record c { products = update_where (has_product_id id) f c.products }
  pure (f p)

unfoldable pub change_product : (Product → Product) → Option ℕ → Action Catalogue Product
unfolding change_found_product
change_product f text = do
  id ← as_uuid text
  found ← gets λ c. find (has_product_id id) c.products
  change_found_product f id found

unfoldable pub update_product_row : Option ℕ → UpdateProductDto → Action Catalogue Product
unfolding change_product
update_product_row text dto = change_product (updated_product dto) text

unfoldable pub archive_product_row : Option ℕ → Action Catalogue Product
unfolding change_product
archive_product_row text = change_product (λ p. record p { status = ProductStatus.archived }) text

abbrev pub is_listed : Product → Bool
is_listed p = not (is_archived p.status)

unfoldable pub find_sku_by_variant :
    Option ℕ → SkuSize → Text → Action Catalogue (Option ProductSku)
find_sku_by_variant text size color = do
  product ← as_uuid text
  gets λ c. find (is_variant product size color) c.skus

unfoldable pub find_sku_by_id : Option ℕ → Action Catalogue (Option ProductSku)
find_sku_by_id text = do id ← as_uuid text; gets λ c. find (has_sku_id id) c.skus

unfoldable pub find_skus_by_product : Option ℕ → Action Catalogue (List ProductSku)
find_skus_by_product text = do
  product ← as_uuid text
  gets λ c. sort_by (λ k. k.created_at) (select (is_of product) c.skus)

abbrev pub updated_sku : UpdateSkuDto → ProductSku → ProductSku
updated_sku dto k = record k {
  price_vnd = or_else dto.price_vnd k.price_vnd;
  stock = or_else dto.stock k.stock;
  is_active = or_else dto.is_active k.is_active;
}

abbrev pub fits_if_given : Option ℕ → Bool
fits_if_given none = true
fits_if_given (some n) = fits_integer n

unfoldable pub change_found_sku :
    (ProductSku → ProductSku) → ℕ → Option ProductSku → Action Catalogue ProductSku
change_found_sku f id none = throw Error.query_failed
change_found_sku f id (some k) = do
  modify λ c. record c { skus = update_where (has_sku_id id) f c.skus }
  pure (f k)

unfoldable pub change_sku : (ProductSku → ProductSku) → Option ℕ → Action Catalogue ProductSku
unfolding change_found_sku
change_sku f text = do
  id ← as_uuid text
  found ← gets λ c. find (has_sku_id id) c.skus
  change_found_sku f id found

unfoldable pub update_sku_row : Option ℕ → UpdateSkuDto → Action Catalogue ProductSku
unfolding change_sku
update_sku_row text dto = do
  throw_if (not (fits_if_given dto.price_vnd && fits_if_given dto.stock)) Error.query_failed
  change_sku (updated_sku dto) text

unfoldable pub deactivate_sku_row : Option ℕ → Action Catalogue ProductSku
unfolding change_sku
deactivate_sku_row text = change_sku (λ k. record k { is_active = false }) text
