-- ===== src/Catalogue/Rows.antt =====
-- The tables `products` and `product_skus` of prisma/schema.prisma, and the bodies of product.dto.ts.
-- `attributes` stands for a JSON value, and only its identity is kept.
use flash_core.Common.{ℕ, Bool, true, false, Option, List, [], ◌∷◌, ◌==◌}
use flash_core.Pages.{Text}

pub data ProductStatus : Type 0 where
  draft active archived : ProductStatus

pub data SkuSize : Type 0 where
  s m l xl xxl : SkuSize

pub record Product : Type 0 where
  pub id : ℕ
  pub name : Text
  pub slug : Text
  pub description : Option Text
  pub status : ProductStatus
  pub attributes : Option ℕ
  pub created_at : ℕ

pub record ProductSku : Type 0 where
  pub id : ℕ
  pub product_id : ℕ
  pub size : SkuSize
  pub color : Text
  pub sku_code : Text
  pub price_vnd : ℕ
  pub stock : ℕ
  pub is_active : Bool
  pub created_at : ℕ

pub record Catalogue : Type 0 where
  pub products : List Product
  pub skus : List ProductSku

pub record SkuInput : Type 0 where
  pub size : SkuSize
  pub color : Text
  pub price_vnd : ℕ
  pub stock : ℕ

-- `skus` is empty where the body has none: the code treats both alike.
pub record CreateProductDto : Type 0 where
  pub name : Text
  pub slug : Option Text
  pub description : Option Text
  pub attributes : Option ℕ
  pub skus : List SkuInput

pub record UpdateProductDto : Type 0 where
  pub name : Option Text
  pub description : Option Text
  pub attributes : Option ℕ

pub record UpdateSkuDto : Type 0 where
  pub price_vnd : Option ℕ
  pub stock : Option ℕ
  pub is_active : Option Bool

abbrev pub show_size : SkuSize → Text
show_size SkuSize.s = b'S' ∷ []
show_size SkuSize.m = b'M' ∷ []
show_size SkuSize.l = b'L' ∷ []
show_size SkuSize.xl = b'X' ∷ b'L' ∷ []
show_size SkuSize.xxl = b'X' ∷ b'X' ∷ b'L' ∷ []

abbrev pub size_number : SkuSize → ℕ
size_number SkuSize.s = 0
size_number SkuSize.m = 1
size_number SkuSize.l = 2
size_number SkuSize.xl = 3
size_number SkuSize.xxl = 4

abbrev pub same_size : SkuSize → SkuSize → Bool
same_size a b = size_number a == size_number b

abbrev pub is_archived : ProductStatus → Bool
is_archived ProductStatus.draft = false
is_archived ProductStatus.active = false
is_archived ProductStatus.archived = true
