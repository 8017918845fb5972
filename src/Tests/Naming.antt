-- ===== src/Tests/Naming.antt =====
-- Products, their names and variants.
use flash_core.Common.{◌+◌, ◌≤◌, ◌≡◌, refl, true, none, some, List, [], ◌∷◌}
use flash_core.Common.Sequence.{length}
use flash_core.Store.{ok, err, Error}
use flash_core.Pages.{Text}
use flash_core.Catalogue.Slug.{Unicode, slugify, strip_diacritics}
use flash_core.Catalogue.Code.{generate_sku_code}
use flash_core.Catalogue.Rows.{SkuSize, Catalogue, SkuInput, CreateProductDto}
use flash_core.Catalogue.Repository.{to_sku_create_input}
use flash_core.Catalogue.Service.{Row, create_product, get_product_with_skus}
use flash_core.Catalogue.Naming.{is_slug, slugify-is_slug, slugify_slug, length-generate_sku_code}
use flash_core.Catalogue.Creation.{Creates, created, created_skus, create_product-Creates}
use flash_core.Catalogue.Reading.{get_product_with_skus-create_product}

-- Letters that are small and plain already.
abbrev ascii : Unicode
ascii = record { nfd = λ t. t; lower = λ t. t; upper = λ t. t; trim = λ t. t }

-- "ao 2!"
abbrev shirt : Text
shirt = b'a' ∷ b'o' ∷ b' ' ∷ b'2' ∷ b'!' ∷ []

slugify_run : slugify ascii shirt ≡ b'a' ∷ b'o' ∷ b'-' ∷ b'2' ∷ []
unfolding slugify
slugify_run = refl

slugify-is_slug_example : is_slug (slugify ascii shirt) ≡ true
unfolding strip_diacritics
slugify-is_slug_example = slugify-is_slug ascii shirt

slugify_slug_example : slugify ascii (b'a' ∷ b'-' ∷ b'2' ∷ []) ≡ b'a' ∷ b'-' ∷ b'2' ∷ []
slugify_slug_example = slugify_slug ascii (b'a' ∷ b'-' ∷ b'2' ∷ []) refl refl refl refl

length-generate_sku_code_example :
    (10 ≤ length (generate_sku_code ascii shirt shirt (b'M' ∷ [])))
    × (length (generate_sku_code ascii shirt shirt (b'M' ∷ [])) ≤ 28)
length-generate_sku_code_example = length-generate_sku_code ascii shirt shirt (b'M' ∷ [])

abbrev variant : SkuSize → SkuInput
variant size = record { size = size; color = b'd' ∷ []; price_vnd = 90_000; stock = 3 }

abbrev body : List SkuInput → CreateProductDto
body skus = record { name = shirt; slug = none; description = none; attributes = none; skus = skus }

abbrev drawn : Row
drawn = record { id = 5; sku_ids = λ n. n + 50; now = 1000 }

abbrev empty : Catalogue
empty = record { products = []; skus = [] }

abbrev two_sizes : CreateProductDto
two_sizes = body (variant SkuSize.m ∷ variant SkuSize.xl ∷ [])

-- The same size and color twice is one unique key twice: the product is not created.
repeated_variant_run :
    create_product ascii drawn (body (variant SkuSize.m ∷ variant SkuSize.m ∷ [])) empty
    ≡ (err Error.unique_violation, empty)
unfolding create_product to_sku_create_input
repeated_variant_run = refl

create_product-Creates_example :
    Creates ascii drawn two_sizes empty (create_product ascii drawn two_sizes empty)
create_product-Creates_example = create_product-Creates ascii drawn two_sizes empty

abbrev after_creation : Catalogue
after_creation = (create_product ascii drawn two_sizes empty).1

get_product_with_skus-create_product_example :
    get_product_with_skus (some 5) after_creation
    ≡ (ok (created ascii drawn two_sizes, created_skus ascii drawn two_sizes), after_creation)
unfolding create_product to_sku_create_input
get_product_with_skus-create_product_example =
    get_product_with_skus-create_product ascii drawn two_sizes empty (created ascii drawn two_sizes)
      after_creation refl refl
