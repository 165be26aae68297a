-- ===== src/Api/Pagination.antt =====
-- Pages of a listing: api/src/vms/shared/api/pagination.py, which has no caller in the repositories.
pub mod Whole
mod Tests
use next_sec.Prelude.{ℕ, ◌+◌, ◌-◌, ◌*◌, ◌/◌, max, Bool, ◌&&◌, List, leb}

abbrev pub max_page_size : ℕ
max_page_size = 100

pub record PaginationParams : Type 0 where
  pub page : ℕ
  pub page_size : ℕ

-- The bounds of the fields.
abbrev pub is_valid : PaginationParams → Bool
is_valid p = leb 1 p.page && (leb 1 p.page_size && leb p.page_size max_page_size)

unfoldable pub offset : PaginationParams → ℕ
offset p = (p.page - 1) * p.page_size

pub record Page {ℓ} (T : Type ℓ) : Type ℓ where
  pub items : List T
  pub total : ℕ
  pub page : ℕ
  pub page_size : ℕ
  pub pages : ℕ

unfoldable pub page_count : ℕ → ℕ → ℕ
page_count total page_size = max 1 ((total + page_size - 1) / page_size)

unfoldable pub create_page {ℓ} : {T : Type ℓ} → List T → ℕ → PaginationParams → Page T
unfolding page_count
create_page items total p = record {
  items = items;
  total = total;
  page = p.page;
  page_size = p.page_size;
  pages = page_count total p.page_size;
}
