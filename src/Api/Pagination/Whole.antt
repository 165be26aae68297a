-- ===== src/Api/Pagination/Whole.antt =====
-- The pages of api/src/vms/shared/api/pagination.py cut up the whole listing.
use next_sec.Prelude.{ℕ, ◌+◌, ◌≤◌, ◌<◌}
use next_sec.Api.Pagination.{PaginationParams, offset}

abbrev pub params : ℕ → ℕ → PaginationParams
params page page_size = record { page = page; page_size = page_size }

-- Position i of a listing lies on this page.
abbrev pub LiesOn : ℕ → PaginationParams → Type 0
LiesOn i p = (offset p ≤ i) × (i < offset p + p.page_size)
