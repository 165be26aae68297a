-- ===== src/Api/Pagination/Tests.antt =====
-- A listing of seven rows in pages of three: api/src/vms/shared/api/pagination.py.
use next_sec.Prelude.{ℕ, ◌≡◌, refl, [], ◌∷◌}
use next_sec.Api.Pagination.{create_page, page_count}
use next_sec.Api.Pagination.Whole.{params}

third_page :
    create_page {T = ℕ} (16 ∷ []) 7 (params 3 3)
    ≡ record { items = 16 ∷ []; total = 7; page = 3; page_size = 3; pages = 3 }
unfolding create_page page_count
third_page = refl
