-- ===== src/Api/Page.antt =====
-- The paging that the list handlers of package api share: the query parameters pageNum and
-- pageSize with their binding tags, and the offset in int32 arithmetic; and the path parameter id.
pub mod Offset
use template_golang_web.Base.{
  ℕ, ◌-◌, ◌*◌, ◌^◌, Bool, ◌&&◌, ℤ, pos, wrap_int32, leb, List, max_int64,
}
use template_golang_web.Api.Response.{PageResult}

pub record PageRequest : Type 0 where
  pub page_num : ℕ
  pub page_size : ℕ
  pub include_deleted : Bool

-- binding:"required,min=1" and binding:"required,min=5,max=50", on int32 values
abbrev pub is_valid_page : PageRequest → Bool
is_valid_page req =
    leb 1 req.page_num
    && leb req.page_num (2 ^ 31 - 1)
    && (leb 5 req.page_size && leb req.page_size 50)

-- (req.PageNum - 1) * req.PageSize
unfoldable pub offset_of : PageRequest → ℤ
offset_of req = wrap_int32 ((req.page_num - 1) * req.page_size)

abbrev pub limit_of : PageRequest → ℤ
limit_of req = pos req.page_size

-- binding:"required,min=1" on an int64 value
abbrev pub is_valid_id : ℕ → Bool
is_valid_id id = leb 1 id && leb id max_int64

abbrev pub page_result {ℓ} : {A : Type ℓ} → PageRequest → ℕ → List A → PageResult A
page_result req total list = record {
  page_num = req.page_num;
  page_size = req.page_size;
  total = total;
  list = list;
}
