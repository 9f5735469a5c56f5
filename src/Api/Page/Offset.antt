-- ===== src/Api/Page/Offset.antt =====
-- api/user.go, api/wallet.go, api/audit.go and api/admin_user.go: what the offset of a page is worth.
use template_golang_web.Base.{
  ℕ, zero, suc, ◌+◌, ◌-◌, ◌*◌, ◌^◌, ◌≤◌, ◌<◌, ◌≡◌, refl, arith, Bool, true, pos, negsuc, wrap_int32,
  List, [], ◌∷◌, ◌++◌, take, drop, select, sort_by, some,
}
use template_golang_web.Db.Model.{User, Database}
use template_golang_web.Db.Error.{Result, Query, ok, err}
use template_golang_web.Db.Users.{is_listed, by_id, list_users}
use template_golang_web.Db.Tx.Verdict.{stmt-fine}
use template_golang_web.Env.{Env, World, fine}
use template_golang_web.Errcode.{Code}
use template_golang_web.Api.Response.{fail, fail_internal}
use template_golang_web.Api.Handler.{answer}
use template_golang_web.Api.Page.{PageRequest, is_valid_page, offset_of, limit_of}
use template_golang_web.Api.Users

wrap_int32-small : (n : ℕ) → n < 2 ^ 31 → wrap_int32 n ≡ pos n
wrap_int32-small n h = ground arith

wrap_int32-big : (n : ℕ) → 2 ^ 31 ≤ n → n < 2 ^ 32 → wrap_int32 n ≡ negsuc (2 ^ 32 - n - 1)
wrap_int32-big n h k = ground arith

-- Within 32 bits the offset is the product.
pub offset_of-small :
    (req : PageRequest)
    → (req.page_num - 1) * req.page_size < 2 ^ 31
    → offset_of req ≡ pos ((req.page_num - 1) * req.page_size)
unfolding offset_of
offset_of-small req h = wrap_int32-small ((req.page_num - 1) * req.page_size) h

take_nil {ℓ} : {A : Type ℓ} (n : ℕ) → take {A = A} n [] ≡ []
take_nil zero = refl
take_nil (suc n) = refl

take-add {ℓ} :
    {A : Type ℓ} (m n : ℕ) (xs : List A) → take (m + n) xs ≡ take m xs ++ take n (drop m xs)
take-add zero n xs = let z : 0 + n ≡ n = omega arith in rw z refl
take-add {A = A} (suc m) n [] = ground (arith, take_nil {A = A} n, take_nil {A = A} (suc m + n))
take-add (suc m) n (x ∷ xs) =
    let z : suc m + n ≡ suc (m + n) = omega arith in rw (z, take-add m n xs) refl

-- The request for a page of the list of users, and what the query gives for it.
abbrev page_request : Bool → ℕ → ℕ → PageRequest
page_request include_deleted num size = record {
  page_num = num;
  page_size = size;
  include_deleted = include_deleted;
}

unfoldable pub fetch : PageRequest → ℕ → Database → Result (List User)
fetch req now d =
    (list_users
      (record {
        include_deleted = req.include_deleted;
        page_offset = offset_of req;
        page_limit = limit_of req;
      })
      now d).0

abbrev append_page : Result (List User) → Result (List User) → Result (List User)
append_page (ok us) (ok vs) = ok (us ++ vs)
append_page (ok us) (err e) = err e
append_page (err e) _ = err e

-- The pages 1 to n one after the other.
unfoldable pub fetch_pages : Bool → ℕ → ℕ → ℕ → Database → Result (List User)
fetch_pages include_deleted size zero now d = ok []
fetch_pages include_deleted size (suc n) now d =
    append_page (fetch_pages include_deleted size n now d)
      (fetch (page_request include_deleted (suc n) size) now d)

-- The first n pages of the list of users are, one after the other, the first n times the page's size
-- of the users in the order of their ids, without the deleted ones unless they are asked for, as long
-- as the offsets fit 32 bits.
pub fetch_pages-take :
    (include_deleted : Bool) (size n now : ℕ) (d : Database)
    → n * size < 2 ^ 31
    → fetch_pages include_deleted size n now d
      ≡ ok (take (n * size) (sort_by by_id (select (is_listed include_deleted) d.tables.users)))
unfolding fetch_pages fetch list_users
fetch_pages-take include_deleted size zero now d h = let z : 0 * size ≡ 0 = omega arith in rw z refl
fetch_pages-take include_deleted size (suc n) now d h =
    let rows = sort_by by_id (select (is_listed include_deleted) d.tables.users) in
    let first : suc n - 1 ≡ n = omega arith in
    let small : (suc n - 1) * size < 2 ^ 31 = rw first (omega arith) in
    let offset = offset_of-small (page_request include_deleted (suc n) size) small in
    ground (
      arith,
      fetch_pages-take include_deleted size n now d (omega arith),
      offset,
      first,
      take-add (n * size) size rows,
    )

module _ {R : Type 0} (env : Env R) (healthy : (n : ℕ) → env.fault n ≡ fine) where
  -- Where no call fails, a page number that the binding accepts, whose offset lies between 2^31 and
  -- 2^32, is answered with 500: the offset wraps around to a negative number, which the database refuses.
  pub list_users-overflow :
      (req : PageRequest) (w : World R)
      → is_valid_page req ≡ true
      → 2 ^ 31 ≤ (req.page_num - 1) * req.page_size
      → (req.page_num - 1) * req.page_size < 2 ^ 32
      → (Users.list_users env (some req) w).0 ≡ answer (fail 500 Code.internal)
  unfolding Users.list_users list_users offset_of fail_internal
  list_users-overflow req w valid big small =
      let wrapped = wrap_int32-big ((req.page_num - 1) * req.page_size) big small in
      let q : Query (List User) = list_users (record {
        include_deleted = req.include_deleted;
        page_offset = offset_of req;
        page_limit = limit_of req;
      }) in
      ground (arith, wrapped, stmt-fine env healthy q w)
