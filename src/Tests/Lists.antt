-- ===== src/Tests/Lists.antt =====
-- The theorems on the maps, the keys and the pages at small values.
use template_golang_web.Base.{
  ◌≡◌, refl, arith, str_eq, false, none, some, All, length, List, [], ◌∷◌, map, select, take,
  sort_by, ◌*◌,
}
use template_golang_web.Db.Error.{ok}
use template_golang_web.Db.Users.{is_listed, by_id}
use template_golang_web.Db.Model.{AdminUser}
use template_golang_web.Db.Roles
use template_golang_web.Db.Roles.{by_role_id}
use template_golang_web.Db.AdminUsers
use template_golang_web.Env.{stmt, attempt}
use template_golang_web.Cache.Keys.{admin_session_key, admin_session_key_ne}
use template_golang_web.Errcode.{Code}
use template_golang_web.Api.Response
use template_golang_web.Api.Response.{
  Response, RoleResponse, AdminUserWithRolesResponse, role_list, admin_user_page,
  new_admin_user_response, fail,
}
use template_golang_web.Api.Handler.{next, answer}
use template_golang_web.Api.AdminUsers.{
  list_roles, list_admin_users, read, push, group_roles, group_codes,
}
use template_golang_web.Api.AdminUsers.Exact.{
  IsExactRole, IsExactAdmin, shown, shown_of, user_of, page_params, list_roles-IsExact,
  list_admin_users-IsExact,
}
use template_golang_web.Api.Page.{PageRequest, offset_of, page_result}
use template_golang_web.Api.Page.Offset.{fetch_pages, fetch_pages-take, list_users-overflow}
use template_golang_web.Api.Users
use template_golang_web.Tests.Fixture.{env, healthy, tables, database, world}

abbrev first_page : PageRequest
first_page = record { page_num = 1; page_size = 10; include_deleted = false }

abbrev roles_answer : Response
roles_answer = Response.ok (
    role_list (
      record { id = 1; name = "admin"; description = ""; permissions = "*" ∷ []; created_at = 900 }
      ∷ []))

roles_run : (list_roles env world).0 ≡ next roles_answer
unfolding list_roles Roles.list_roles Roles.list_role_permissions stmt attempt read push group_codes
roles_run = refl

list_roles-IsExact_example :
    (rs : List RoleResponse) × (roles_answer ≡ Response.ok (role_list rs))
    × (map shown_of rs ≡ map shown (sort_by by_role_id tables.roles))
    × All (IsExactRole tables) rs
list_roles-IsExact_example = list_roles-IsExact env world roles_answer roles_run

abbrev admins_answer : Response
admins_answer = Response.ok (
    admin_user_page (record {
      page_num = 1;
      page_size = 10;
      total = 2;
      list =
          record {
            user = record { id = 1; username = "ada"; created_at = 900; deleted_at = none };
            roles = record { id = 1; name = "admin" } ∷ [];
          }
          ∷ record {
            user = record { id = 2; username = "bob"; created_at = 900; deleted_at = none };
            roles = [];
          }
          ∷ [];
    }))

admins_run : (list_admin_users env (some first_page) world).0 ≡ next admins_answer
unfolding list_admin_users AdminUsers.list_admin_users AdminUsers.count_admin_users
    Roles.list_admin_user_roles stmt attempt offset_of read push group_roles new_admin_user_response
admins_run = refl

list_admin_users-IsExact_example :
    (users : List AdminUser) × (us : List AdminUserWithRolesResponse)
    × ((AdminUsers.list_admin_users (page_params first_page) 1000 database).0 ≡ ok users)
    × (admins_answer
        ≡ Response.ok (
            admin_user_page (
              page_result first_page
                (length (select (AdminUsers.is_listed false) tables.admin_users))
                us)))
    × (map user_of us ≡ map new_admin_user_response users)
    × All (IsExactAdmin tables) us
list_admin_users-IsExact_example =
    list_admin_users-IsExact env first_page world admins_answer admins_run

admin_session_key_ne_example : str_eq (admin_session_key 1) (admin_session_key 12) ≡ false
admin_session_key_ne_example =
    admin_session_key_ne 1 12 (omega arith) (omega arith) (λ e. omega (arith, e))

fetch_pages-take_example :
    fetch_pages false 5 3 1000 database
    ≡ ok (take (3 * 5) (sort_by by_id (select (is_listed false) database.tables.users)))
fetch_pages-take_example = fetch_pages-take false 5 3 1000 database (omega arith)

abbrev far_page : PageRequest
far_page = record { page_num = 42949674; page_size = 50; include_deleted = false }

list_users-overflow_example :
    (Users.list_users env (some far_page) world).0 ≡ answer (fail 500 Code.internal)
list_users-overflow_example =
    list_users-overflow env healthy far_page world refl (omega arith) (omega arith)
