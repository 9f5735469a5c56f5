-- ===== src/Api/Users.antt =====
-- api/user.go: registration, and what the back office does with the users of the front end.
use template_golang_web.Base.{ℕ, String, str_eq, Bool, not, ◌&&◌, Option, map, ◌==◌, if◌then◌else◌}
use template_golang_web.Db.Error.{Error, is_no_rows, is_unique_violation}
use template_golang_web.Db.Users
use template_golang_web.Db.Tx.{create_user_tx}
use template_golang_web.Env.{Env, stmt}
use template_golang_web.Errcode.{Code}
use template_golang_web.Api.Response
use template_golang_web.Api.Response.{
  Response, null, created_user, user, user_page, fail, fail_internal, new_user_response,
}
use template_golang_web.Api.Handler.{
  Handler, ◌>>=◌, ◌>>◌, done, refuse, call_or, call, bind, ensure,
}
use template_golang_web.Api.Page.{
  PageRequest, is_valid_page, offset_of, limit_of, is_valid_id, page_result,
}
use template_golang_web.Api.Auth.{is_password, is_username, hash_password}

pub record CreateUserRequest : Type 0 where
  pub username : String
  pub email : String
  pub password : String

module _ {R : Type 0} (env : Env R) where
  abbrev pub is_valid_user : CreateUserRequest → Bool
  is_valid_user req =
      is_username env req.username
      && (not (str_eq req.email "") && env.is_email req.email)
      && is_password env req.password

  -- A clash of unique keys is a conflict.
  abbrev pub on_clash : {A : Type 0} → Error → Handler R A
  on_clash e =
      if is_unique_violation e then refuse (fail 409 Code.user_exists) else refuse (fail_internal e)

  unfoldable pub create_user : Option CreateUserRequest → Handler R Response
  create_user body = do
    req ← bind is_valid_user body
    hashed ← call (hash_password env req.password)
    result ←
        call_or
          (create_user_tx env
            (record { username = req.username; email = req.email; hashed_password = hashed }))
          on_clash
    done (Response.ok (created_user (new_user_response result.user) result.wallet))

  unfoldable pub get_user : Option ℕ → Handler R Response
  get_user uri = do
    id ← bind is_valid_id uri
    u ← call_or (stmt env (Users.get_user id)) (λ e.
        if is_no_rows e then refuse (fail 404 Code.user_not_found) else refuse (fail_internal e))
    done (Response.ok (user (new_user_response u)))

  unfoldable pub list_users : Option PageRequest → Handler R Response
  list_users query = do
    req ← bind is_valid_page query
    users ← call (
        stmt env (
          Users.list_users (record {
            include_deleted = req.include_deleted;
            page_offset = offset_of req;
            page_limit = limit_of req;
          })))
    total ← call (stmt env (Users.count_users req.include_deleted))
    done (Response.ok (user_page (page_result req total (map new_user_response users))))

  unfoldable pub delete_user : Option ℕ → Handler R Response
  delete_user uri = do
    id ← bind is_valid_id uri
    rows ← call (stmt env (Users.soft_delete_user id))
    ensure (not (rows == 0)) (fail 404 Code.user_not_found)
    done (Response.ok null)

  unfoldable pub restore_user : Option ℕ → Handler R Response
  restore_user uri = do
    id ← bind is_valid_id uri
    rows ← call_or (stmt env (Users.restore_user id)) on_clash
    ensure (not (rows == 0)) (fail 404 Code.user_not_found)
    done (Response.ok null)
