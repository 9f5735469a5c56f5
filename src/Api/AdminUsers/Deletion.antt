-- ===== src/Api/AdminUsers/Deletion.antt =====
-- api/admin_user.go: the deletion of an account of the back office marks the row, ends the session
-- of the account, and is refused to the account itself.
use template_golang_web.Base.{
  ℕ, ◌≡◌, ◌≢◌, refl, arith, ◌&&◌, some, none, List, [], ◌∷◌, map, find, select, length, ◌==◌,
  ==_iff, inl, inr, Bool-cases,
}
use template_golang_web.Db.Model.{AdminUser, Database}
use template_golang_web.Db.Error.{ok, Result-cases}
use template_golang_web.Db.AdminUsers.{is_live, soft_deleted, soft_delete_admin_user}
use template_golang_web.Db.Tx.Atomic.{stmt-eq-ok}
use template_golang_web.Env.{Env, World, AuthUser, stmt}
use template_golang_web.Cache.{get, del}
use template_golang_web.Api.Response.{Response}
use template_golang_web.Api.Handler.{next}
use template_golang_web.Api.Page.{is_valid_id}
use template_golang_web.Api.Auth.{kick_admin_session}
use template_golang_web.Api.AdminUsers.{delete_admin_user}

-- No live row of the account is left, and the rows of others are as they were.
gone :
    (id now : ℕ) (rows : List AdminUser)
    → find (λ u. u.id == id && is_live u) (map (soft_deleted id now) rows) ≡ none
gone id now [] = refl
gone id now (u ∷ us) = ground (arith, gone id now us)

others_kept :
    (id k now : ℕ) (rows : List AdminUser)
    → k ≢ id
    → find (λ u. u.id == k && is_live u) (map (soft_deleted id now) rows)
      ≡ find (λ u. u.id == k && is_live u) rows
others_kept id k now [] h = refl
others_kept id k now (u ∷ us) h = ground (arith, others_kept id k now us h)

-- A count that is not 0 has a row.
find-length :
    (id : ℕ) (rows : List AdminUser)
    → length (select (λ u. u.id == id && is_live u) rows) ≢ 0
    → find (λ u. u.id == id && is_live u) rows ≢ none
find-length id [] h = absurd (h refl)
find-length id (u ∷ us) h = ground (arith, find-length id us)

soft_delete_admin_user-eq-ok :
    (id rows now : ℕ) (d : Database)
    → (soft_delete_admin_user id now d).0 ≡ ok rows
    → (rows ≡ length (select (λ u. u.id == id && is_live u) d.tables.admin_users))
      × ((soft_delete_admin_user id now d).1.tables.admin_users
          ≡ map (soft_deleted id now) d.tables.admin_users)
unfolding soft_delete_admin_user
soft_delete_admin_user-eq-ok id rows now d h = ground arith

module _ {R : Type 0} (env : Env R) where
  kick_db :
      (id : ℕ) (w : World R)
      → ((kick_admin_session env id w).0 ≡ next tt)
        × ((kick_admin_session env id w).1.db ≡ w.db)
        × ((kick_admin_session env id w).1.now ≡ w.now)
  unfolding kick_admin_session get del
  kick_db id w = ground arith

  -- A deletion that succeeds is of another account, which was live and has no live row any more;
  -- the live rows of all other accounts are as they were.
  pub delete_admin_user-eq-next :
      (operator : AuthUser) (id k : ℕ) (w : World R) (r : Response)
      → (delete_admin_user env operator (some id) w).0 ≡ next r
      → k ≢ id
      → let rows = (delete_admin_user env operator (some id) w).1.db.tables.admin_users in
        (id ≢ operator.user_id)
        × (find (λ u. u.id == id && is_live u) w.db.tables.admin_users ≢ none)
        × (find (λ u. u.id == id && is_live u) rows ≡ none)
        × (find (λ u. u.id == k && is_live u) rows
            ≡ find (λ u. u.id == k && is_live u) w.db.tables.admin_users)
  unfolding delete_admin_user
  delete_admin_user-eq-next operator id k w r h other =
      let q = soft_delete_admin_user id in
      let w1 = (stmt env q w).1 in
      elim (Bool-cases (is_valid_id id)) [
        | inr invalid ↦ absurd (ground arith)
        | inl valid ↦ elim (Bool-cases (id == operator.user_id)) [
          | inl self ↦ absurd (ground arith)
          | inr distinct ↦ elim (Result-cases (stmt env q w).0) [
            | inr (e, failed) ↦ absurd (ground arith)
            | inl (rows, done) ↦
                let (ran, world) = stmt-eq-ok env q w rows done in
                let (count, tables) = soft_delete_admin_user-eq-ok id rows w.now w.db ran in
                elim (Bool-cases (rows == 0)) [
                  | inl nothing ↦ absurd (ground arith)
                  | inr some_row ↦
                      let (on, same, _) = kick_db id w1 in
                      let final : (delete_admin_user env operator (some id) w).1.db ≡ w1.db =
                        ground arith in
                      let marked : (delete_admin_user env operator (some id)
                            w).1.db.tables.admin_users
                          ≡ map (soft_deleted id w.now) w.db.tables.admin_users =
                        ground arith in
                      (
                        ground (arith, ==_iff id operator.user_id),
                        find-length id w.db.tables.admin_users (ground arith),
                        rw marked (gone id w.now w.db.tables.admin_users),
                        rw marked (others_kept id k w.now w.db.tables.admin_users other),
                      )
                ]
          ]
        ]
      ]
