-- ===== src/Api/Auth/Password.antt =====
-- api/auth.go: what a change of the own password leaves.
use template_golang_web.Base.{
  ℕ, ◌+◌, ◌≤◌, ◌≡◌, ◌≢◌, refl, arith, String, true, ◌&&◌, some, List, [], ◌∷◌, map, find, ◌==◌, inl,
  inr, Bool-cases, Option-cases,
}
use template_golang_web.Db.Model.{AdminUser}
use template_golang_web.Db.AdminUsers.{
  is_live, get_admin_user, rehashed, update_admin_user_password, UpdateAdminUserPasswordParams,
}
use template_golang_web.Db.Tx.Verdict.{stmt-fine}
use template_golang_web.Env.{Env, World, AuthUser, IsLawful, IsHashing, fine, ticked}
use template_golang_web.Cache.{del}
use template_golang_web.Cache.Keys.{session_key, admin_session_key}
use template_golang_web.Errcode.{Code}
use template_golang_web.Api.Response.{Response, fail}
use template_golang_web.Api.Handler.{next, answer}
use template_golang_web.Api.Auth.{
  ChangePasswordRequest, is_valid_change, hash_password, check_password, verify_old,
  change_password,
}
use template_golang_web.Api.Auth.Revocation.{IsGone, auth_middleware-IsGone, get_del-first}
use template_golang_web.Api.Middleware.{auth_middleware}

find-rehashed :
    (arg : UpdateAdminUserPasswordParams) (rows : List AdminUser) (row : AdminUser)
    → find (λ u. u.id == arg.id && is_live u) rows ≡ some row
    → find (λ u. u.id == arg.id && is_live u) (map (rehashed arg) rows)
      ≡ some (record row { hashed_password = arg.hashed_password })
find-rehashed arg [] row h = absurd cc
find-rehashed arg (u ∷ us) row h = ground (arith, find-rehashed arg us row)

find-rehashed_other :
    (arg : UpdateAdminUserPasswordParams) (k : ℕ) (rows : List AdminUser)
    → k ≢ arg.id
    → find (λ u. u.id == k && is_live u) (map (rehashed arg) rows)
      ≡ find (λ u. u.id == k && is_live u) rows
find-rehashed_other arg k [] h = refl
find-rehashed_other arg k (u ∷ us) h = ground (arith, find-rehashed_other arg k us h)

-- The account of the session had the old password and has the new one; nothing else of it is changed.
pub record IsChanged {R : Type 0} (env : Env R) (id : ℕ) (req : ChangePasswordRequest)
    (before after : List AdminUser) : Type 0 where
  pub row : AdminUser
  pub hashed : String
  pub found : find (λ u. u.id == id && is_live u) before ≡ some row
  pub old_accepted : check_password env req.old_password row.hashed_password ≡ true
  pub stored :
      find (λ u. u.id == id && is_live u) after ≡ some (record row { hashed_password = hashed })
  pub new_accepted : check_password env req.new_password hashed ≡ true

module _ {R : Type 0} (env : Env R) (healthy : (n : ℕ) → env.fault n ≡ fine) where
  -- What it leaves in the database and in the cache.
  record IsWritten (token : String) (id : ℕ) (req : ChangePasswordRequest) (w v : World R)
      : Type 0 where
    row : AdminUser
    hashed : String
    found : find (λ u. u.id == id && is_live u) w.db.tables.admin_users ≡ some row
    old_accepted : check_password env req.old_password row.hashed_password ≡ true
    made : env.bcrypt_generate (w.tick + 1) req.new_password ≡ some hashed
    rows :
        v.db.tables.admin_users
        ≡ map (rehashed (record { id = id; hashed_password = hashed })) w.db.tables.admin_users
    cache : v.cache ≡ env.redis.del w.now (session_key token ∷ admin_session_key id ∷ []) w.cache

  change_password-IsWritten :
      (token : String) (auth : AuthUser) (req : ChangePasswordRequest) (w : World R) (r : Response)
      → (change_password env token auth (some req) w).0 ≡ next r
      → IsWritten token auth.user_id req w (change_password env token auth (some req) w).1
  unfolding change_password verify_old hash_password get_admin_user update_admin_user_password del
  change_password-IsWritten token auth req w r h =
      let got = stmt-fine env healthy (get_admin_user auth.user_id) w in
      elim (Bool-cases (is_valid_change env req)) [
        | inr bad ↦ absurd (ground arith)
        | inl good ↦
            elim (Option-cases
              (find (λ u. u.id == auth.user_id && is_live u) w.db.tables.admin_users)) [
                | inl missing ↦ absurd (ground (arith, got))
                | inr (row, found) ↦
                    elim (Bool-cases (check_password env req.old_password row.hashed_password)) [
                      | inr wrong ↦ absurd (ground (arith, got))
                      | inl accepted ↦
                          elim (Option-cases (env.bcrypt_generate (w.tick + 1) req.new_password)) [
                            | inl failed ↦ absurd (ground (arith, got))
                            | inr (hashed, made) ↦
                                let arg : UpdateAdminUserPasswordParams = record {
                                  id = auth.user_id;
                                  hashed_password = hashed;
                                } in
                                let set =
                                  stmt-fine env healthy (update_admin_user_password arg)
                                    (ticked w) in
                                record {
                                  row = row;
                                  hashed = hashed;
                                  found = found;
                                  old_accepted = accepted;
                                  made = made;
                                  rows = ground (arith, got, set, healthy (w.tick + 2));
                                  cache = ground (arith, got, set, healthy (w.tick + 2));
                                }
                          ]
                    ]
              ]
      ]

  -- Where no call fails, a change of the password that succeeds is of a live account whose old
  -- password was given. The account then accepts the new one, the rest of its row and the live rows
  -- of all other accounts are as they were, and every later request that carries the token and finds
  -- the cache as the change left it is answered with 401.
  pub change_password-IsChanged :
      IsLawful env.redis
      → IsHashing env
      → (token : String) (auth : AuthUser) (req : ChangePasswordRequest) (k : ℕ) (w v : World R)
        (r : Response)
      → (change_password env token auth (some req) w).0 ≡ next r
      → v.cache ≡ (change_password env token auth (some req) w).1.cache
      → w.now ≤ v.now
      → k ≢ auth.user_id
      → let rows = (change_password env token auth (some req) w).1.db.tables.admin_users in
        IsChanged env auth.user_id req w.db.tables.admin_users rows
        × (find (λ u. u.id == k && is_live u) rows
            ≡ find (λ u. u.id == k && is_live u) w.db.tables.admin_users)
        × ((auth_middleware env token v).0 ≡ answer (fail 401 Code.unauthorized))
  unfolding check_password
  change_password-IsChanged lawful hashing token auth req k w v r h same later other =
      let c = change_password-IsWritten token auth req w r h in
      let arg : UpdateAdminUserPasswordParams = record {
        id = auth.user_id;
        hashed_password = c.hashed;
      } in
      let before = w.db.tables.admin_users in
      let gone : IsGone env token v = ground (
        arith,
        same,
        c.cache,
        get_del-first env lawful w.now v.now (session_key token)
            (admin_session_key auth.user_id ∷ []) w.cache later,
      ) in
      (
        record {
          row = c.row;
          hashed = c.hashed;
          found = c.found;
          old_accepted = c.old_accepted;
          stored = rw c.rows (find-rehashed arg before c.row c.found);
          new_accepted = hashing.accepts (w.tick + 1) req.new_password c.hashed c.made;
        },
        rw c.rows (find-rehashed_other arg k before other),
        auth_middleware-IsGone env token v gone (healthy v.tick),
      )
