-- ===== src/Api/Server/Writing.antt =====
-- The handlers that write: each makes at most one call of the store that changes the database.
use template_golang_web.Base.{
  ℕ, ◌≡◌, refl, arith, Option, some, none, String, ◌⊎◌, inl, inr, Bool-cases, Option-cases, ◌&&◌,
}
use template_golang_web.Env.{Env, World, AuthUser}
use template_golang_web.Db.Store.{StoreCall, run_call}
use template_golang_web.Cache.{get, del}
use template_golang_web.Api.Page.{is_valid_id}
use template_golang_web.Api.Users as UserApi
use template_golang_web.Api.Users.{CreateUserRequest, is_valid_user}
use template_golang_web.Api.Wallets as WalletApi
use template_golang_web.Api.Wallets.{AdjustWalletRequest, is_valid_adjust}
use template_golang_web.Api.AdminUsers as AdminApi
use template_golang_web.Api.AdminUsers.{CreateAdminUserRequest, is_valid_admin, all_ids}
use template_golang_web.Api.Auth.{hash_password, logout, me, kick_admin_session}

module _ {R : Type 0} (env : Env R) where
  -- The database is as it was, or is what one call of the store made of it.
  abbrev pub IsStep : World R → World R → Type 0
  IsStep w w' =
      (w'.db ≡ w.db)
      ⊎ ((c : StoreCall) × (v : World R) × (v.db ≡ w.db) × (w'.db ≡ (run_call env c v).db))

  module _ (w : World R) where
    pub logout_db : (token : String) (user : AuthUser) → (logout env token user w).1.db ≡ w.db
    unfolding logout del
    logout_db token user = ground arith

    pub me_db : (user : AuthUser) → (me env user w).1.db ≡ w.db
    unfolding me
    me_db user = refl

    pub kick_admin_session_db : (id : ℕ) → (kick_admin_session env id w).1.db ≡ w.db
    unfolding kick_admin_session get del
    kick_admin_session_db id = ground arith

    pub delete_user-IsStep : (id : Option ℕ) → IsStep w (UserApi.delete_user env id w).1
    unfolding UserApi.delete_user run_call
    delete_user-IsStep none = inl refl
    delete_user-IsStep (some id) = elim (Bool-cases (is_valid_id id)) [
      | inr bad ↦ inl (ground arith)
      | inl good ↦ inr (StoreCall.soft_delete_user id, w, refl, ground arith)
    ]

    pub restore_user-IsStep : (id : Option ℕ) → IsStep w (UserApi.restore_user env id w).1
    unfolding UserApi.restore_user run_call
    restore_user-IsStep none = inl refl
    restore_user-IsStep (some id) = elim (Bool-cases (is_valid_id id)) [
      | inr bad ↦ inl (ground arith)
      | inl good ↦ inr (StoreCall.restore_user id, w, refl, ground arith)
    ]

    pub restore_admin_user-IsStep :
        (id : Option ℕ) → IsStep w (AdminApi.restore_admin_user env id w).1
    unfolding AdminApi.restore_admin_user run_call
    restore_admin_user-IsStep none = inl refl
    restore_admin_user-IsStep (some id) = elim (Bool-cases (is_valid_id id)) [
      | inr bad ↦ inl (ground arith)
      | inl good ↦ inr (StoreCall.restore_admin_user id, w, refl, ground arith)
    ]

    pub create_user-IsStep :
        (body : Option CreateUserRequest) → IsStep w (UserApi.create_user env body w).1
    unfolding UserApi.create_user hash_password run_call
    create_user-IsStep none = inl refl
    create_user-IsStep (some req) = elim (Bool-cases (is_valid_user env req)) [
      | inr bad ↦ inl (ground arith)
      | inl good ↦ elim (Option-cases (env.bcrypt_generate w.tick req.password)) [
        | inl failed ↦ inl (ground arith)
        | inr (hashed, done) ↦ inr (
          StoreCall.create_user
              (record { username = req.username; email = req.email; hashed_password = hashed }),
          w,
          refl,
          ground arith,
        )
      ]
    ]

    pub create_admin_user-IsStep :
        (body : Option CreateAdminUserRequest) → IsStep w (AdminApi.create_admin_user env body w).1
    unfolding AdminApi.create_admin_user hash_password run_call
    create_admin_user-IsStep none = inl refl
    create_admin_user-IsStep (some req) = elim (Bool-cases (is_valid_admin env req)) [
      | inr bad ↦ inl (ground arith)
      | inl good ↦ elim (Option-cases (env.bcrypt_generate w.tick req.password)) [
        | inl failed ↦ inl (ground arith)
        | inr (hashed, done) ↦ inr (
          StoreCall.create_admin_user (record {
            params = record { username = req.username; hashed_password = hashed };
            role_ids = req.role_ids;
          }),
          w,
          refl,
          ground arith,
        )
      ]
    ]

    pub adjust_wallet-IsStep :
        (user : AuthUser) (id : Option ℕ) (body : Option AdjustWalletRequest)
        → IsStep w (WalletApi.adjust_wallet env user id body w).1
    unfolding WalletApi.adjust_wallet run_call
    adjust_wallet-IsStep user none body = inl refl
    adjust_wallet-IsStep user (some id) none = inl (ground arith)
    adjust_wallet-IsStep user (some id) (some req) =
        elim (Bool-cases (is_valid_id id && is_valid_adjust env req)) [
          | inr bad ↦ inl (ground arith)
          | inl good ↦ inr (
            StoreCall.adjust_wallet (record {
              wallet_id = id;
              amount = req.amount;
              note = req.note;
              operator_id = user.user_id;
              operator_username = user.username;
            }),
            w,
            refl,
            ground arith,
          )
        ]
