-- ===== src/Db/Tx/Create.antt =====
-- db/sqlc/tx_create_user.go: a user and the wallet of the user are created together or not at all.
use template_golang_web.Base.{
  ℕ, ◌≡◌, refl, ◌⊎◌, inl, inr, arith, false, List, [], ◌∷◌, ◌++◌, any, Bool, ◌==◌, ◌||◌, none, pos,
}
use template_golang_web.Db.Model.{User, Wallet, Tables, Database}
use template_golang_web.Db.Error.{ok, Result-cases}
use template_golang_web.Db.Users.{CreateUserParams, new_user, is_taken, create_user}
use template_golang_web.Db.Wallets.{new_wallet, create_wallet}
use template_golang_web.Env.{Env, World, ticked, stmt}
use template_golang_web.Db.Tx.{CreateUserTxResult, add_wallet, create_user_body, create_user_tx}
use template_golang_web.Db.Tx.Atomic.{
  stmt-eq-ok, exec_tx-eq-ok, exec_tx_atomic, after_stmt, stmt->>=-eq-ok,
}

-- All that a successful registration does.
pub record IsCreated (arg : CreateUserParams) (before after : Tables) (res : CreateUserTxResult)
    : Type 0 where
  pub username : res.user.username ≡ arg.username
  pub email : res.user.email ≡ arg.email
  pub hashed_password : res.user.hashed_password ≡ arg.hashed_password
  pub live : res.user.deleted_at ≡ none
  pub owner : res.wallet.user_id ≡ res.user.id
  pub empty : res.wallet.balance ≡ pos 0
  pub new_id : any (λ u. u.id == res.user.id) before.users ≡ false
  pub free : any (is_taken res.user.id arg.username arg.email) before.users ≡ false
  pub new_wallet_id : any (λ w. w.id == res.wallet.id) before.wallets ≡ false
  pub no_wallet : any (λ w. w.user_id == res.user.id) before.wallets ≡ false
  pub result : after ≡ record before {
    users = before.users ++ res.user ∷ [];
    wallets = before.wallets ++ res.wallet ∷ [];
  }

any-or {ℓ} :
    {A : Type ℓ} (p q : A → Bool) (xs : List A)
    → any (λ x. p x || q x) xs ≡ false
    → (any p xs ≡ false) × (any q xs ≡ false)
any-or p q [] h = (refl, refl)
any-or p q (x ∷ xs) h = ground (arith, any-or p q xs)

create_user-eq-ok :
    (arg : CreateUserParams) (now : ℕ) (d : Database) (u : User)
    → (create_user arg now d).0 ≡ ok u
    → (u ≡ new_user arg d.sequences.users now)
      × (any (λ v. v.id == u.id) d.tables.users ≡ false)
      × (any (is_taken u.id arg.username arg.email) d.tables.users ≡ false)
      × ((create_user arg now d).1.tables ≡ record (d.tables) { users = d.tables.users ++ u ∷ [] })
unfolding create_user
create_user-eq-ok arg now d u h =
    let id = d.sequences.users in
    let split = any-or (λ v. v.id == id) (is_taken id arg.username arg.email) d.tables.users in
    (ground arith, ground (arith, split), ground (arith, split), ground arith)

create_wallet-eq-ok :
    (user_id now : ℕ) (d : Database) (w : Wallet)
    → (create_wallet user_id now d).0 ≡ ok w
    → (w ≡ new_wallet user_id d.sequences.wallets now)
      × (any (λ v. v.id == w.id) d.tables.wallets ≡ false)
      × (any (λ v. v.user_id == user_id) d.tables.wallets ≡ false)
      × ((create_wallet user_id now d).1.tables
          ≡ record (d.tables) { wallets = d.tables.wallets ++ w ∷ [] })
unfolding create_wallet
create_wallet-eq-ok user_id now d w h =
    let id = d.sequences.wallets in
    let split = any-or (λ v. v.id == id) (λ v. v.user_id == user_id) d.tables.wallets in
    (ground arith, ground (arith, split), ground (arith, split), ground arith)

module _ {R : Type 0} (env : Env R) where
  add_wallet-eq-ok :
      (user : User) (w : World R) (res : CreateUserTxResult)
      → (add_wallet env user w).0 ≡ ok res
      → (res.user ≡ user)
        × (res.wallet.user_id ≡ user.id)
        × (res.wallet.balance ≡ pos 0)
        × (any (λ v. v.id == res.wallet.id) w.db.tables.wallets ≡ false)
        × (any (λ v. v.user_id == user.id) w.db.tables.wallets ≡ false)
        × ((add_wallet env user w).1.db.tables
            ≡ record (w.db.tables) { wallets = w.db.tables.wallets ++ res.wallet ∷ [] })
  unfolding add_wallet
  add_wallet-eq-ok user w res h =
      let q = create_wallet user.id in
      elim (Result-cases (stmt env q w).0) [
        | inr (e, failed) ↦ absurd (ground arith)
        | inl (wallet, done) ↦
            let (ran, world) = stmt-eq-ok env q w wallet done in
            let facts = create_wallet-eq-ok user.id w.now w.db wallet ran in
            (ground arith, ground arith, ground arith, ground arith, ground arith, ground arith)
      ]

  create_user_body-IsCreated :
      (arg : CreateUserParams) (w : World R) (res : CreateUserTxResult)
      → (create_user_body env arg w).0 ≡ ok res
      → IsCreated arg w.db.tables (create_user_body env arg w).1.db.tables res
  unfolding create_user_body
  create_user_body-IsCreated arg w res h =
      let (user, ran, rest, same) = stmt->>=-eq-ok env (create_user arg) (add_wallet env) w res h in
      let w' = after_stmt env (create_user arg) w in
      let (user_is, new_id, free, tables) = create_user-eq-ok arg w.now w.db user ran in
      let added = add_wallet-eq-ok user w' res rest in
      record {
        username = ground arith;
        email = ground arith;
        hashed_password = ground arith;
        live = ground arith;
        owner = ground arith;
        empty = ground arith;
        new_id = ground arith;
        free = ground arith;
        new_wallet_id = ground arith;
        no_wallet = ground arith;
        result = ground arith;
      }

  -- A registration that reports success has added one live user with a username and an email that
  -- no live user held, and one empty wallet of that user, each under a new key, and nothing else.
  pub create_user_tx-IsCreated :
      (arg : CreateUserParams) (w : World R) (res : CreateUserTxResult)
      → (create_user_tx env arg w).0 ≡ ok res
      → IsCreated arg w.db.tables (create_user_tx env arg w).1.db.tables res
  unfolding create_user_tx
  create_user_tx-IsCreated arg w res h =
      let (done, same) = exec_tx-eq-ok env (create_user_body env arg) w res h in
      rw same (create_user_body-IsCreated arg (ticked w) res done)

  -- Whatever a registration reports and whatever faults befall it, either the tables are as they
  -- were or both the user and the wallet are in them.
  pub create_user_tx_atomic :
      (arg : CreateUserParams) (w : World R)
      → ((create_user_tx env arg w).1.db.tables ≡ w.db.tables)
        ⊎ ((res : CreateUserTxResult) × IsCreated arg w.db.tables
              (create_user_tx env arg w).1.db.tables
              res)
  unfolding create_user_tx
  create_user_tx_atomic arg w = elim (exec_tx_atomic env (create_user_body env arg) w) [
    | inl same ↦ inl same
    | inr (res, done, same) ↦
        inr (res, rw same (create_user_body-IsCreated arg (ticked w) res done))
  ]
