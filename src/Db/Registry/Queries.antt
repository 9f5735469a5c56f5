-- ===== src/Db/Registry/Queries.antt =====
-- The invariant of the unique columns under the queries.
use template_golang_web.Base.{
  ℕ, ◌≡◌, refl, arith, Bool, false, ◌||◌, String, str_eq, eq_iff, List, [], ◌∷◌, map, any, ◌==◌,
  Bool-cases, inl, inr, ℤ,
}
use template_golang_web.Db.Model.{User, AdminUser, Wallet, Tables, Database}
use template_golang_web.Db.Error.{Query}
use template_golang_web.Db.Users
use template_golang_web.Db.Users.{is_live, is_taken}
use template_golang_web.Db.AdminUsers
use template_golang_web.Db.AdminUsers.{CreateAdminUserParams}
use template_golang_web.Db.Wallets.{set_balance}
use template_golang_web.Db.Registry.{
  HasNoClash, HasNoClash-concat, HasNoClash-map, user_clash, admin_user_clash, wallet_clash,
  IsRegistered,
}
use template_golang_web.Db.Registry.Restore.{IsTable, HasNoClash-restore}

str_eq_sym : (s t : String) → str_eq s t ≡ str_eq t s
str_eq_sym s t = elim (Bool-cases (str_eq s t)) [
  | inl same ↦ let e = (eq_iff s t).0 same in rw e refl
  | inr other ↦ elim (Bool-cases (str_eq t s)) [
    | inl same ↦ let e = (eq_iff t s).0 same in rw e refl
    | inr apart ↦ ground arith
  ]
]

-- A query that keeps the invariant.
abbrev pub Keeps : {A : Type 0} → Query A → Type 0
Keeps q = (now : ℕ) (d : Database) → IsRegistered d.tables → IsRegistered (q now d).1.tables

pub IsRegistered-of_same :
    (s t : Tables)
    → t.users ≡ s.users
    → t.admin_users ≡ s.admin_users
    → t.wallets ≡ s.wallets
    → IsRegistered s
    → IsRegistered t
IsRegistered-of_same s t us admins ws i = record {
  users = rw us i.users;
  admin_users = rw admins i.admin_users;
  wallets = rw ws i.wallets;
}

pub user_clash-free :
    (u : User) (us : List User)
    → any (λ v. v.id == u.id) us ≡ false
    → any (is_taken u.id u.username u.email) us ≡ false
    → any (λ v. user_clash v u) us ≡ false
user_clash-free u [] h free = refl
user_clash-free u (v ∷ us) h free = ground (arith, user_clash-free u us)

pub wallet_clash-free :
    (w : Wallet) (ws : List Wallet)
    → any (λ v. v.id == w.id) ws ≡ false
    → any (λ v. v.user_id == w.user_id) ws ≡ false
    → any (λ v. wallet_clash v w) ws ≡ false
wallet_clash-free w [] h free = refl
wallet_clash-free w (v ∷ ws) h free = ground (arith, wallet_clash-free w ws)

admin_user_clash-free :
    (u : AdminUser) (us : List AdminUser)
    → any (λ v. v.id == u.id || AdminUsers.is_taken u.id u.username v) us ≡ false
    → any (λ v. admin_user_clash v u) us ≡ false
admin_user_clash-free u [] h = refl
admin_user_clash-free u (v ∷ us) h = ground (arith, admin_user_clash-free u us)

pub set_balance-HasNoClash :
    (id : ℕ) (b : ℤ) (ws : List Wallet)
    → HasNoClash wallet_clash ws
    → HasNoClash wallet_clash (map (set_balance id b) ws)
set_balance-HasNoClash id b ws h =
    HasNoClash-map wallet_clash (set_balance id b) (λ v w apart. ground arith) ws h

pub create_admin_user-Keeps :
    (arg : CreateAdminUserParams) → Keeps (AdminUsers.create_admin_user arg)
unfolding AdminUsers.create_admin_user
create_admin_user-Keeps arg now d i =
    let u = AdminUsers.new_admin_user arg d.sequences.admin_users now in
    let rows = d.tables.admin_users in
    elim (Bool-cases (any (λ v. v.id == u.id || AdminUsers.is_taken u.id u.username v) rows)) [
      | inl blocked ↦ rw blocked i
      | inr free ↦ rw free (record {
        users = i.users;
        admin_users =
            HasNoClash-concat admin_user_clash rows u (admin_user_clash-free u rows free)
              i.admin_users;
        wallets = i.wallets;
      })
    ]

pub soft_delete_user-Keeps : (id : ℕ) → Keeps (Users.soft_delete_user id)
unfolding Users.soft_delete_user
soft_delete_user-Keeps id now d i = record {
  users =
      HasNoClash-map user_clash (Users.soft_deleted id now) (λ u v apart. ground arith)
        d.tables.users i.users;
  admin_users = i.admin_users;
  wallets = i.wallets;
}

pub soft_delete_admin_user-Keeps : (id : ℕ) → Keeps (AdminUsers.soft_delete_admin_user id)
unfolding AdminUsers.soft_delete_admin_user
soft_delete_admin_user-Keeps id now d i = record {
  users = i.users;
  admin_users =
      HasNoClash-map admin_user_clash (AdminUsers.soft_deleted id now) (λ u v apart. ground arith)
        d.tables.admin_users i.admin_users;
  wallets = i.wallets;
}

pub update_user_password-Keeps :
    (arg : Users.UpdateUserPasswordParams) → Keeps (Users.update_user_password arg)
unfolding Users.update_user_password
update_user_password-Keeps arg now d i = record {
  users =
      HasNoClash-map user_clash (Users.rehashed arg) (λ u v apart. ground arith) d.tables.users
        i.users;
  admin_users = i.admin_users;
  wallets = i.wallets;
}

pub update_admin_user_password-Keeps :
    (arg : AdminUsers.UpdateAdminUserPasswordParams)
    → Keeps (AdminUsers.update_admin_user_password arg)
unfolding AdminUsers.update_admin_user_password
update_admin_user_password-Keeps arg now d i = record {
  users = i.users;
  admin_users =
      HasNoClash-map admin_user_clash (AdminUsers.rehashed arg) (λ u v apart. ground arith)
        d.tables.admin_users i.admin_users;
  wallets = i.wallets;
}

abbrev same_user : User → User → Bool
same_user u v = str_eq u.username v.username || str_eq u.email v.email

abbrev same_admin_user : AdminUser → AdminUser → Bool
same_admin_user u v = str_eq u.username v.username

users-IsTable : (id : ℕ) → IsTable (λ (u : User). u.id) is_live same_user id (Users.restored id)
users-IsTable id = record {
  symmetric = λ u v. ground (arith, str_eq_sym u.username v.username, str_eq_sym u.email v.email);
  keeps_key = λ u. ground arith;
  keeps_same = λ u v. ground arith;
  revives = λ u. ground arith;
}

admin_users-IsTable :
    (id : ℕ)
    → IsTable
        (λ (u : AdminUser). u.id)
        AdminUsers.is_live
        same_admin_user
        id
        (AdminUsers.restored id)
admin_users-IsTable id = record {
  symmetric = λ u v. str_eq_sym u.username v.username;
  keeps_key = λ u. ground arith;
  keeps_same = λ u v. ground arith;
  revives = λ u. ground arith;
}

pub restore_user-Keeps : (id : ℕ) → Keeps (Users.restore_user id)
unfolding Users.restore_user
restore_user-Keeps id now d i =
    let rows = d.tables.users in
    elim (Bool-cases (any (Users.clashes id rows) rows)) [
      | inl blocked ↦ rw blocked i
      | inr free ↦ rw free (record {
        users =
            HasNoClash-restore (λ (u : User). u.id) is_live same_user id (Users.restored id)
              (users-IsTable id) rows i.users free;
        admin_users = i.admin_users;
        wallets = i.wallets;
      })
    ]

pub restore_admin_user-Keeps : (id : ℕ) → Keeps (AdminUsers.restore_admin_user id)
unfolding AdminUsers.restore_admin_user
restore_admin_user-Keeps id now d i =
    let rows = d.tables.admin_users in
    elim (Bool-cases (any (AdminUsers.clashes id rows) rows)) [
      | inl blocked ↦ rw blocked i
      | inr free ↦ rw free (record {
        users = i.users;
        admin_users =
            HasNoClash-restore (λ (u : AdminUser). u.id) AdminUsers.is_live same_admin_user id
              (AdminUsers.restored id) (admin_users-IsTable id) rows i.admin_users free;
        wallets = i.wallets;
      })
    ]
