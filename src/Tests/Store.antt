-- ===== src/Tests/Store.antt =====
-- The theorems on the store at a small database.
use template_golang_web.Base.{
  suc, ◌-◌, ◌*◌, ◌/◌, ◌≡◌, ◌≢◌, refl, arith, ◌⊎◌, some, none, List, [], ◌∷◌, pos, negsuc, min, ◌+ℤ◌,
}
use template_golang_web.Db.Error.{ok}
use template_golang_web.Db.Users
use template_golang_web.Db.Users.{CreateUserParams}
use template_golang_web.Db.Wallets.{adjust_wallet_balance, create_wallet}
use template_golang_web.Db.Entries.{create_wallet_entry}
use template_golang_web.Env.{attempt, stmt}
use template_golang_web.Db.Tx.{
  AdjustWalletTxParams, AdjustWalletTxResult, CreateUserTxResult, UpdateAdminUserRolesTxParams,
  exec_tx, record_entry, adjust_body, adjust_wallet_tx, add_wallet, create_user_body,
  create_user_tx, update_admin_user_roles_tx,
}
use template_golang_web.Db.Tx.Adjust.{
  IsAdjusted, adjust_wallet_tx-IsAdjusted, adjust_wallet_tx_atomic,
}
use template_golang_web.Db.Tx.Create.{IsCreated, create_user_tx-IsCreated, create_user_tx_atomic}
use template_golang_web.Db.Tx.Verdict.{error_of, adjust_error, adjust_wallet_tx-error}
use template_golang_web.Db.Tx.Withdrawals.{IsFunded, repeat_adjust, repeat_adjust-count}
use template_golang_web.Db.Tx.Replace.{with_roles_of, update_admin_user_roles_tx-replaces}
use template_golang_web.Db.Store.{StoreCall, run_calls}
use template_golang_web.Db.Registry.{IsRegistered}
use template_golang_web.Db.Registry.Calls.{run_calls-IsRegistered}
use template_golang_web.Db.Ledger.{IsReconciled}
use template_golang_web.Db.Ledger.Keeps.{run_calls-IsReconciled}
use template_golang_web.Strconv.{parse_int, format_int, parse_int-format_int}
use template_golang_web.Utf8.{is_text}
use template_golang_web.Tests.Fixture.{env, healthy, tables, database, world}

-- A withdrawal of 40 from the wallet that holds 100.
abbrev withdrawal : AdjustWalletTxParams
withdrawal = record {
  wallet_id = 1;
  amount = negsuc 39;
  note = "payout";
  operator_id = 1;
  operator_username = "ada";
}

abbrev withdrawn : AdjustWalletTxResult
withdrawn = record {
  wallet = record { id = 1; user_id = 1; balance = pos 60; created_at = 900 };
  entry = record {
    id = 2;
    wallet_id = 1;
    amount = negsuc 39;
    note = "payout";
    operator_id = 1;
    operator_username = "ada";
    created_at = 1000;
  };
}

withdrawal_runs : (adjust_wallet_tx env withdrawal world).0 ≡ ok withdrawn
unfolding adjust_wallet_tx exec_tx adjust_body record_entry adjust_wallet_balance
    create_wallet_entry is_text stmt attempt ◌+ℤ◌
withdrawal_runs = refl

adjust_wallet_tx-IsAdjusted_example :
    IsAdjusted withdrawal tables (adjust_wallet_tx env withdrawal world).1.db.tables withdrawn
adjust_wallet_tx-IsAdjusted_example =
    adjust_wallet_tx-IsAdjusted env withdrawal world withdrawn withdrawal_runs

adjust_wallet_tx_atomic_example :
    ((adjust_wallet_tx env withdrawal world).1.db.tables ≡ tables)
    ⊎ ((res : AdjustWalletTxResult) × IsAdjusted withdrawal tables
          (adjust_wallet_tx env withdrawal world).1.db.tables
          res)
adjust_wallet_tx_atomic_example = adjust_wallet_tx_atomic env withdrawal world

adjust_wallet_tx-error_example :
    error_of (adjust_wallet_tx env withdrawal world).0 ≡ adjust_error withdrawal tables
adjust_wallet_tx-error_example = adjust_wallet_tx-error env healthy withdrawal world refl

withdrawal-IsFunded : IsFunded withdrawal 100 database
withdrawal-IsFunded = record {
  row = record { id = 1; user_id = 1; balance = pos 100; created_at = 900 };
  found = refl;
  holds = refl;
  fits = omega arith;
  texts = unfold is_text in refl;
  operator = refl;
  ahead = (omega arith, tt);
}

-- Of five withdrawals of 40, two go through.
repeat_adjust-count_example :
    ((repeat_adjust env withdrawal 5 world).0 ≡ min 5 (100 / suc 39))
    × IsFunded withdrawal
        (100 - (repeat_adjust env withdrawal 5 world).0 * suc 39)
        (repeat_adjust env withdrawal 5 world).1.db
repeat_adjust-count_example =
    repeat_adjust-count env healthy withdrawal 39 refl (omega arith) 5 100 world withdrawal-IsFunded

abbrev registration : CreateUserParams
registration = record {
  username = "dora";
  email = "dora@example.org";
  hashed_password = "doraspass";
}

abbrev registered : CreateUserTxResult
registered = record {
  user = record {
    id = 2;
    username = "dora";
    email = "dora@example.org";
    created_at = 1000;
    hashed_password = "doraspass";
    deleted_at = none;
  };
  wallet = record { id = 2; user_id = 2; balance = pos 0; created_at = 1000 };
}

registration_runs : (create_user_tx env registration world).0 ≡ ok registered
unfolding create_user_tx exec_tx create_user_body add_wallet Users.create_user create_wallet stmt
    attempt
registration_runs = refl

create_user_tx-IsCreated_example :
    IsCreated registration tables (create_user_tx env registration world).1.db.tables registered
create_user_tx-IsCreated_example =
    create_user_tx-IsCreated env registration world registered registration_runs

create_user_tx_atomic_example :
    ((create_user_tx env registration world).1.db.tables ≡ tables)
    ⊎ ((res : CreateUserTxResult) × IsCreated registration tables
          (create_user_tx env registration world).1.db.tables
          res)
create_user_tx_atomic_example = create_user_tx_atomic env registration world

abbrev promotion : UpdateAdminUserRolesTxParams
promotion = record { admin_user_id = 2; role_ids = 1 ∷ [] }

update_admin_user_roles_tx-replaces_example :
    ((update_admin_user_roles_tx env promotion world).1.db.tables ≡ with_roles_of promotion tables)
    ⊎ (((update_admin_user_roles_tx env promotion world).1.db.tables ≡ tables)
        × ((update_admin_user_roles_tx env promotion world).0 ≢ ok tt))
update_admin_user_roles_tx-replaces_example =
    update_admin_user_roles_tx-replaces env promotion world

pub tables-IsReconciled : IsReconciled tables
unfolding ◌+ℤ◌
tables-IsReconciled = record { balanced = ((refl, omega arith, refl), tt); known = (refl, tt) }

pub tables-IsRegistered : IsRegistered tables
tables-IsRegistered = record {
  users = (refl, tt);
  admin_users = (refl, (refl, tt));
  wallets = (refl, tt);
}

abbrev calls : List StoreCall
calls =
    StoreCall.adjust_wallet withdrawal
    ∷ StoreCall.create_user registration
    ∷ StoreCall.soft_delete_user 1
    ∷ []

run_calls-IsReconciled_example : IsReconciled (run_calls env calls world).db.tables
run_calls-IsReconciled_example = run_calls-IsReconciled env calls world tables-IsReconciled

parse_int-format_int_example : parse_int (format_int 1205) ≡ some (pos 1205)
parse_int-format_int_example = parse_int-format_int 1205 (omega arith)

run_calls-IsRegistered_example : IsRegistered (run_calls env calls world).db.tables
run_calls-IsRegistered_example = run_calls-IsRegistered env calls world tables-IsRegistered
