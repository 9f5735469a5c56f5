-- ===== src/Api/Wallets/Statuses.antt =====
-- api/wallet.go: what the handler of an adjustment answers.
use template_golang_web.Base.{ℕ, ◌≡◌, refl, arith, true, Option, none, some, inl, inr}
use template_golang_web.Db.Error.{Error, Result-cases}
use template_golang_web.Db.Tx.{AdjustWalletTxParams, adjust_wallet_tx}
use template_golang_web.Db.Tx.Verdict.{IsFresh, adjust_error, error_of, adjust_wallet_tx-error}
use template_golang_web.Env.{Env, World, AuthUser, fine}
use template_golang_web.Api.Response
use template_golang_web.Api.Response.{Response, adjusted, fail, fail_internal}
use template_golang_web.Api.Handler.{answered}
use template_golang_web.Api.Page.{is_valid_id}
use template_golang_web.Api.Wallets.{
  AdjustWalletRequest, is_valid_adjust, on_adjust_error, adjust_wallet,
}

-- What the handler hands to the transaction.
abbrev pub adjust_params : AuthUser → ℕ → AdjustWalletRequest → AdjustWalletTxParams
adjust_params operator id req = record {
  wallet_id = id;
  amount = req.amount;
  note = req.note;
  operator_id = operator.user_id;
  operator_username = operator.username;
}

-- The status that the error of an adjustment should be answered with.
abbrev pub adjust_status : Option Error → ℕ
adjust_status none = 200
adjust_status (some Error.insufficient_balance) = 400
adjust_status (some Error.no_rows) = 404
adjust_status (some Error.deadline_exceeded) = 504
adjust_status (some _) = 500

module _ {R : Type 0} (env : Env R) where
  on_adjust_error-status :
      (e : Error) (w : World R)
      → (answered (on_adjust_error env {A = Response} e w).0).status ≡ adjust_status (some e)
  unfolding fail fail_internal
  on_adjust_error-status Error.no_rows w = refl
  on_adjust_error-status Error.unique_violation w = refl
  on_adjust_error-status Error.foreign_key_violation w = refl
  on_adjust_error-status Error.numeric_value_out_of_range w = refl
  on_adjust_error-status Error.invalid_row_count w = refl
  on_adjust_error-status Error.invalid_byte_sequence w = refl
  on_adjust_error-status Error.insufficient_balance w = refl
  on_adjust_error-status Error.not_found w = refl
  on_adjust_error-status Error.deadline_exceeded w = refl
  on_adjust_error-status Error.unavailable w = refl
  on_adjust_error-status Error.invalid_number w = refl
  on_adjust_error-status Error.invalid_json w = refl
  on_adjust_error-status Error.hash_failed w = refl

  adjust_wallet-status_of :
      (operator : AuthUser) (id : ℕ) (req : AdjustWalletRequest) (w : World R)
      → is_valid_id id ≡ true
      → is_valid_adjust env req ≡ true
      → (answered (adjust_wallet env operator (some id) (some req) w).0).status
        ≡ adjust_status (error_of (adjust_wallet_tx env (adjust_params operator id req) w).0)
  unfolding adjust_wallet fail fail_internal Response.ok
  adjust_wallet-status_of operator id req w good valid =
      elim (Result-cases (adjust_wallet_tx env (adjust_params operator id req) w).0) [
        | inl (res, done) ↦ ground arith
        | inr (e, failed) ↦ ground (
          arith,
          on_adjust_error-status e (adjust_wallet_tx env (adjust_params operator id req) w).1,
        )
      ]

  -- Where no call fails and the sequence of the entries is ahead of them, a valid request of an
  -- operator to adjust a wallet is answered with 404 where the wallet is not there, with 500 where the
  -- sum is no bigint, with 400 where the balance does not cover it, with 500 where the note or the
  -- operator's name is no text that PostgreSQL takes, or the operator is gone, in the order of these
  -- tests, and with 200 otherwise.
  pub adjust_wallet-status :
      (healthy : (n : ℕ) → env.fault n ≡ fine) (operator : AuthUser) (id : ℕ)
      (req : AdjustWalletRequest) (w : World R)
      → is_valid_id id ≡ true
      → is_valid_adjust env req ≡ true
      → IsFresh w.db
      → (answered (adjust_wallet env operator (some id) (some req) w).0).status
        ≡ adjust_status (adjust_error (adjust_params operator id req) w.db.tables)
  adjust_wallet-status healthy operator id req w good valid fresh =
      rw (adjust_wallet-status_of operator id req w good valid)
        (rw (adjust_wallet_tx-error env healthy (adjust_params operator id req) w fresh) refl)
