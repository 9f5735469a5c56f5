-- ===== src/Api/Wallets.antt =====
-- api/wallet.go: the wallets of the front end's users and their ledger.
pub mod Statuses
use template_golang_web.Base.{
  ℕ, zero, true, false, String, Bool, not, ◌&&◌, Option, ℤ, pos, is_int64, leb, if◌then◌else◌,
}
use template_golang_web.Db.Error.{Error, is_no_rows, is_insufficient_balance}
use template_golang_web.Db.Wallets
use template_golang_web.Db.Entries
use template_golang_web.Db.Tx.{adjust_wallet_tx}
use template_golang_web.Env.{Env, AuthUser, stmt}
use template_golang_web.Errcode.{Code}
use template_golang_web.Api.Response
use template_golang_web.Api.Response.{
  Response, wallet, wallet_page, adjusted, entry_page, fail, fail_internal,
}
use template_golang_web.Api.Handler.{Handler, ◌>>=◌, done, refuse, call_or, call, bind}
use template_golang_web.Api.Page.{
  PageRequest, is_valid_page, offset_of, limit_of, is_valid_id, page_result,
}

pub record AdjustWalletRequest : Type 0 where
  pub amount : ℤ
  pub note : String

abbrev is_zero : ℤ → Bool
is_zero (pos zero) = true
is_zero _ = false

module _ {R : Type 0} (env : Env R) where
  -- binding:"required" on an int64 value, and binding:"max=255"
  abbrev pub is_valid_adjust : AdjustWalletRequest → Bool
  is_valid_adjust req =
      not (is_zero req.amount) && is_int64 req.amount && leb (env.rune_count req.note) 255

  unfoldable pub list_wallets : Option PageRequest → Handler R Response
  list_wallets query = do
    req ← bind is_valid_page query
    wallets ←
        call (
          stmt env (Wallets.list_wallets (record { limit = limit_of req; offset = offset_of req })))
    total ← call (stmt env Wallets.count_wallets)
    done (Response.ok (wallet_page (page_result req total wallets)))

  unfoldable pub get_wallet : Option ℕ → Handler R Response
  get_wallet uri = do
    id ← bind is_valid_id uri
    row ←
        call_or (stmt env (Wallets.get_wallet_detail id))
          (λ e. if is_no_rows e then refuse (fail 404 Code.not_found) else refuse (fail_internal e))
    done (Response.ok (wallet row))

  abbrev pub on_adjust_error : {A : Type 0} → Error → Handler R A
  on_adjust_error e =
      if is_insufficient_balance e
      then refuse (fail 400 Code.insufficient_balance)
      else if is_no_rows e
      then refuse (fail 404 Code.not_found)
      else refuse (fail_internal e)

  unfoldable pub adjust_wallet :
      AuthUser → Option ℕ → Option AdjustWalletRequest → Handler R Response
  adjust_wallet operator uri body = do
    id ← bind is_valid_id uri
    req ← bind is_valid_adjust body
    result ←
        call_or
          (adjust_wallet_tx env (record {
            wallet_id = id;
            amount = req.amount;
            note = req.note;
            operator_id = operator.user_id;
            operator_username = operator.username;
          }))
          on_adjust_error
    done (Response.ok (adjusted result))

  unfoldable pub list_wallet_entries : Option ℕ → Option PageRequest → Handler R Response
  list_wallet_entries uri query = do
    id ← bind is_valid_id uri
    req ← bind is_valid_page query
    entries ← call (
        stmt env (
          Entries.list_wallet_entries
            (record { wallet_id = id; limit = limit_of req; offset = offset_of req })))
    total ← call (stmt env (Entries.count_wallet_entries id))
    done (Response.ok (entry_page (page_result req total entries)))
