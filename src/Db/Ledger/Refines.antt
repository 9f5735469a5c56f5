-- ===== src/Db/Ledger/Refines.antt =====
-- Every call of the store that the program makes is a step of the book, or none.
use template_golang_web.Base.{◌≡◌, refl, arith, [], ◌∷◌, append_nil}
use template_golang_web.Db.Model.{Tables}
use template_golang_web.Env.{Env, World}
use template_golang_web.Db.Store.{StoreCall, run_call}
use template_golang_web.Db.Ledger.Effect.{Effect, apart, created, adjusted, run_call-Effect}
use template_golang_web.Db.Ledger.Book.{
  book, moves, stay, IsRecorded, IsRecorded-Step, IsCreated-Step, IsAdjusted-Step,
}

-- What touches neither wallets nor entries is no step.
IsRecorded-of_same :
    (s t u : Tables)
    → u.wallets ≡ t.wallets
    → u.wallet_entries ≡ t.wallet_entries
    → IsRecorded s t
    → IsRecorded s u
unfolding book moves
IsRecorded-of_same s t u ws es r =
    IsRecorded-Step s t u [] r (ground (arith, es, append_nil (moves t))) (stay refl (rw ws refl))

Effect-IsRecorded : (s t u : Tables) → Effect t u → IsRecorded s t → IsRecorded s u
Effect-IsRecorded s t u (apart ws es) r = IsRecorded-of_same s t u ws es r
Effect-IsRecorded s t u (created arg res c) r =
    let (es, st) = IsCreated-Step arg t u res c in IsRecorded-Step s t u [] r es st
Effect-IsRecorded s t u (adjusted arg res a) r =
    let (es, st) = IsAdjusted-Step arg t u res a in
    IsRecorded-Step s t u ((arg.wallet_id, arg.amount) ∷ []) r es st

pub run_call-IsRecorded :
    {R : Type 0} (env : Env R) (s : Tables) (c : StoreCall) (w : World R)
    → IsRecorded s w.db.tables
    → IsRecorded s (run_call env c w).db.tables
run_call-IsRecorded env s c w r =
    Effect-IsRecorded s w.db.tables (run_call env c w).db.tables (run_call-Effect env c w) r
