-- ===== src/Api/Server/Bookkeeping.antt =====
-- api/server.go with the store: the requests as steps of the book of the wallets.
use template_golang_web.Base.{List, [], ◌∷◌}
use template_golang_web.Env.{Env, World}
use template_golang_web.Db.Model.{Tables}
use template_golang_web.Db.Ledger.Book.{IsRecorded, IsRecorded-refl}
use template_golang_web.Db.Ledger.Refines.{run_call-IsRecorded}
use template_golang_web.Api.Server.{Request, serve}
use template_golang_web.Api.Server.Sequence.{serve_keeps, serve_all}

module _ {R : Type 0} (env : Env R) where
  requests-IsRecorded :
      (s : Tables) (reqs : List Request) (w : World R)
      → IsRecorded s w.db.tables
      → IsRecorded s (serve_all env reqs w).db.tables
  unfolding serve_all
  requests-IsRecorded s [] w r = r
  requests-IsRecorded s (req ∷ reqs) w r =
      requests-IsRecorded s reqs (serve env req w).1
        (serve_keeps env (IsRecorded s) req w (run_call-IsRecorded env s) r)

  -- Every sequence of requests, whichever of their calls fail, is a history of the book of the
  -- wallets, in which a wallet opens empty and otherwise only moves, to a balance that is not negative
  -- and fits a bigint; and the entries that the requests added are the moves of this history, all of
  -- them and in their order.
  pub serve_all-IsRecorded :
      (reqs : List Request) (w : World R) → IsRecorded w.db.tables (serve_all env reqs w).db.tables
  serve_all-IsRecorded reqs w = requests-IsRecorded w.db.tables reqs w (IsRecorded-refl w.db.tables)
