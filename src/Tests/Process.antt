-- ===== src/Tests/Process.antt =====
-- The theorems on the process at a small installation.
use template_golang_web.Base.{ℕ, ◌≡◌, refl, true, none, some, [], ◌∷◌}
use template_golang_web.Config.{Config, load_config}
use template_golang_web.Db.Model.{OperationLog}
use template_golang_web.Db.OperationLogs.{with_logs}
use template_golang_web.Db.Tx
use template_golang_web.Cache
use template_golang_web.Db.Ledger.{IsReconciled}
use template_golang_web.Db.Ledger.Book.{IsRecorded}
use template_golang_web.Db.Registry.{IsRegistered}
use template_golang_web.Env.{World, attempt}
use template_golang_web.Api.Server.{serve}
use template_golang_web.Scheduler
use template_golang_web.Scheduler.{
  periodic_tasks, cleanup_operation_logs_task, handle_cleanup_operation_logs, register_all, start,
  start_halves,
}
use template_golang_web.Scheduler.Cleanup.{attempts, IsCleaned, attempts_lem}
use template_golang_web.Program.{
  Process, Outside, waiting, off, boot, boot_config, boot_db, boot_redis, boot_scheduler, configure,
}
use template_golang_web.Program.Run.{
  here, next, listen, accept, answer, signal, close_listener, IsReachable, is_alive, drain,
}
use template_golang_web.Program.Sound.{IsSound, reachable-IsSound}
use template_golang_web.Program.Keeps.{reachable_keeps}
use template_golang_web.Tests.Redis.{Store}
use template_golang_web.Tests.Fixture.{env, tables, world, with_session}
use template_golang_web.Tests.Store.{tables-IsReconciled, tables-IsRegistered}
use template_golang_web.Tests.Requests.{payout_request}

abbrev config : Config
config = record {
  environment = "development";
  db_driver = "postgres";
  db_source = "postgresql://localhost:5432/template_golang_web";
  db_max_open_conns = 25;
  db_max_idle_conns = 25;
  db_conn_max_lifetime = 300;
  http_server_address = "0.0.0.0:8080";
  redis_address = "localhost:6379";
  cors_allow_origins = "*";
  token_duration = 3600;
  shutdown_timeout = 10;
  api_timeout = 10;
  operation_log_cleanup_cron = "0 0 * * *";
  operation_log_retention_months = 6;
}

abbrev outside : Outside
outside = record {
  viper = record { read_in_config = λ path. true; unmarshal = some config };
  sql_open = λ driver source. true;
  asynq = record { register = λ spec task. true; start_server = true; start_scheduler = true };
}

abbrev booted : Process Store
booted = boot outside (off env (with_session 1 "tok"))

boots : booted.phase ≡ waiting
unfolding boot load_config boot_config boot_db boot_redis boot_scheduler Tx.ping Cache.ping attempt
    start register_all start_halves periodic_tasks cleanup_operation_logs_task off configure
    Scheduler.new
boots = refl

-- It listens and has taken the payout.
abbrev busy : Process Store
busy = record booted { listening = true; requests = payout_request ∷ booted.requests }

busy-IsReachable : IsReachable outside env (with_session 1 "tok") busy
unfolding is_alive
busy-IsReachable =
    next (next here (listen (rw boots refl))) (accept payout_request (rw boots refl) refl)

-- Then it gets a signal, and answers.
abbrev leaving : Process Store
leaving = drain busy

abbrev replied : Process Store
replied = record leaving {
  requests = booted.requests;
  world = (serve leaving.env payout_request leaving.world).1;
}

replied-IsReachable : IsReachable outside env (with_session 1 "tok") replied
unfolding drain is_alive
replied-IsReachable =
    next (next (next busy-IsReachable (signal boots)) (close_listener refl))
      (answer [] payout_request booted.requests refl refl)

reachable-IsSound_example : IsSound replied
reachable-IsSound_example =
    reachable-IsSound outside env (with_session 1 "tok") replied replied-IsReachable

reachable_keeps_example :
    IsReconciled replied.world.db.tables
    × IsRegistered replied.world.db.tables
    × IsRecorded tables replied.world.db.tables
reachable_keeps_example =
    reachable_keeps outside env (with_session 1 "tok") replied tables-IsReconciled
      tables-IsRegistered replied-IsReachable

-- A log of the time of the clean-up, and one that is past its retention.
abbrev log_at : ℕ → ℕ → OperationLog
log_at id created_at = record {
  id = id;
  user_id = none;
  username = "";
  method = "POST";
  path = "/login";
  request_body = [];
  status_code = 200;
  request_id = "r1";
  created_at = created_at;
}

abbrev logged : World Store
logged = record world { db = with_logs (log_at 1 900 ∷ log_at 2 1000 ∷ []) world.db }

attempts_lem_example :
    IsCleaned env (1000 ∷ 900 ∷ []) logged (attempts env (1000 ∷ 900 ∷ []) logged)
attempts_lem_example = attempts_lem env (1000 ∷ 900 ∷ []) logged
