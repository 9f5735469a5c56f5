-- ===== src/Cache/Calls.antt =====
-- cache/cache.go: what a call that returns has done.
use template_golang_web.Base.{ℕ, ◌+◌, String, List, ◌≡◌, arith, some, ◌⊎◌}
use template_golang_web.Db.Error.{ok}
use template_golang_web.Env.{Env, World, ticked}
use template_golang_web.Cache.{get, set, del, expire}

module _ {R : Type 0} (env : Env R) where
  pub get-eq-ok :
      (key v : String) (w : World R)
      → (get env key w).0 ≡ ok v
      → (env.redis.get w.now key w.cache ≡ some v) × ((get env key w).1 ≡ ticked w)
  unfolding get
  get-eq-ok key v w h = ground arith

  -- A read changes nothing, whatever it reports.
  pub get_same : (key : String) (w : World R) → (get env key w).1 ≡ ticked w
  unfolding get
  get_same key w = ground arith

  pub set-eq-ok :
      (key v : String) (ttl : ℕ) (w : World R)
      → (set env key v ttl w).0 ≡ ok tt
      → (set env key v ttl w).1
        ≡ record w { cache = env.redis.set w.now key v ttl w.cache; tick = w.tick + 1 }
  unfolding set
  set-eq-ok key v ttl w h = ground arith

  pub del-eq-ok :
      (keys : List String) (w : World R)
      → (del env keys w).0 ≡ ok tt
      → (del env keys w).1
        ≡ record w { cache = env.redis.del w.now keys w.cache; tick = w.tick + 1 }
  unfolding del
  del-eq-ok keys w h = ground arith

  -- A deletion takes effect or does not.
  pub del-cases :
      (keys : List String) (w : World R)
      → ((del env keys w).1 ≡ ticked w)
        ⊎ ((del env keys w).1
            ≡ record w { cache = env.redis.del w.now keys w.cache; tick = w.tick + 1 })
  unfolding del
  del-cases keys w = ground arith

  pub expire-cases :
      (key : String) (ttl : ℕ) (w : World R)
      → ((expire env key ttl w).1 ≡ ticked w)
        ⊎ ((expire env key ttl w).1
            ≡ record w { cache = env.redis.expire w.now key ttl w.cache; tick = w.tick + 1 })
  unfolding expire
  expire-cases key ttl w = ground arith
