-- ===== src/Cache.antt =====
-- cache/cache.go: the interface `Cache` as `RedisCache` implements it over the go-redis client, and
-- the keys of api/auth.go and api/middleware.go.
pub mod Keys
pub mod Calls
use template_golang_web.Base.{
  ℕ, zero, suc, String, List, Option, ℤ, pos, leb_ℤ, if◌then◌else◌, Bool, true, false, ◌==◌,
}
use template_golang_web.Db.Error.{Error, Result, ok, err, from_option, not_found, unavailable}
use template_golang_web.Env.{Env, World, Call, attempt}

abbrev is_one : ℤ → Bool
is_one (pos (suc zero)) = true
is_one _ = false

module _ {R : Type 0} (env : Env R) where
  -- redis.Nil becomes ErrNotFound.
  unfoldable pub get : String → Call R String
  unfolding attempt
  get key = attempt env.fault (λ w. (from_option not_found (env.redis.get w.now key w.cache), w))

  unfoldable pub set : String → String → ℕ → Call R (Unit {0})
  unfolding attempt
  set key value ttl =
      attempt env.fault
        (λ w. (ok tt, record w { cache = env.redis.set w.now key value ttl w.cache }))

  unfoldable pub del : List String → Call R (Unit {0})
  unfolding attempt
  del keys = attempt env.fault (λ w. (ok tt, record w { cache = env.redis.del w.now keys w.cache }))

  -- EXPIRE of a key that is not there is no error.
  unfoldable pub expire : String → ℕ → Call R (Unit {0})
  unfolding attempt
  expire key ttl =
      attempt env.fault (λ w. (ok tt, record w { cache = env.redis.expire w.now key ttl w.cache }))

  -- INCR on its own; its error is that the value is no number, or too large.
  unfoldable pub count_up : String → Call R ℤ
  unfolding attempt
  count_up key = attempt env.fault (λ w.
      let (v, c) = env.redis.incr w.now key w.cache in
      (from_option unavailable v, record w { cache = c }))

  -- The first count of a key sets its time to live.
  unfoldable pub incr : String → ℕ → Call R ℤ
  incr key ttl w =
      let (r, w') = count_up key w in
      elim r [
        | err e ↦ (err e, w')
        | ok v ↦
            if is_one v
            then (let (s, w'') = expire key ttl w' in
                elim s [ ok _ ↦ (ok v, w'') | err e ↦ (err e, w'') ])
            else (ok v, w')
      ]

  unfoldable pub ping : Call R (Unit {0})
  unfolding attempt
  ping = attempt env.fault (λ w. (ok tt, w))
