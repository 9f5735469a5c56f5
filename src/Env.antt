-- ===== src/Env.antt =====
-- What the program does not implement, as parameters, and the state that a request works on.
-- `Redis` is the interface of the go-redis client that cache/cache.go calls; its laws are those of
-- the Redis commands GET, SET, DEL, INCR and EXPIRE. A `Fault` is what may befall one call of the
-- database or of Redis: the call is refused before it takes effect, or its reply is lost after.
use template_golang_web.Base.{
  ℕ, ◌+◌, ◌≤◌, ◌<◌, ◌≡◌, String, str_eq, Bool, true, false, Option, none, some, List, any, ℤ, pos,
  ◌==◌, ◌||◌, max_int64, ltb, if◌then◌else◌,
}
use template_golang_web.Strconv.{format_int}
use template_golang_web.Db.Model.{Database}
use template_golang_web.Db.Error.{Error, Result, ok, err, Query}

-- AuthUser of api/middleware.go, the value that a session holds.
pub record AuthUser : Type 0 where
  pub user_id : ℕ
  pub username : String
  pub permissions : List String

pub data Failure : Type 0 where
  deadline : Failure
  broken : Failure

abbrev pub to_error : Failure → Error
to_error deadline = Error.deadline_exceeded
to_error broken = Error.unavailable

pub data Fault : Type 0 where
  fine : Fault
  refused : Failure → Fault
  lost : Failure → Fault

-- Each command is given the time at which the server runs it; a time to live is a duration.
pub record Redis (R : Type 0) : Type 0 where
  pub get : ℕ → String → R → Option String
  pub set : ℕ → String → String → ℕ → R → R
  pub del : ℕ → List String → R → R
  pub incr : ℕ → String → R → Option ℤ × R
  pub expire : ℕ → String → ℕ → R → R

pub record Env (R : Type 0) : Type 0 where
  pub redis : Redis R
  -- The fault of the n-th call.
  pub fault : ℕ → Fault
  -- bcrypt.GenerateFromPassword, whose salt differs at each call, and CompareHashAndPassword.
  pub bcrypt_generate : ℕ → String → Option String
  pub bcrypt_compare : String → String → Bool
  -- uuid.NewString at the n-th call.
  pub uuid : ℕ → String
  -- json.Marshal and json.Unmarshal at the type AuthUser.
  pub marshal : AuthUser → Option String
  pub unmarshal : String → Option AuthUser
  -- The validators `alphanum` and `email`, and the number of characters of a text.
  pub is_alphanum : String → Bool
  pub is_email : String → Bool
  pub rune_count : String → ℕ
  -- The order of texts in the database.
  pub collate : String → String → Bool
  -- Midnight of the day of a time, and the time some months earlier, in the local time zone.
  pub start_of_day : ℕ → ℕ
  pub months_before : ℕ → ℕ → ℕ
  -- json.Unmarshal at the type map[string]any, as keys with the text of their values, and
  -- json.Marshal of such a map.
  pub unmarshal_object : List ℕ → Option (List (List ℕ × List ℕ))
  pub marshal_object : List (List ℕ × List ℕ) → Option (List ℕ)
  -- util.Config
  pub token_duration : ℕ
  pub retention_months : ℕ

pub record World (R : Type 0) : Type 0 where
  pub db : Database
  pub cache : R
  pub now : ℕ
  pub tick : ℕ

-- A call of the store or of the cache.
abbrev pub Call : Type 0 → Type 0 → Type 0
Call R A = World R → Result A × World R

abbrev pub ticked : {R : Type 0} → World R → World R
ticked w = record w { tick = w.tick + 1 }

module _ {R A : Type 0} where
  -- A call that changes the world by `f` where it takes effect.
  unfoldable pub attempt : (ℕ → Fault) → (World R → Result A × World R) → Call R A
  attempt fault f w = elim (fault w.tick) [
    | fine ↦ f (ticked w)
    | refused e ↦ (err (to_error e), ticked w)
    | lost e ↦ (err (to_error e), (f (ticked w)).1)
  ]

  abbrev pub return : A → Call R A
  return a w = (ok a, w)

-- `a, err := call(...)` followed by `if err != nil { return err }`
infixl 5 ◌>>=◌ ◌>>◌
abbrev pub ◌>>=◌ : {R A B : Type 0} → Call R A → (A → Call R B) → Call R B
◌>>=◌ m f w = let (r, w') = m w in elim r [ ok a ↦ f a w' | err e ↦ (err e, w') ]

abbrev pub ◌>>◌ : {R B : Type 0} → Call R (Unit {0}) → Call R B → Call R B
m >> k = m >>= λ _. k

-- One statement of the database: it is atomic.
unfoldable pub stmt : {R A : Type 0} → Env R → Query A → Call R A
unfolding attempt
stmt env q = attempt env.fault λ w. let (r, d) = q w.now w.db in (r, record w { db = d })

-- What the program relies on of Redis: a key that is set reads as its value until its time to live
-- has passed, or for good where this is 0, a deleted key is gone, a new time to live counts from now, INCR counts a decimal
-- numeral up and leaves the time to live alone, and a command touches the keys that it names only.
pub record IsLawful {R : Type 0} (redis : Redis R) : Type 0 where
  pub get_set :
      (t t' : ℕ) (j k v : String) (ttl : ℕ) (s : R)
      → t ≤ t'
      → redis.get t' j (redis.set t k v ttl s) ≡ (
          if str_eq k j
          then (if ttl == 0 || ltb t' (t + ttl) then some v else none)
          else redis.get t' j s)
  pub get_del :
      (t t' : ℕ) (j : String) (ks : List String) (s : R)
      → t ≤ t'
      → redis.get t' j (redis.del t ks s)
        ≡ (if any (λ k. str_eq k j) ks then none else redis.get t' j s)
  pub get_expire :
      (t t' : ℕ) (j k : String) (ttl : ℕ) (s : R)
      → t ≤ t'
      → redis.get t' j (redis.expire t k ttl s) ≡ (
          if str_eq k j
          then (if ltb t' (t + ttl) then redis.get t j s else none)
          else redis.get t' j s)
  pub incr_new :
      (t : ℕ) (k : String) (s : R) → redis.get t k s ≡ none → (redis.incr t k s).0 ≡ some (pos 1)
  pub incr_old :
      (t n : ℕ) (k : String) (s : R)
      → redis.get t k s ≡ some (format_int n)
      → n < max_int64
      → (redis.incr t k s).0 ≡ some (pos (n + 1))
  pub get_incr :
      (t n : ℕ) (k : String) (s : R)
      → (redis.incr t k s).0 ≡ some (pos n)
      → redis.get t k (redis.incr t k s).1 ≡ some (format_int n)
  pub get_incr_other :
      (t t' : ℕ) (j k : String) (s : R)
      → str_eq k j ≡ false
      → redis.get t' j (redis.incr t k s).1 ≡ redis.get t' j s
  pub get_incr_later :
      (t t' n : ℕ) (k : String) (s : R)
      → t ≤ t'
      → redis.get t k s ≡ none
      → (redis.incr t k s).0 ≡ some (pos n)
      → redis.get t' k (redis.incr t k s).1 ≡ some (format_int n)
  -- A key that is gone stays so, and INCR leaves the end of a key where it was.
  pub get_later :
      (t t' : ℕ) (k : String) (s : R) → t ≤ t' → redis.get t k s ≡ none → redis.get t' k s ≡ none
  pub get_incr_end :
      (t t' : ℕ) (k v : String) (s : R)
      → t ≤ t'
      → redis.get t k s ≡ some v
      → redis.get t' k s ≡ none
      → redis.get t' k (redis.incr t k s).1 ≡ none
  pub get_incr_still :
      (t t' n : ℕ) (k u v : String) (s : R)
      → t ≤ t'
      → redis.get t k s ≡ some u
      → redis.get t' k s ≡ some v
      → (redis.incr t k s).0 ≡ some (pos n)
      → redis.get t' k (redis.incr t k s).1 ≡ some (format_int n)

-- What the program relies on of the rest: json.Unmarshal reads back what json.Marshal writes of an
-- AuthUser, and a token is not empty.
pub record IsCodec {R : Type 0} (env : Env R) : Type 0 where
  pub unmarshal-marshal :
      (user : AuthUser) (text : String)
      → env.marshal user ≡ some text
      → env.unmarshal text ≡ some user
  pub token : (n : ℕ) → str_eq (env.uuid n) "" ≡ false

-- bcrypt accepts a password against the hash that it made of it.
pub record IsHashing {R : Type 0} (env : Env R) : Type 0 where
  pub accepts :
      (n : ℕ) (password hashed : String)
      → env.bcrypt_generate n password ≡ some hashed
      → env.bcrypt_compare hashed password ≡ true
