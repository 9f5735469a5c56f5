-- ===== src/Tests/Fixture.antt =====
-- A small installation: two operators, one user with a wallet, a Redis, and calls that do not fail.
use mathlib.Core.Path.{subst}
use template_golang_web.Base.{
  ℕ, ◌-◌, ◌≡◌, refl, ap, arith, String, str_eq, eq_iff, Bool, true, false, ◌&&◌, Option, none, some,
  List, [], ◌∷◌, pos, ◌==◌, ==_iff, ◌⊎◌, Bool-cases, inl, inr, if◌then◌else◌,
}
use template_golang_web.Strconv.{format_int}
use template_golang_web.Db.Model.{Tables, Database}
use template_golang_web.Env.{Env, World, AuthUser, fine, IsCodec}
use template_golang_web.Cache.Keys.{first, str_eq-of_ne, session_key, admin_session_key}
use template_golang_web.Api.Audit.{Bytes, bytes, stars}
use template_golang_web.Api.Audit.Masking.{IsObjectCodec, IsStarred}
use template_golang_web.Tests.Redis.{Store, empty, redis}

abbrev pub ada : AuthUser
ada = record { user_id = 1; username = "ada"; permissions = "*" ∷ [] }

-- An encoding of the one user of the tests.
abbrev marshal_permissions : ℕ → String → List String → Option String
marshal_permissions id username [] = none
marshal_permissions id username (p ∷ []) =
    if id == 1 && str_eq username "ada" && str_eq p "*" then some "ada *" else none
marshal_permissions id username (p ∷ q ∷ ps) = none

abbrev marshal : AuthUser → Option String
marshal user = marshal_permissions user.user_id user.username user.permissions

abbrev unmarshal : String → Option AuthUser
unmarshal text = if str_eq text "ada *" then some ada else none

-- Two JSON texts with one field, before and after the mask.
abbrev pub plain_body : Bytes
plain_body = bytes "{\"Password\":\"x\"}"

abbrev pub masked_body : Bytes
masked_body = bytes "{\"Password\":\"***\"}"

abbrev pub plain_object : List (Bytes × Bytes)
plain_object = (bytes "Password", bytes "\"x\"") ∷ []

abbrev pub masked_object : List (Bytes × Bytes)
masked_object = (bytes "Password", bytes "\"***\"") ∷ []

abbrev same_bytes : Bytes → Bytes → Bool
same_bytes [] [] = true
same_bytes (a ∷ xs) (b ∷ ys) = a == b && same_bytes xs ys
same_bytes _ _ = false

abbrev unmarshal_object : Bytes → Option (List (Bytes × Bytes))
unmarshal_object body =
    if same_bytes body plain_body
    then some plain_object
    else if same_bytes body masked_body
    then some masked_object
    else none

-- Objects with that one field.
abbrev marshal_object : List (Bytes × Bytes) → Option Bytes
marshal_object [] = none
marshal_object ((key, value) ∷ rest) =
    some (if same_bytes value stars then masked_body else plain_body)

abbrev pub env : Env Store
env = record {
  redis = redis;
  fault = λ n. fine;
  bcrypt_generate = λ n p. some p;
  bcrypt_compare = str_eq;
  uuid = λ n. String.◌∷◌ "t" (format_int n);
  marshal = marshal;
  unmarshal = unmarshal;
  is_alphanum = λ s. true;
  is_email = λ s. true;
  rune_count = λ s. 8;
  collate = λ s t. true;
  start_of_day = λ n. n;
  months_before = λ m n. n - m;
  unmarshal_object = unmarshal_object;
  marshal_object = marshal_object;
  token_duration = 3600;
  retention_months = 6;
}

pub healthy : (n : ℕ) → env.fault n ≡ fine
healthy n = refl

unmarshal-marshal_permissions :
    (id : ℕ) (username : String) (ps : List String) (text : String)
    → marshal_permissions id username ps ≡ some text
    → unmarshal text ≡ some (record { user_id = id; username = username; permissions = ps })
unmarshal-marshal_permissions id username [] text h = absurd (ground arith)
unmarshal-marshal_permissions id username (p ∷ []) text h =
    elim (Bool-cases (id == 1 && str_eq username "ada" && str_eq p "*")) [
      | inr other ↦ absurd (ground arith)
      | inl same ↦
          let i : id ≡ 1 = (==_iff id 1).0 (ground arith) in
          let u : username ≡ "ada" = (eq_iff username "ada").0 (ground arith) in
          let q : p ≡ "*" = (eq_iff p "*").0 (ground arith) in
          let t : text ≡ "ada *" = ground arith in rw (i, u, q, t) refl
    ]
unmarshal-marshal_permissions id username (p ∷ q ∷ ps) text h = absurd (ground arith)

pub env-IsCodec : IsCodec env
env-IsCodec = record {
  unmarshal-marshal = λ user text h.
      unmarshal-marshal_permissions user.user_id user.username user.permissions text h;
  token = λ n. str_eq-of_ne _ _ λ e. omega (arith, ap first e);
}

starred_plain :
    (m' : List (Bytes × Bytes))
    → IsStarred plain_object m'
    → (m' ≡ plain_object) ⊎ (m' ≡ masked_object)
starred_plain [] h = absurd h
starred_plain ((key, value) ∷ []) (same, inl kept, h) = inl (rw (same, kept) refl)
starred_plain ((key, value) ∷ []) (same, inr stars, h) = inr (rw (same, stars) refl)
starred_plain ((key, value) ∷ f ∷ m') (same, value_same, h) = absurd h

starred_masked : (m' : List (Bytes × Bytes)) → IsStarred masked_object m' → m' ≡ masked_object
starred_masked [] h = absurd h
starred_masked ((key, value) ∷ []) (same, inl kept, h) = rw (same, kept) refl
starred_masked ((key, value) ∷ []) (same, inr stars, h) = rw (same, stars) refl
starred_masked ((key, value) ∷ f ∷ m') (same, value_same, h) = absurd h

-- The object has a text that decodes to it.
abbrev HasBody : List (Bytes × Bytes) → Type 0
HasBody m = (s : Bytes) × (marshal_object m ≡ some s) × (unmarshal_object s ≡ some m)

masked_decodes :
    (body : Bytes) (m m' : List (Bytes × Bytes))
    → env.unmarshal_object body ≡ some m
    → IsStarred m m'
    → (s : Bytes) × (env.marshal_object m' ≡ some s) × (env.unmarshal_object s ≡ some m')
masked_decodes body m m' h starred =
    let one : HasBody plain_object = (plain_body, refl, refl) in
    let two : HasBody masked_object = (masked_body, refl, refl) in
    elim (Bool-cases (same_bytes body plain_body)) [
      | inl plain ↦
          let e : m ≡ plain_object = ground arith in
          let from : IsStarred plain_object m' = subst (λ x. IsStarred x m') e starred in
          elim (starred_plain m' from) [ inl same ↦ rw same one | inr masked ↦ rw masked two ]
      | inr other ↦ elim (Bool-cases (same_bytes body masked_body)) [
        | inl masked ↦
            let e : m ≡ masked_object = ground arith in
            let from : IsStarred masked_object m' = subst (λ x. IsStarred x m') e starred in
            rw (starred_masked m' from) two
        | inr neither ↦ absurd (ground arith)
      ]
    ]

pub env-IsObjectCodec : IsObjectCodec env
env-IsObjectCodec = record { empty = refl; masked = masked_decodes }

abbrev pub tables : Tables
tables = record {
  users =
      record {
        id = 1;
        username = "carl";
        email = "carl@example.org";
        created_at = 900;
        hashed_password = "carlspass";
        deleted_at = none;
      }
      ∷ [];
  wallets = record { id = 1; user_id = 1; balance = pos 100; created_at = 900 } ∷ [];
  wallet_entries =
      record {
        id = 1;
        wallet_id = 1;
        amount = pos 100;
        note = "opening";
        operator_id = 1;
        operator_username = "ada";
        created_at = 900;
      }
      ∷ [];
  admin_users =
      record {
        id = 1;
        username = "ada";
        hashed_password = "adaspass";
        created_at = 900;
        deleted_at = none;
      }
      ∷ record {
        id = 2;
        username = "bob";
        hashed_password = "bobspass";
        created_at = 900;
        deleted_at = none;
      }
      ∷ [];
  roles = record { id = 1; name = "admin"; description = ""; created_at = 900 } ∷ [];
  permissions = record { id = 1; code = "*"; description = ""; created_at = 900 } ∷ [];
  role_permissions = record { role_id = 1; permission_id = 1 } ∷ [];
  admin_user_roles = record { admin_user_id = 1; role_id = 1 } ∷ [];
  operation_logs = [];
}

abbrev pub database : Database
database = record {
  tables = tables;
  sequences = record {
    users = 2;
    wallets = 2;
    wallet_entries = 2;
    admin_users = 3;
    operation_logs = 1;
  };
}

abbrev pub world : World Store
world = record { db = database; cache = λ k. empty; now = 1000; tick = 0 }

-- The world in which an operator has logged in with the token.
abbrev pub with_session : ℕ → String → World Store
with_session id token = record world {
  cache =
      redis.set 1000 (admin_session_key id) token 3600
        (redis.set 1000 (session_key token) "ada *" 3600 (λ k. empty));
}
