-- ===== src/Tests/Redis.antt =====
-- A Redis as a function from keys to values with the time at which they end; cache/cache.go runs
-- on it, and it keeps the laws of the interface.
use template_golang_web.Base.{
  ℕ, suc, ◌+◌, ◌≤◌, ◌≡◌, arith, String, str_eq, eq_iff, eq_refl, Option, none, some, List, any,
  ◌==◌, ◌||◌, ℤ, pos, negsuc, ltb, if◌then◌else◌, false, inl, inr, Option-cases, Bool-cases,
  max_int64, refl,
}
use template_golang_web.Strconv.{format_int, parse_int, parse_int-format_int}
use template_golang_web.Env.{Redis, IsLawful}

pub data Slot : Type 0 where
  empty : Slot
  held : String → Option ℕ → Slot

abbrev pub Store : Type 0
Store = String → Slot

abbrev look : ℕ → Slot → Option String
look t empty = none
look t (held v none) = some v
look t (held v (some e)) = if ltb t e then some v else none

abbrev read : ℕ → String → Store → Option String
read t k s = look t (s k)

abbrev write : String → Slot → Store → Store
write k entry s j = if str_eq k j then entry else s j

abbrev set : ℕ → String → String → ℕ → Store → Store
set t k v ttl s = write k (held v (if ttl == 0 then none else some (t + ttl))) s

abbrev del : ℕ → List String → Store → Store
del t ks s j = if any (λ k. str_eq k j) ks then empty else s j

abbrev next_count : Option ℤ → Option ℕ
next_count (some (pos n)) = if ltb n max_int64 then some (suc n) else none
next_count (some (negsuc n)) = none
next_count none = none

-- The count after one more, and when it ends.
abbrev counted : ℕ → Slot → Option ℕ
counted t slot = elim (look t slot) [ none ↦ some 1 | some v ↦ next_count (parse_int v) ]

abbrev kept_end : ℕ → Slot → Option ℕ
kept_end t empty = none
kept_end t (held v none) = none
kept_end t (held v (some e)) = if ltb t e then some e else none

abbrev incr : ℕ → String → Store → Option ℤ × Store
incr t k s = elim (counted t (s k)) [
  | none ↦ (none, s)
  | some n ↦ (some (pos n), write k (held (format_int n) (kept_end t (s k))) s)
]

abbrev expired_at : ℕ → ℕ → Slot → Slot
expired_at t ttl slot = elim (look t slot) [ none ↦ slot | some v ↦ held v (some (t + ttl)) ]

abbrev expire : ℕ → String → ℕ → Store → Store
expire t k ttl s = write k (expired_at t ttl (s k)) s

abbrev pub redis : Redis Store
redis = record { get = read; set = set; del = del; incr = incr; expire = expire }

look-expired_at :
    (t t' ttl : ℕ) (slot : Slot)
    → t ≤ t'
    → look t' (expired_at t ttl slot) ≡ (if ltb t' (t + ttl) then look t slot else none)
look-expired_at t t' ttl empty h = ground arith
look-expired_at t t' ttl (held v none) h = ground arith
look-expired_at t t' ttl (held v (some e)) h = ground arith

look-kept_end : (t : ℕ) (v : String) (slot : Slot) → look t (held v (kept_end t slot)) ≡ some v
look-kept_end t v empty = refl
look-kept_end t v (held u none) = refl
look-kept_end t v (held u (some e)) = ground arith

look-kept_end-absent :
    (t t' : ℕ) (v : String) (slot : Slot)
    → look t slot ≡ none
    → look t' (held v (kept_end t slot)) ≡ some v
look-kept_end-absent t t' v empty h = refl
look-kept_end-absent t t' v (held u none) h = ground arith
look-kept_end-absent t t' v (held u (some e)) h = ground arith

-- The counting slot by slot.
incr_ok :
    (t n : ℕ) (k : String) (s : Store)
    → (incr t k s).0 ≡ some (pos n)
    → (incr t k s).1 ≡ write k (held (format_int n) (kept_end t (s k))) s
incr_ok t n k s h = elim (Option-cases (counted t (s k))) [
  | inl failed ↦ absurd (ground arith)
  | inr (m, done) ↦ ground arith
]

look-set :
    (t t' ttl : ℕ) (v : String)
    → look t' (held v (if ttl == 0 then none else some (t + ttl)))
      ≡ (if ttl == 0 || ltb t' (t + ttl) then some v else none)
look-set t t' ttl v = elim (Bool-cases (ttl == 0)) [
  | inl forever ↦ rw forever refl
  | inr timed ↦ rw timed refl
]

set_lem :
    (t t' ttl : ℕ) (j k v : String) (s : Store)
    → t ≤ t'
    → read t' j (set t k v ttl s) ≡ (
        if str_eq k j then (if ttl == 0 || ltb t' (t + ttl) then some v else none) else read t' j s)
set_lem t t' ttl j k v s later = elim (Bool-cases (str_eq k j)) [
  | inl same ↦ rw same (look-set t t' ttl v)
  | inr other ↦ rw other refl
]

del_lem :
    (t t' : ℕ) (j : String) (ks : List String) (s : Store)
    → read t' j (del t ks s) ≡ (if any (λ k. str_eq k j) ks then none else read t' j s)
del_lem t t' j ks s = elim (Bool-cases (any (λ k. str_eq k j) ks)) [
  | inl same ↦ rw same refl
  | inr other ↦ rw other refl
]

expire_lem :
    (t t' ttl : ℕ) (j k : String) (s : Store)
    → t ≤ t'
    → read t' j (expire t k ttl s)
      ≡ (if str_eq k j then (if ltb t' (t + ttl) then read t j s else none) else read t' j s)
expire_lem t t' ttl j k s later = elim (Bool-cases (str_eq k j)) [
  | inl same ↦ let h = (eq_iff k j).0 same in rw (same, h) (look-expired_at t t' ttl (s j) later)
  | inr other ↦ rw other refl
]

incr_absent : (t : ℕ) (k : String) (s : Store) → look t (s k) ≡ none → (incr t k s).0 ≡ some (pos 1)
incr_absent t k s absent = rw (incr, absent) refl

incr_other :
    (t t' : ℕ) (j k : String) (s : Store)
    → str_eq k j ≡ false
    → read t' j (incr t k s).1 ≡ read t' j s
incr_other t t' j k s other = elim (Option-cases (counted t (s k))) [
  | inl failed ↦ rw (incr, failed) refl
  | inr (m, done) ↦ rw (incr, done, other) refl
]

look_later : (t t' : ℕ) (slot : Slot) → t ≤ t' → look t slot ≡ none → look t' slot ≡ none
look_later t t' empty later h = refl
look_later t t' (held v none) later h = absurd cc
look_later t t' (held v (some e)) later h = ground arith

look-kept_end-ended :
    (t t' : ℕ) (u v : String) (slot : Slot)
    → t ≤ t'
    → look t slot ≡ some v
    → look t' slot ≡ none
    → look t' (held u (kept_end t slot)) ≡ none
look-kept_end-ended t t' u v empty later h e = absurd cc
look-kept_end-ended t t' u v (held x none) later h e = absurd cc
look-kept_end-ended t t' u v (held x (some y)) later h e = ground arith

look-kept_end-still :
    (t t' : ℕ) (u v x : String) (slot : Slot)
    → t ≤ t'
    → look t slot ≡ some u
    → look t' slot ≡ some v
    → look t' (held x (kept_end t slot)) ≡ some x
look-kept_end-still t t' u v x empty later h e = absurd cc
look-kept_end-still t t' u v x (held y none) later h e = refl
look-kept_end-still t t' u v x (held y (some z)) later h e = ground arith

incr_end :
    (t t' : ℕ) (k v : String) (s : Store)
    → t ≤ t'
    → look t (s k) ≡ some v
    → look t' (s k) ≡ none
    → read t' k (incr t k s).1 ≡ none
incr_end t t' k v s later h e = elim (Option-cases (counted t (s k))) [
  | inl failed ↦ rw (incr, failed) e
  | inr (m, done) ↦
      rw (incr, done, eq_refl k) (look-kept_end-ended t t' (format_int m) v (s k) later h e)
]

pub redis-IsLawful : IsLawful redis
redis-IsLawful = record {
  get_set = λ t t' j k v ttl s later. set_lem t t' ttl j k v s later;
  get_del = λ t t' j ks s later. del_lem t t' j ks s;
  get_expire = λ t t' j k ttl s later. expire_lem t t' ttl j k s later;
  incr_new = λ t k s absent. incr_absent t k s absent;
  incr_old = λ t n k s h small. ground (arith, h, parse_int-format_int n);
  get_incr = λ t n k s h. rw (incr_ok t n k s h, eq_refl k) (look-kept_end t (format_int n) (s k));
  get_incr_other = incr_other;
  get_incr_later = λ t t' n k s later absent h.
      rw (incr_ok t n k s h, eq_refl k) (look-kept_end-absent t t' (format_int n) (s k) absent);
  get_later = λ t t' k s later h. look_later t t' (s k) later h;
  get_incr_end = λ t t' k v s later h e. incr_end t t' k v s later h e;
  get_incr_still = λ t t' n k u v s later h e done.
      rw (incr_ok t n k s done, eq_refl k)
        (look-kept_end-still t t' u v (format_int n) (s k) later h e);
}
