-- ===== src/Http/Limits.antt =====
-- Rate limits and addresses: `RealIP`, `RequestIDMiddleware`, `RateLimit` and `ScopeRateLimiter` of
-- apps/license-api/internal/httpapi/middleware.go, `handleSetRateLimit` of adminops.go and
-- `pageParams` of admin.go. Times are in nanoseconds; the cache counts milliseconds.
use vertify_license_platform.Prelude.{
  ℕ, ◌+◌, ◌*◌, ◌^◌, ◌<◌, ◌≡◌, ◌⊎◌, ap, Bool, true, false, ◌&&◌, ◌||◌, not, Option, none, some, inl,
  inr, Bool-cases, List, [], ◌∷◌, is_empty, ltb, leb, ◌==◌, Text, codes, text_eq, byte_len,
  trim_space, if◌then◌else◌, arith,
}
use vertify_license_platform.Cache.{Redis, Bucket, rate_limit}
use vertify_license_platform.Http.{Answer, answer, success, bad_request}
use vertify_license_platform.Http.Login.{minute}

-- `strings.Split(s, ",")[0]`
unfoldable pub first_entry : Text → Text
first_entry [] = []
first_entry (c ∷ s) = let rest = first_entry s in if c == b',' then [] else c ∷ rest

-- `RealIP`: the peer's address, whether it is a trusted proxy's, and the header X-Forwarded-For
unfoldable pub real_ip : Text → Bool → Text → Text
unfolding first_entry trim_space
real_ip host trusted xff =
    if trusted && not (is_empty xff) then trim_space (first_entry xff) else host

-- `RequestIDMiddleware`: the header, and the UUID that is drawn
unfoldable pub request_id : Text → Text → Text
unfolding byte_len
request_id given drawn = if is_empty given || ltb 64 (byte_len given) then drawn else given

-- the limits by scope
abbrev pub Limits : Type 0
Limits = List (Text × ℕ)

abbrev pub limit_of : Text → Limits → Option ℕ
limit_of scope [] = none
limit_of scope ((s, n) ∷ ls) = if text_eq s scope then some n else limit_of scope ls

-- `ScopeRateLimiter`: none is the zero time
pub record Limiter : Type 0 where
  pub conf : Limits
  pub loaded_at : Option ℕ

-- thirty seconds
abbrev pub cache_time : ℕ
cache_time = 30 * 10 ^ 9

abbrev is_stale : ℕ → Option ℕ → Bool
is_stale now none = true
is_stale now (some t) = ltb (t + cache_time) now

-- the limit of a scope, where it is positive
abbrev pub configured : Text → ℕ → Limits → ℕ
configured scope fallback ls = elim (limit_of scope ls) [
  | none ↦ fallback
  | some v ↦ if v == 0 then fallback else v
]

-- the reload, from a database that answers or not
unfoldable pub reload : ℕ → Bool → Limits → Limiter → Limiter
reload now answers db l =
    if is_stale now l.loaded_at && answers then record { conf = db; loaded_at = some now } else l

-- `limit`
unfoldable pub limit : ℕ → Bool → Limits → Text → ℕ → Limiter → ℕ × Limiter
unfolding reload
limit now answers db scope fallback l =
    let l' = reload now answers db l in (configured scope fallback l'.conf, l')

-- `Invalidate`
unfoldable pub invalidate : Limiter → Limiter
invalidate l = record l { loaded_at = none }

-- `handleSetRateLimit`, on the table of limits: the scopes of `knownRateLimitScopes`
abbrev pub is_known_scope : Text → Bool
is_known_scope s =
    text_eq s (codes "bootstrap")
    || text_eq s (codes "activate")
    || text_eq s (codes "heartbeat")
    || text_eq s (codes "redeem")
    || text_eq s (codes "user_login")
    || text_eq s (codes "user_register")
    || text_eq s (codes "user_ops")

-- `UpsertApiRateLimit`
abbrev pub upsert_limit : Text → ℕ → Limits → Limits
upsert_limit scope n [] = (scope, n) ∷ []
upsert_limit scope n ((s, m) ∷ ls) =
    if text_eq s scope then (s, n) ∷ ls else (s, m) ∷ upsert_limit scope n ls

-- the body: a scope and a number, negative ones counted as 0
unfoldable pub handle_set_rate_limit : Option (Text × ℕ) → Limits → Answer × Limits
handle_set_rate_limit none ls = (bad_request, ls)
handle_set_rate_limit (some (scope, n)) ls =
    if is_known_scope scope && leb 1 n && leb n 100000
    then (success 200, upsert_limit scope n ls)
    else (bad_request, ls)

module _ (r : Redis) where
  -- `RateLimit` and `Middleware`: the answer, if they give one, with a Redis that answers or not, at a
  -- time in milliseconds and with a random mark
  unfoldable pub limited : Bool → ℕ → ℕ → ℕ → Bucket r → Option Answer × Bucket r
  unfolding rate_limit
  limited answers allowed now mark b =
      let (left, b') = rate_limit r now minute allowed mark b in
      if not answers
      then (none, b)
      else if left == 0
      then (some (answer 429 (codes "RATE_LIMITED")), b')
      else (none, b')

-- A call of `limit`: its time, and whether the database answers it.
abbrev pub Calls : Type 0
Calls = List (ℕ × Bool)

-- the limiter after calls, with the table as it is at each time
abbrev pub after_calls : (ℕ → Limits) → Calls → Limiter → Limiter
after_calls table [] l = l
after_calls table ((now, answers) ∷ cs) l = after_calls table cs (reload now answers (table now) l)

-- whether the limiter's table is from before a time
abbrev pub loaded_by : ℕ → Option ℕ → Bool
loaded_by changed none = true
loaded_by changed (some t) = leb t changed

-- loaded by the time of the change, or holding what the table holds since
abbrev IsOldOrNew : ℕ → Limits → Limiter → Type 0
IsOldOrNew changed new l = (loaded_by changed l.loaded_at ≡ true) ⊎ (l.conf ≡ new)

reload_keeps :
    (changed now : ℕ) (answers : Bool) (table : ℕ → Limits) (new : Limits) (l : Limiter)
    → ((t : ℕ) → changed < t → table t ≡ new)
    → IsOldOrNew changed new l
    → IsOldOrNew changed new (reload now answers (table now) l)
unfolding reload
reload_keeps changed now answers table new l settled h =
    elim (Bool-cases (is_stale now l.loaded_at && answers)) [
      | inr e ↦ rw e h
      | inl e ↦ elim (Bool-cases (leb now changed)) [
        | inl e' ↦ rw e (inl e')
        | inr e' ↦ rw e (inr (settled now (ground (arith, e'))))
      ]
    ]

calls_keep :
    (changed : ℕ) (table : ℕ → Limits) (new : Limits) (cs : Calls) (l : Limiter)
    → ((t : ℕ) → changed < t → table t ≡ new)
    → IsOldOrNew changed new l
    → IsOldOrNew changed new (after_calls table cs l)
calls_keep changed table new [] l settled h = h
calls_keep changed table new ((now, answers) ∷ cs) l settled h =
    calls_keep changed table new cs (reload now answers (table now) l) settled
      (reload_keeps changed now answers table new l settled h)

fresh_later :
    (changed now : ℕ) (loaded_at : Option ℕ)
    → is_stale now loaded_at ≡ false
    → loaded_by changed loaded_at ≡ true
    → changed + cache_time < now
    → ⊥
fresh_later changed now none fresh old late = ground (arith, fresh)
fresh_later changed now (some t) fresh old late = ground (arith, fresh, old, late)

settles :
    (changed now : ℕ) (table new : Limits) (l : Limiter)
    → table ≡ new
    → changed + cache_time < now
    → IsOldOrNew changed new l
    → (reload now true table l).conf ≡ new
unfolding reload
settles changed now table new l same late h = elim (Bool-cases (is_stale now l.loaded_at)) [
  | inl e ↦ rw e same
  | inr e ↦ elim h [
    | inl old ↦ absurd (fresh_later changed now l.loaded_at e old late)
    | inr is_new ↦ rw e is_new
  ]
]

-- Thirty seconds after the last change of the table of limits, every call that the database answers
-- uses the table as it is since, whatever calls were made before and whichever the database answered.
limit_settles :
    (changed now : ℕ) (table : ℕ → Limits) (new : Limits) (cs : Calls) (l : Limiter) (scope : Text)
    (fallback : ℕ)
    → ((t : ℕ) → changed < t → table t ≡ new)
    → loaded_by changed l.loaded_at ≡ true
    → changed + cache_time < now
    → (limit now true (table now) scope fallback (after_calls table cs l)).0
      ≡ configured scope fallback new
unfolding limit
limit_settles changed now table new cs l scope fallback settled old late =
    ap (configured scope fallback) (
      settles changed now (table now) new (after_calls table cs l)
        (settled now (omega (arith, late))) late
        (calls_keep changed table new cs l settled (inl old)))
