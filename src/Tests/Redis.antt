-- ===== src/Tests/Redis.antt =====
-- A Redis as lists, which shows that the laws of `Cache.Redis` can be met.
use vertify_license_platform.Prelude.{
  ℕ, suc, ◌+◌, ◌≤◌, ◌≡◌, refl, true, false, Option, none, some, List, [], ◌∷◌, leb, ◌==◌, is_some,
  if◌then◌else◌, length, All, arith,
}
use vertify_license_platform.Cache.{Redis, among, IsNodup, live_until, still_above}
use vertify_license_platform.Cache.Keys.{Key, key_eq}

-- a string with its value and expiry, the latest first
abbrev pub Entries : Type 0
Entries = List (Key × ℕ × ℕ)

abbrev pub get : Entries → Key → ℕ → Option ℕ
get [] k t = none
get ((j, v, expiry) ∷ s) k t = if key_eq j k then live_until v expiry t else get s k t

-- scores with their members
abbrev pub Scores : Type 0
Scores = List (ℕ × ℕ)

abbrev pub score : Scores → ℕ → Option ℕ
score [] k = none
score ((s, m) ∷ z) k = if m == k then some s else score z k

abbrev pub IsSetLike : Scores → Type 0
IsSetLike [] = Unit
IsSetLike ((s, m) ∷ z) = (score z m ≡ none) × IsSetLike z

abbrev pub add : Scores → ℕ → ℕ → Scores
add [] s m = (s, m) ∷ []
add ((r, k) ∷ z) s m = let rest = add z s m in if k == m then (s, m) ∷ z else (r, k) ∷ rest

abbrev pub rem : Scores → ℕ → Scores
rem [] m = []
rem ((r, k) ∷ z) m = let rest = rem z m in if k == m then z else (r, k) ∷ rest

abbrev pub rem_range : Scores → ℕ → Scores
rem_range [] hi = []
rem_range ((r, k) ∷ z) hi = let rest = rem_range z hi in if leb r hi then rest else (r, k) ∷ rest

pub score-add :
    (z : Scores) (s m k : ℕ) → score (add z s m) k ≡ (if m == k then some s else score z k)
score-add [] s m k = ground arith
score-add ((r, j) ∷ z) s m k = ground (arith, score-add z s m k)

pub length-add :
    (z : Scores) (s m : ℕ)
    → length (add z s m) ≡ (if is_some (score z m) then length z else suc (length z))
length-add [] s m = ground arith
length-add ((r, j) ∷ z) s m = ground (arith, length-add z s m)

pub score-rem :
    (z : Scores) (m k : ℕ) → IsSetLike z → score (rem z m) k ≡ (if m == k then none else score z k)
score-rem [] m k d = ground arith
score-rem ((r, j) ∷ z) m k d = ground (arith, score-rem z m k d.1)

pub length-rem : (z : Scores) (m : ℕ) → length (rem z m) ≤ length z
length-rem [] m = omega arith
length-rem ((r, j) ∷ z) m = ground (arith, length-rem z m)

pub score-rem_range :
    (z : Scores) (hi k : ℕ) → IsSetLike z → score (rem_range z hi) k ≡ still_above hi (score z k)
score-rem_range [] hi k d = ground arith
score-rem_range ((r, j) ∷ z) hi k d = ground (arith, score-rem_range z hi k d.1)

pub length-rem_range : (z : Scores) (hi : ℕ) → length (rem_range z hi) ≤ length z
length-rem_range [] hi = omega arith
length-rem_range ((r, j) ∷ z) hi = ground (arith, length-rem_range z hi)

pub add-IsSetLike : (z : Scores) (s m : ℕ) → IsSetLike z → IsSetLike (add z s m)
add-IsSetLike [] s m d = (refl, tt)
add-IsSetLike ((r, j) ∷ z) s m d = ground (arith, add-IsSetLike z s m d.1, score-add z s m j)

pub rem-IsSetLike : (z : Scores) (m : ℕ) → IsSetLike z → IsSetLike (rem z m)
rem-IsSetLike [] m d = tt
rem-IsSetLike ((r, j) ∷ z) m d = ground (arith, rem-IsSetLike z m d.1, score-rem z m j d.1)

pub rem_range-IsSetLike : (z : Scores) (hi : ℕ) → IsSetLike z → IsSetLike (rem_range z hi)
rem_range-IsSetLike [] hi d = tt
rem_range-IsSetLike ((r, j) ∷ z) hi d =
    ground (arith, rem_range-IsSetLike z hi d.1, score-rem_range z hi j d.1)

-- the list without a member
abbrev pub without : ℕ → List ℕ → List ℕ
without m [] = []
without m (k ∷ ks) = let rest = without m ks in if k == m then rest else k ∷ rest

among-without : (m k : ℕ) (ks : List ℕ) → among k ks ≡ false → among k (without m ks) ≡ false
among-without m k [] h = refl
among-without m k (j ∷ ks) h = ground (arith, among-without m k ks)

IsNodup-without : (m : ℕ) (ks : List ℕ) → IsNodup ks → IsNodup (without m ks)
IsNodup-without m [] d = tt
IsNodup-without m (k ∷ ks) d = ground (arith, among-without m k ks d.0, IsNodup-without m ks d.1)

without_absent : (m : ℕ) (ks : List ℕ) → among m ks ≡ false → without m ks ≡ ks
without_absent m [] h = refl
without_absent m (k ∷ ks) h = ground (arith, without_absent m ks)

length-without : (m : ℕ) (ks : List ℕ) → IsNodup ks → length ks ≤ suc (length (without m ks))
length-without m [] d = omega arith
length-without m (k ∷ ks) d = ground (arith, length-without m ks d.1, without_absent k ks d.0)

All-without :
    (r m : ℕ) (z : Scores) (ks : List ℕ)
    → All (λ k. is_some (score ((r, m) ∷ z) k) ≡ true) ks
    → All (λ k. is_some (score z k) ≡ true) (without m ks)
All-without r m z [] h = tt
All-without r m z (k ∷ ks) h = ground (arith, All-without r m z ks h.1)

pub counts :
    (z : Scores) (ks : List ℕ)
    → IsNodup ks
    → All (λ k. is_some (score z k) ≡ true) ks
    → length ks ≤ length z
counts [] [] d h = omega arith
counts [] (k ∷ ks) d h = absurd (cc (h.0))
counts ((r, m) ∷ z) ks d h = omega (
  arith,
  length-without m ks d,
  counts z (without m ks) (IsNodup-without m ks d) (All-without r m z ks h),
)

abbrev pub list_redis : Redis
list_redis = record {
  Strings = Entries;
  get = get;
  set_px = λ s k v now ttl. (k, v, now + ttl) ∷ s;
  get-set_px = λ s k v now ttl j t le. refl;
  shown = λ n. n;
  shown_exact = λ n lt. refl;
  tonumber = λ n. n;
  tonumber_exact = λ n le. refl;
  ZSet = (z : Scores) × IsSetLike z;
  zempty = ([], tt);
  zscore = λ z m. score z.0 m;
  zcard = λ z. length z.0;
  zadd = λ z s m. (add z.0 s m, add-IsSetLike z.0 s m z.1);
  zrem = λ z m. (rem z.0 m, rem-IsSetLike z.0 m z.1);
  zremrangebyscore = λ z hi. (rem_range z.0 hi, rem_range-IsSetLike z.0 hi z.1);
  zscore-zadd = λ z s m k. score-add z.0 s m k;
  zcard-zadd = λ z s m. length-add z.0 s m;
  zscore-zrem = λ z m k. score-rem z.0 m k z.1;
  zcard-zrem = λ z m. length-rem z.0 m;
  zscore-zremrangebyscore = λ z hi k. score-rem_range z.0 hi k z.1;
  zcard-zremrangebyscore = λ z hi. length-rem_range z.0 hi;
  zcard-zempty = refl;
  zcard_counts = λ z ms d h. counts z.0 ms d h;
}
