-- ===== src/Cache/Window.antt =====
-- The sliding rate window (`rlScript` and `RateLimit` of apps/license-api/internal/cache/cache.go):
-- over a run of calls on one key, in the order of their times, a window's length never sees more than `limit` accepted ones.
use vertify_license_platform.Prelude.{
  ℕ, ◌+◌, ◌≤◌, ◌<◌, ◌≡◌, true, false, some, List, [], ◌∷◌, ltb, ◌==◌, if◌then◌else◌, length, All,
}
use vertify_license_platform.Cache.{Redis, Bucket, among, IsNodup, alive, purge, rate_limit}

-- accepted calls, the latest first: the time, and the random member that marks the call
abbrev pub History : Type 0
History = List (ℕ × ℕ)

abbrev pub marks : History → List ℕ
marks [] = []
marks ((a, m) ∷ h) = m ∷ marks h

-- the marks of the calls that were accepted less than `window` before `t`
abbrev pub recent : ℕ → ℕ → History → List ℕ
recent window t [] = []
recent window t ((a, m) ∷ h) =
    let rest = recent window t h in if ltb t (a + window) then m ∷ rest else rest

-- Calls in the order of their times, the last not after `end`, each with a mark not used before.
abbrev pub IsRun : ℕ → List ℕ → List (ℕ × ℕ) → ℕ → Type 0
IsRun start used [] end = start ≤ end
IsRun start used ((t, m) ∷ calls) end =
    (start ≤ t) × (among m used ≡ false) × IsRun t (m ∷ used) calls end

module _ (r : Redis) (window limit : ℕ) where
  open r use {
    ZSet, zempty, zscore, zcard, zadd, zremrangebyscore, zscore-zadd, zscore-zremrangebyscore,
    zcard_counts,
  }

  -- The accepted calls of a run, after those of `h`. `RateLimit` allows a call if the script's
  -- result is not 0.
  unfoldable pub run : List (ℕ × ℕ) → History → Bucket r → History
  run [] h b = h
  run ((t, m) ∷ calls) h b =
      let (left, b') = rate_limit r t window limit m b in
      run calls (if left == 0 then h else (t, m) ∷ h) b'

  -- At time `now`: a recent call is marked in the set with its time, and the key lives on while
  -- some accepted call is recent.
  abbrev Marked : ℕ → Bucket r → ℕ × ℕ → Type 0
  Marked now b (a, m) =
      (a ≤ now) × (a + window ≤ b.expires) × (now < a + window → zscore b.members m ≡ some a)

  -- the members that the script counts, at time `t`
  abbrev counted : ℕ → Bucket r → ZSet
  counted t b = purge r t window (alive r t b)

  -- What a run keeps between two calls; `used` are the marks so far.
  record Kept (now : ℕ) (used : List ℕ) (h : History) (b : Bucket r) : Type 0 where
    marked : All (Marked now b) h
    distinct : IsNodup (marks h)
    old : All (λ m. among m used ≡ true) (marks h)
    within : length (recent window now h) ≤ limit
