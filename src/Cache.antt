-- ===== src/Cache.antt =====
-- apps/license-api/internal/cache/cache.go: nonces, sequence numbers, the sliding rate window and
-- the online seats. Redis itself is a parameter, `Redis` below, with the laws that its commands
-- document; the Lua scripts and Go methods are translated. Times are in milliseconds. A call of
-- Redis that fails is the caller's matter, and has no entry here.
pub mod Keys
pub mod Trace
pub mod Replay
pub mod Online
pub mod Window
use vertify_license_platform.Prelude.{
  ℕ, suc, ◌+◌, ◌-◌, ◌*◌, ◌^◌, ◌≤◌, ◌<◌, ◌≡◌, Bool, true, false, ◌&&◌, Option, none, some, List, [],
  ◌∷◌, ltb, leb, ◌==◌, is_some, if◌then◌else◌, length, All, Text,
}
use Keys.{Key, key_eq, Scope, Owner, nonce, seq_dev}

abbrev pub live_until : ℕ → ℕ → ℕ → Option ℕ
live_until v expiry t = if ltb t expiry then some v else none

abbrev pub still_above : ℕ → Option ℕ → Option ℕ
still_above hi none = none
still_above hi (some score) = if leb score hi then none else some score

-- Is a member of a list of members.
abbrev pub among : ℕ → List ℕ → Bool
among m [] = false
among m (k ∷ ks) = if k == m then true else among m ks

abbrev pub IsNodup : List ℕ → Type 0
IsNodup [] = Unit
IsNodup (m ∷ ms) = (among m ms ≡ false) × IsNodup ms

-- What the scripts rely on of Redis. String keys hold a number until they expire: `GET`, and `SET`
-- with `PX`. A sorted set gives each member a score: `ZSCORE`, `ZCARD`, `ZADD`, `ZREM`, and
-- `ZREMRANGEBYSCORE key 0 hi`. `shown n` is what `tonumber` reads back from Lua's `tostring(n)`,
-- which prints 14 digits, and `tonumber n` what it reads from the numeral of `n`, a double.
pub record Redis : Type 1 where
  pub Strings : Type 0
  pub get : Strings → Key → ℕ → Option ℕ
  pub set_px : Strings → Key → ℕ → ℕ → ℕ → Strings
  pub get-set_px :
      (s : Strings) (k : Key) (v now ttl : ℕ) (j : Key) (t : ℕ)
      → now ≤ t
      → get (set_px s k v now ttl) j t
        ≡ (if key_eq k j then live_until v (now + ttl) t else get s j t)
  pub shown : ℕ → ℕ
  pub shown_exact : (n : ℕ) → n < 10 ^ 14 → shown n ≡ n
  pub tonumber : ℕ → ℕ
  pub tonumber_exact : (n : ℕ) → n ≤ 2 ^ 53 → tonumber n ≡ n
  pub ZSet : Type 0
  pub zempty : ZSet
  pub zscore : ZSet → ℕ → Option ℕ
  pub zcard : ZSet → ℕ
  pub zadd : ZSet → ℕ → ℕ → ZSet
  pub zrem : ZSet → ℕ → ZSet
  pub zremrangebyscore : ZSet → ℕ → ZSet
  pub zscore-zadd :
      (z : ZSet) (score m k : ℕ)
      → zscore (zadd z score m) k ≡ (if m == k then some score else zscore z k)
  pub zcard-zadd :
      (z : ZSet) (score m : ℕ)
      → zcard (zadd z score m) ≡ (if is_some (zscore z m) then zcard z else suc (zcard z))
  pub zscore-zrem :
      (z : ZSet) (m k : ℕ) → zscore (zrem z m) k ≡ (if m == k then none else zscore z k)
  pub zcard-zrem : (z : ZSet) (m : ℕ) → zcard (zrem z m) ≤ zcard z
  pub zscore-zremrangebyscore :
      (z : ZSet) (hi k : ℕ) → zscore (zremrangebyscore z hi) k ≡ still_above hi (zscore z k)
  pub zcard-zremrangebyscore : (z : ZSet) (hi : ℕ) → zcard (zremrangebyscore z hi) ≤ zcard z
  pub zcard-zempty : zcard zempty ≡ 0
  pub zcard_counts :
      (z : ZSet) (ms : List ℕ)
      → IsNodup ms
      → All (λ m. is_some (zscore z m) ≡ true) ms
      → length ms ≤ zcard z

-- the results 0, 1 and 2 of `onlineScript`
pub data Admission : Type 0 where
  full admitted renewed : Admission

module _ (r : Redis) where
  open r use {
    Strings, get, set_px, shown, tonumber, ZSet, zempty, zscore, zcard, zadd, zrem,
    zremrangebyscore,
  }

  -- `ConsumeNonce`: `SET key 1 NX PX ttl`.
  unfoldable pub consume_nonce : Scope → Text → ℕ → ℕ → Strings → Bool × Strings
  consume_nonce scope n ttl now s =
      if is_some (get s (nonce scope n) now)
      then (false, s)
      else (true, set_px s (nonce scope n) 1 now ttl)

  -- `seqScript`: a key that is not there reads as -1, below every sequence number.
  abbrev pub above : Option ℕ → ℕ → Bool
  above none seq = true
  above (some cur) seq = ltb cur seq

  -- `CheckSeq`, whose second result is always true when Redis answers.
  unfoldable pub check_seq : Owner → ℕ → ℕ → ℕ → Strings → (Bool × Bool) × Strings
  check_seq owner seq ttl now s =
      if above (get s (seq_dev owner) now) (tonumber seq)
      then ((true, true), set_px s (seq_dev owner) (shown (tonumber seq)) now ttl)
      else ((false, true), s)

  -- A rate window's key: its sorted set, and when `PEXPIRE` drops it.
  pub record Bucket : Type 0 where
    pub members : ZSet
    pub expires : ℕ

  -- `ZREMRANGEBYSCORE key 0 (now - window)`; the range is empty below 0.
  purge : ℕ → ℕ → ZSet → ZSet
  purge now window z = if leb window now then zremrangebyscore z (now - window) else z

  abbrev alive : ℕ → Bucket → ZSet
  alive now b = if leb b.expires now then zempty else b.members

  -- `rlScript`, called by `RateLimit`: the result is 0 when refused, and else `limit - n`.
  unfoldable pub rate_limit : ℕ → ℕ → ℕ → ℕ → Bucket → ℕ × Bucket
  unfolding purge
  rate_limit now window limit member b =
      let z = purge now window (alive now b) in
      if leb limit (zcard z)
      then (0, record b { members = z })
      else (limit - zcard z, record { members = zadd z now member; expires = now + window })

  -- `onlineScript`, called by `RenewOnline`, on the seats of one licence.
  unfoldable pub renew_online : ℕ → ℕ → ℕ → ℕ → ZSet → Admission × ZSet
  renew_online now ttl dev limit z =
      let live = zremrangebyscore z now in
      if is_some (zscore live dev)
      then (renewed, zadd live (now + ttl) dev)
      else if leb limit (zcard live)
      then (full, live)
      else (admitted, zadd live (now + ttl) dev)

  -- `DropOnline`
  unfoldable pub drop_online : ℕ → ZSet → ZSet
  drop_online dev z = zrem z dev

  -- the clean-up of `OnlineDevices`
  unfoldable pub clean_online : ℕ → ZSet → ZSet
  clean_online now z = zremrangebyscore z now
