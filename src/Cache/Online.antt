-- ===== src/Cache/Online.antt =====
-- The online seats of a licence (`onlineScript`, `RenewOnline`, `DropOnline` and `OnlineDevices` of
-- apps/license-api/internal/cache/cache.go).
use vertify_license_platform.Prelude.{ℕ, ◌+◌, ◌≤◌, ◌≡◌, ◌≢◌, none, some, List, [], ◌∷◌, arith}
use vertify_license_platform.Cache.{
  Redis, full, still_above, renew_online, drop_online, clean_online,
}

-- what the devices of a licence do, each with its time
pub data Seat : Type 0 where
  renews : ℕ → ℕ → ℕ → Seat
  drops : ℕ → Seat
  cleans : ℕ → Seat

module _ (r : Redis) where
  open r use {
    ZSet, zscore, zcard, zscore-zadd, zcard-zadd, zcard-zrem, zscore-zremrangebyscore,
    zcard-zremrangebyscore, zadd, zremrangebyscore,
  }

  -- Renewing a seat. Refused, the device has no seat and all seats are taken by others; otherwise
  -- its seat lasts `ttl` from now. Every other device keeps its seat, unless that has run out. And
  -- where the seats were within the limit they stay so.
  pub renew_online_seats :
      (now ttl dev limit : ℕ) (z : ZSet)
      → let (a, z') = renew_online r now ttl dev limit z in
        (a ≡ full → (zscore z' dev ≡ none) × (limit ≤ zcard z'))
        × (a ≢ full → zscore z' dev ≡ some (now + ttl))
        × ((k : ℕ) → k ≢ dev → zscore z' k ≡ still_above now (zscore z k))
        × (zcard z ≤ limit → zcard z' ≤ limit)
  unfolding renew_online
  renew_online_seats now ttl dev limit z =
      let live = zremrangebyscore z now in
      (
        λ h. ground (arith, zscore-zadd live (now + ttl) dev dev),
        λ h. ground (arith, zscore-zadd live (now + ttl) dev dev),
        λ k ne. ground (arith, zscore-zadd live (now + ttl) dev k, zscore-zremrangebyscore z now k),
        λ h. ground (arith, zcard-zadd live (now + ttl) dev, zcard-zremrangebyscore z now),
      )

  step : ℕ → Seat → ZSet → ZSet
  step limit (renews now ttl dev) z = (renew_online r now ttl dev limit z).1
  step limit (drops dev) z = drop_online r dev z
  step limit (cleans now) z = clean_online r now z

  unfoldable pub run : ℕ → List Seat → ZSet → ZSet
  unfolding step
  run limit [] z = z
  run limit (c ∷ cs) z = run limit cs (step limit c z)

  step_within_limit :
      (limit : ℕ) (c : Seat) (z : ZSet) → zcard z ≤ limit → zcard (step limit c z) ≤ limit
  unfolding step drop_online clean_online
  step_within_limit limit (renews now ttl dev) z h = (renew_online_seats now ttl dev limit z).3 h
  step_within_limit limit (drops dev) z h = omega (arith, zcard-zrem z dev)
  step_within_limit limit (cleans now) z h = omega (arith, zcard-zremrangebyscore z now)

  -- However the devices of a licence renew, drop and look up their seats, and at whatever times,
  -- the seats never exceed the concurrency limit.
  pub online_within_limit :
      (limit : ℕ) (calls : List Seat) (z : ZSet)
      → zcard z ≤ limit
      → zcard (run limit calls z) ≤ limit
  unfolding run
  online_within_limit limit [] z h = h
  online_within_limit limit (c ∷ cs) z h =
      online_within_limit limit cs (step limit c z) (step_within_limit limit c z h)
