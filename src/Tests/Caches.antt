-- ===== src/Tests/Caches.antt =====
-- Nonces, sequence numbers, seats and rate windows at concrete calls.
use vertify_license_platform.Prelude.{
  ℕ, ◌≤◌, ◌≡◌, refl, true, false, List, [], ◌∷◌, length, codes, arith, text_eq,
}
use vertify_license_platform.Cache.{consume_nonce, check_seq, rate_limit}
use vertify_license_platform.Cache.Keys.{heartbeat, device, activating, redeem}
use vertify_license_platform.Cache.Trace.{Call, consumes, checks, run}
use vertify_license_platform.Cache.Replay.{nonce_once, sequence_rises}
use vertify_license_platform.Cache.Online
use vertify_license_platform.Cache.Online.{
  Seat, renews, drops, cleans, renew_online_seats, online_within_limit,
}
use vertify_license_platform.Cache.Window
use vertify_license_platform.Domain.{is_ok}
use vertify_license_platform.Store.Devices.{accept_device_seq}
use vertify_license_platform.Heartbeat.{Signed, Windows, check_replay}
use vertify_license_platform.Heartbeat.Sequence.{Write, accepts, bumps, write_all, outage_sequence}
use vertify_license_platform.Tests.Cards.{machine, shop}
use vertify_license_platform.Tests.Redis.{list_redis}

abbrev other_calls : List Call
other_calls =
    (1010, consumes heartbeat (codes "n2") 600)
    ∷ (1020, checks (device 7) 6)
    ∷ (1020, checks (activating (codes "key")) 9)
    ∷ []

nonce_once_example :
    (consume_nonce list_redis heartbeat (codes "n1") 600 1500 (
      run list_redis 6000 other_calls
        (consume_nonce list_redis heartbeat (codes "n1") 600 1000 []).1)).0
    ≡ false
unfolding consume_nonce
nonce_once_example =
    nonce_once list_redis 6000 heartbeat (codes "n1") 600 600 1000 1500 other_calls [] refl
      (omega arith) (omega arith)

sequence_rises_example :
    (check_seq list_redis
      (device 7)
      5
      6000
      1500
      (run list_redis 6000 other_calls (check_seq list_redis (device 7) 5 6000 1000 []).1)).0
    ≡ (false, true)
unfolding check_seq
sequence_rises_example =
    sequence_rises list_redis 6000 (device 7) 5 5 1000 1500 other_calls [] refl (omega arith)
      (omega arith) (omega arith) (omega arith) (omega arith)

abbrev seats : List Seat
seats = renews 1000 300 1 ∷ renews 1001 300 2 ∷ renews 1002 300 3 ∷ drops 1 ∷ renews 1003 300 3 ∷ []

online_within_limit_example : length (Online.run list_redis 2 seats ([], tt)).0 ≤ 2
online_within_limit_example = online_within_limit list_redis 2 seats ([], tt) (omega arith)

abbrev burst : List (ℕ × ℕ)
burst = (1000, 1) ∷ (1001, 2) ∷ (1002, 3) ∷ (61001, 4) ∷ []

burst_accepted :
    Window.run list_redis 60000 2 burst [] (record { members = ([], tt); expires = 0 })
    ≡ (61001, 4) ∷ (1001, 2) ∷ (1000, 1) ∷ []
unfolding Window.run rate_limit
burst_accepted = refl

abbrev windows : Windows
windows = record { skew = 60000; replay = 300000 }

abbrev signed : ℕ → Signed
signed n = record { ts = 1000; nonce = codes "n1"; seq = n }

abbrev later_writes : List Write
later_writes = accepts 30 9 ∷ bumps 1000200 30 9 (codes "1.0.0") ∷ []

outage_sequence_example :
    is_ok
      (check_replay list_redis windows false false redeem machine (signed 5) 1000500 (
        [],
        write_all later_writes
            (check_replay list_redis windows true false heartbeat machine
              (signed 5)
              1000100
              ([], shop)).1.1,
      )).0
    ≡ false
unfolding check_replay consume_nonce accept_device_seq text_eq
outage_sequence_example =
    outage_sequence list_redis windows true false heartbeat redeem machine (signed 5) (signed 5)
      1000100 1000500 [] [] shop later_writes refl (omega arith)
