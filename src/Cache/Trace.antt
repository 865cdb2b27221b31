-- ===== src/Cache/Trace.antt =====
-- Sequences of calls of `ConsumeNonce` and `CheckSeq` of
-- apps/license-api/internal/cache/cache.go, from any number of requests, in the order in which
-- Redis runs them.
use vertify_license_platform.Prelude.{ℕ, ◌≤◌, ◌<◌, ◌^◌, List, [], ◌∷◌, Text}
use vertify_license_platform.Cache.{Redis, consume_nonce, check_seq}
use vertify_license_platform.Cache.Keys.{Scope, Owner}

-- a nonce is consumed with the `ttl` that the caller gives
pub data Operation : Type 0 where
  consumes : Scope → Text → ℕ → Operation
  checks : Owner → ℕ → Operation

-- an operation and the time at which it runs
abbrev pub Call : Type 0
Call = ℕ × Operation

-- The calls run one after another, from time `start` on and not after `end`.
abbrev pub InOrder : ℕ → List Call → ℕ → Type 0
InOrder start [] end = start ≤ end
InOrder start ((t, op) ∷ calls) end = (start ≤ t) × InOrder t calls end

-- every sequence number stays where Lua prints a number exactly
abbrev pub IsExact : Call → Type 0
IsExact (t, consumes scope n ttl) = Unit
IsExact (t, checks owner seq) = seq < 10 ^ 14

-- every caller of `CheckSeq` gives the same `ttl`, ten replay windows
module _ (r : Redis) (seq_ttl : ℕ) where
  open r use {Strings}

  unfoldable pub step : Call → Strings → Strings
  step (t, consumes scope n ttl) s = (consume_nonce r scope n ttl t s).1
  step (t, checks owner seq) s = (check_seq r owner seq seq_ttl t s).1

  unfoldable pub run : List Call → Strings → Strings
  run [] s = s
  run (c ∷ calls) s = run calls (step c s)
