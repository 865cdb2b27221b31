-- ===== src/Cache/Replay.antt =====
-- Replay protection in Redis: a nonce is consumed once, and the sequence numbers of a device rise,
-- whatever other requests do in between (apps/license-api/internal/cache/cache.go).
use vertify_license_platform.Prelude.{
  ℕ, ◌+◌, ◌^◌, ◌≤◌, ◌<◌, ◌≡◌, ap, ◌∙◌, inl, inr, true, false, some, List, [], ◌∷◌, Text, All,
  Bool-cases, Option-cases, arith,
}
use vertify_license_platform.Cache.{Redis, above, consume_nonce, check_seq}
use vertify_license_platform.Cache.Keys.{
  Scope, Owner, Key, key_eq, key_eq_self, key_eq_iff, nonce, seq_dev,
}
use vertify_license_platform.Cache.Trace.{
  Operation, consumes, checks, Call, InOrder, IsExact, step, run,
}

InOrder-lt : {start end t : ℕ} (calls : List Call) → InOrder start calls t → t < end → start < end
InOrder-lt [] o h = omega arith
InOrder-lt ((t₁, op) ∷ calls) o h = omega (arith, InOrder-lt calls o.1 h)

module _ (r : Redis) (seq_ttl : ℕ) where
  open r use {Strings, get, set_px, get-set_px, shown, shown_exact, tonumber, tonumber_exact}

  -- a number that Lua prints exactly is read back from what the script stores
  stored_exact : (n : ℕ) → n < 10 ^ 14 → shown (tonumber n) ≡ n
  stored_exact n lt = ap shown (tonumber_exact n (omega (arith, lt))) ∙ shown_exact n lt

  -- From `start` until `end` the key holds a number of at least `low`.
  abbrev Holds : Key → ℕ → ℕ → ℕ → Strings → Type 0
  Holds k low start end s =
      (t : ℕ) → start ≤ t → t < end → (v : ℕ) × (get s k t ≡ some v) × (low ≤ v)

  -- A write of at least as much, that lives as long, keeps that; so does a write of another key.
  Holds-set_px :
      (k j : Key) (low start end v now ttl : ℕ) (s : Strings)
      → Holds k low start end s
      → start ≤ now
      → (key_eq j k ≡ true → (low ≤ v) × (end ≤ now + ttl))
      → Holds k low now end (set_px s j v now ttl)
  Holds-set_px k j low start end v now ttl s h le good t from until =
      elim (Bool-cases (key_eq j k)) [
        | inl e ↦ (v, ground (arith, get-set_px s j v now ttl k t, good e), (good e).0)
        | inr e ↦
            let (w, g, b) = h t (omega arith) until in
            (w, ground (arith, get-set_px s j v now ttl k t), b)
      ]

  -- While it holds a number, the key is not absent.
  held :
      (k j : Key) (low start end t : ℕ) (s : Strings)
      → Holds k low start end s
      → start ≤ t
      → t < end
      → key_eq j k ≡ true
      → (v : ℕ) × (get s j t ≡ some v) × (low ≤ v)
  held k j low start end t s h le lt same =
      let (v, g, b) = h t le lt in (v, ap (λ i. get s i t) ((key_eq_iff j k).0 same) ∙ g, b)

  step-Holds :
      (k : Key) (low start end t : ℕ) (op : Operation) (s : Strings)
      → Holds k low start end s
      → start ≤ t
      → t < end
      → ((o : Owner) → key_eq (seq_dev o) k ≡ true → (end ≤ start + seq_ttl) × IsExact (t, op))
      → Holds k low t end (step r seq_ttl (t, op) s)
  unfolding step consume_nonce check_seq
  step-Holds k low start end t (consumes scope n ttl) s h le lt safe =
      elim (Option-cases (get s (nonce scope n) t)) [
        | inl e ↦
            rw (e, step, consume_nonce)
              (Holds-set_px k (nonce scope n) low start end 1 t ttl s h le (λ same.
                let (v, g, _) = held k (nonce scope n) low start end t s h le lt same in
                absurd (cc)))
        | inr (v, e) ↦ rw (e, step, consume_nonce) (λ t' from until. h t' (omega arith) until)
      ]
  step-Holds k low start end t (checks owner seq) s h le lt safe =
      elim (Bool-cases (above r (get s (seq_dev owner) t) (tonumber seq))) [
        | inl e ↦
            rw (e, step, check_seq)
              (Holds-set_px k (seq_dev owner) low start end (shown (tonumber seq)) t seq_ttl s h le
                (λ same.
                  let (v, g, b) = held k (seq_dev owner) low start end t s h le lt same in
                  let (term, exact) = safe owner same in
                  (
                    ground (
                      arith,
                      stored_exact seq exact,
                      tonumber_exact seq (omega (arith, exact)),
                      e,
                      g,
                      b,
                    ),
                    omega arith,
                  )))
        | inr e ↦ rw (e, step, check_seq) (λ t' from until. h t' (omega arith) until)
      ]

  run-Holds :
      (k : Key) (low start end : ℕ) (calls : List Call) (t : ℕ) (s : Strings)
      → Holds k low start end s
      → InOrder start calls t
      → t < end
      → ((o : Owner) → key_eq (seq_dev o) k ≡ true → (end ≤ start + seq_ttl) × All IsExact calls)
      → Holds k low t end (run r seq_ttl calls s)
  unfolding run
  run-Holds k low start end [] t s h order lt safe = λ t' from until. h t' (omega arith) until
  run-Holds k low start end ((t₁, op) ∷ calls) t s h order lt safe =
      run-Holds k low t₁ end calls t (step r seq_ttl (t₁, op) s)
        (step-Holds k low start end t₁ op s h order.0 (InOrder-lt calls order.1 lt)
          (λ o same. let (term, exact) = safe o same in (term, exact.0)))
        order.1 lt (λ o same. let (term, exact) = safe o same in (omega (arith, order.0), exact.1))

  -- What a write leaves behind.
  set_px-Holds :
      (k : Key) (v now ttl : ℕ) (s : Strings) → Holds k v now (now + ttl) (set_px s k v now ttl)
  set_px-Holds k v now ttl s t from until =
      (v, ground (arith, get-set_px s k v now ttl k t, key_eq_self k), omega arith)

  consume-Holds :
      (scope : Scope) (n : Text) (ttl now : ℕ) (s : Strings)
      → (consume_nonce r scope n ttl now s).0 ≡ true
      → Holds (nonce scope n) 1 now (now + ttl) (consume_nonce r scope n ttl now s).1
  unfolding consume_nonce
  consume-Holds scope n ttl now s first = elim (Option-cases (get s (nonce scope n) now)) [
    | inl e ↦ rw (e, consume_nonce) (set_px-Holds (nonce scope n) 1 now ttl s)
    | inr (v, e) ↦ absurd (cc (rw (e, consume_nonce) at first))
  ]

  consume_held :
      (scope : Scope) (n : Text) (ttl t : ℕ) (s : Strings) (v : ℕ)
      → get s (nonce scope n) t ≡ some v
      → (consume_nonce r scope n ttl t s).0 ≡ false
  unfolding consume_nonce
  consume_held scope n ttl t s v e = rw (e, consume_nonce)

  check-Holds :
      (owner : Owner) (seq now : ℕ) (s : Strings)
      → (check_seq r owner seq seq_ttl now s).0 ≡ (true, true)
      → Holds
          (seq_dev owner)
          (shown (tonumber seq))
          now
          (now + seq_ttl)
          (check_seq r owner seq seq_ttl now s).1
  unfolding check_seq
  check-Holds owner seq now s first =
      elim (Bool-cases (above r (get s (seq_dev owner) now) (tonumber seq))) [
        | inl e ↦
            rw (e, check_seq) (set_px-Holds (seq_dev owner) (shown (tonumber seq)) now seq_ttl s)
        | inr e ↦ absurd (ground arith)
      ]

  check_held :
      (owner : Owner) (seq' t : ℕ) (s : Strings) (v : ℕ)
      → get s (seq_dev owner) t ≡ some v
      → tonumber seq' ≤ v
      → (check_seq r owner seq' seq_ttl t s).0 ≡ (false, true)
  unfolding check_seq
  check_held owner seq' t s v e le = ground arith

  -- A nonce that was consumed is refused for the whole of its `ttl`, whatever calls of any
  -- requests run in between.
  pub nonce_once :
      (scope : Scope) (n : Text) (ttl ttl' now t : ℕ) (calls : List Call) (s : Strings)
      → (consume_nonce r scope n ttl now s).0 ≡ true
      → InOrder now calls t
      → t < now + ttl
      → (consume_nonce r scope n ttl' t
          (run r seq_ttl calls (consume_nonce r scope n ttl now s).1)).0
        ≡ false
  unfolding key_eq
  nonce_once scope n ttl ttl' now t calls s first order lt =
      let s₁ = (consume_nonce r scope n ttl now s).1 in
      let (v, e, _) =
        run-Holds (nonce scope n) 1 now (now + ttl) calls t s₁
          (consume-Holds scope n ttl now s first) order lt (λ o same. absurd (cc)) t (omega arith)
          lt in
      consume_held scope n ttl' t (run r seq_ttl calls s₁) v e

  -- Once a sequence number is accepted from a device, no equal or smaller one is accepted from it
  -- until its key expires, whatever calls of any requests run in between. Lua must print the
  -- numbers exactly, so they are below 10^14.
  pub sequence_rises :
      (owner : Owner) (seq seq' now t : ℕ) (calls : List Call) (s : Strings)
      → (check_seq r owner seq seq_ttl now s).0 ≡ (true, true)
      → IsExact (now, checks owner seq)
      → All IsExact calls
      → InOrder now calls t
      → t < now + seq_ttl
      → seq' ≤ seq
      → (check_seq r owner seq' seq_ttl t
          (run r seq_ttl calls (check_seq r owner seq seq_ttl now s).1)).0
        ≡ (false, true)
  sequence_rises owner seq seq' now t calls s first exact exacts order lt le =
      let s₁ = (check_seq r owner seq seq_ttl now s).1 in
      let (v, e, b) =
        run-Holds (seq_dev owner) (shown (tonumber seq)) now (now + seq_ttl) calls t s₁
          (check-Holds owner seq now s first) order lt (λ o same. (omega arith, exacts)) t
          (omega arith) lt in
      check_held owner seq' t (run r seq_ttl calls s₁) v e (
        omega
          (arith, b, stored_exact seq exact, tonumber_exact seq' (omega (arith, le, exact)), le))
