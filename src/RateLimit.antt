-- ===== src/RateLimit.antt =====
-- The token bucket of a sender (src/bearpit/herald/ratelimit.py). Tokens and time are counted in
-- whole parts: `one` parts are a token. A bucket holds `tokens - owed`, which a clock that runs
-- backwards may bring below zero.
use bearpit.Base.{
  ℕ, ◌+◌, ◌-◌, ◌*◌, ◌≤◌, String, Bool, true, false, ◌≡◌, refl, ap, Option, none, some, List, [],
  ◌∷◌, arith, leb, leb→le, if◌then◌else◌, or_else, min,
}
use bearpit.Base.Dict.{Dict, lookup, insert}

pub record Rates : Type 0 where
  pub rate : ℕ
  pub capacity : ℕ
  pub one : ℕ

pub record TokenBucket : Type 0 where
  pub tokens : ℕ
  pub owed : ℕ
  pub last : Option ℕ

-- The calls come at no time before the one before them.
abbrev pub Timely : ℕ → List ℕ → Type 0
Timely t [] = Unit
Timely t (u ∷ us) = (t ≤ u) × Timely u us

abbrev pub last_time : ℕ → List ℕ → ℕ
last_time t [] = t
last_time t (u ∷ us) = last_time u us

last_time-late : (t : ℕ) (us : List ℕ) → Timely t us → t ≤ last_time t us
last_time-late t [] h = omega arith
last_time-late t (u ∷ us) h = omega (arith, h.0, last_time-late u us h.1)

module _ (r : Rates) where
  unfoldable pub full : TokenBucket
  full = record { tokens = r.capacity; owed = 0; last = none }

  -- What the time since the last call brings, and what a clock that ran back takes.
  abbrev pub refill : TokenBucket → ℕ → ℕ
  refill b now = (now - or_else b.last now) * r.rate

  abbrev pub drain : TokenBucket → ℕ → ℕ
  drain b now = (or_else b.last now - now) * r.rate

  abbrev take_one : ℕ → ℕ → ℕ → Bool × TokenBucket
  take_one tokens owed now =
      if leb r.one tokens
      then (true, record { tokens = tokens - r.one; owed = owed; last = some now })
      else (false, record { tokens = tokens; owed = owed; last = some now })

  -- `TokenBucket.allow`
  unfoldable pub bucket_allow : TokenBucket → ℕ → Bool × TokenBucket
  bucket_allow b now =
      let up = b.tokens + refill b now in
      let down = b.owed + drain b now in take_one (min r.capacity (up - down)) (down - up) now

  -- `RateLimiter.allow`
  unfoldable pub allow : Dict TokenBucket → String → ℕ → Bool × Dict TokenBucket
  unfolding bucket_allow full
  allow buckets sender now =
      let (passed, b) = bucket_allow (or_else (lookup sender buckets) full) now in
      (passed, insert sender b buckets)

  -- The parts that a run of calls on one bucket has spent.
  unfoldable pub spent : TokenBucket → List ℕ → ℕ
  unfolding bucket_allow
  spent b [] = 0
  spent b (t ∷ ts) =
      let (passed, b') = bucket_allow b t in
      let rest = spent b' ts in if passed then r.one + rest else rest

  abbrev cost : Bool → ℕ
  cost b = if b then r.one else 0

  -- One call takes no more from the bucket than was there.
  take_one-bounded :
      (tokens owed now : ℕ)
      → (cost (take_one tokens owed now).0 + (take_one tokens owed now).1.tokens ≤ tokens)
        × ((take_one tokens owed now).1.last ≡ some now)
  take_one-bounded tokens owed now = by_test (leb r.one tokens) refl
    where
      by_test :
          (b : Bool)
          → leb r.one tokens ≡ b
          → (cost (take_one tokens owed now).0 + (take_one tokens owed now).1.tokens ≤ tokens)
            × ((take_one tokens owed now).1.last ≡ some now)
      by_test true e = rw e (omega (arith, leb→le r.one tokens e), refl)
      by_test false e = rw e (omega arith, refl)

  min-left : (m n : ℕ) → min m n ≤ m
  min-left m n = ground arith

  min-right : (m n : ℕ) → min m n ≤ n
  min-right m n = ground arith

  -- A call takes from what the bucket held and what the time brought, and never more than the
  -- capacity.
  bucket_allow-bounded :
      (b : TokenBucket) (t : ℕ)
      → (cost (bucket_allow b t).0 + (bucket_allow b t).1.tokens ≤ b.tokens + refill b t)
        × (cost (bucket_allow b t).0 + (bucket_allow b t).1.tokens ≤ r.capacity)
        × ((bucket_allow b t).1.last ≡ some t)
  unfolding bucket_allow
  bucket_allow-bounded b t =
      let up = b.tokens + refill b t in
      let down = b.owed + drain b t in
      let l = take_one-bounded (min r.capacity (up - down)) (down - up) t in
      (
        omega (arith, l.0, min-right r.capacity (up - down)),
        omega (arith, l.0, min-left r.capacity (up - down)),
        l.1,
      )

  spent-step :
      (b : TokenBucket) (t : ℕ) (ts : List ℕ)
      → spent b (t ∷ ts) ≡ cost (bucket_allow b t).0 + spent (bucket_allow b t).1 ts
  unfolding spent
  spent-step b t ts = ground arith

  gap-sum : (l t u : ℕ) → l ≤ t → t ≤ u → (t - l) * r.rate + (u - t) * r.rate ≡ (u - l) * r.rate
  gap-sum l t u h k = grind arith

  run-bounded :
      (ts : List ℕ) (b : TokenBucket) (l : ℕ)
      → b.last ≡ some l
      → Timely l ts
      → spent b ts ≤ b.tokens + (last_time l ts - l) * r.rate
  unfolding spent
  run-bounded [] b l e h = omega arith
  run-bounded (t ∷ ts) b l e h =
      let one = bucket_allow-bounded b t in
      let rest = run-bounded ts (bucket_allow b t).1 t one.2 h.1 in
      let gain : refill b t ≡ (t - l) * r.rate = ap (λ o. (t - or_else o t) * r.rate) e in
      omega (
        arith,
        spent-step b t ts,
        one.0,
        rest,
        gain,
        gap-sum l t (last_time t ts) h.0 (last_time-late t ts h.1),
      )

  -- Whatever came before, over a run of calls whose clock does not run back a sender spends at most
  -- the capacity and what the rate gives for the time from the first call to the last.
  pub spent-bounded :
      (b : TokenBucket) (t : ℕ) (ts : List ℕ)
      → Timely t ts
      → spent b (t ∷ ts) ≤ r.capacity + (last_time t ts - t) * r.rate
  spent-bounded b t ts h =
      let one = bucket_allow-bounded b t in
      omega (arith, spent-step b t ts, one.1, run-bounded ts (bucket_allow b t).1 t one.2 h)
