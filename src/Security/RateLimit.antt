-- ===== src/Security/RateLimit.antt =====
-- app/security/rate_limit.py: a limiter over a sliding window, for each key. Times are ticks of the
-- monotonic clock, and a `defaultdict` is a function.
use skladbase.Prelude.{
  ℕ, ◌-◌, String, Bool, true, false, List, [], ◌∷◌, ◌++◌, ltb, leb, if◌then◌else◌, length, str_eq,
}

pub record RateLimiter : Type 0 where
  pub max_requests : ℕ
  pub window_seconds : ℕ
  pub hits : String → List ℕ

-- The loop that pops the front of the bucket, which is its oldest hit.
unfoldable pub trim : ℕ → ℕ → List ℕ → List ℕ
trim window now [] = []
trim window now (t ∷ bucket) =
    let rest = trim window now bucket in if ltb window (now - t) then rest else t ∷ bucket

abbrev pub set_bucket : String → List ℕ → RateLimiter → RateLimiter
set_bucket key bucket l = record l { hits = λ k. if str_eq k key then bucket else l.hits k }

unfoldable pub hit : String → ℕ → RateLimiter → Bool × RateLimiter
unfolding trim
hit key now l =
    let bucket = trim l.window_seconds now (l.hits key) in
    if leb l.max_requests (length bucket)
    then (false, set_bucket key bucket l)
    else (true, set_bucket key (bucket ++ (now ∷ [])) l)

unfoldable pub reset : RateLimiter → RateLimiter
reset l = record l { hits = λ k. [] }
