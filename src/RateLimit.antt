-- ===== src/RateLimit.antt =====
-- backend/app/libs/security/rate_limit.py: the in-memory limiter. The dictionary of windows is a
-- function of the key, with the empty window for a key that has not been seen; a method takes the
-- reading of `time.monotonic` and returns the new windows beside its result. The constructor
-- refuses `calls` and `period` that are not positive.
pub mod History
pub mod Laws
pub mod Window
use devnest.Base.{
  ℕ, ◌+◌, ◌-◌, Bool, true, false, Option, none, some, List, [], ◌∷◌, ◌++◌, if◌then◌else◌, leb, ltb,
  length, Text, text_eq, ◌||◌, ◌==◌,
}

pub record SlidingWindowRateLimiter : Type 0 where
  pub calls : ℕ
  pub period : ℕ
  pub windows : Text → List ℕ

-- `none` is the `ValueError`.
unfoldable pub new_limiter : ℕ → ℕ → Option SlidingWindowRateLimiter
new_limiter calls period =
    if leb calls 0 || leb period 0
    then none
    else some (record { calls = calls; period = period; windows = λ _. [] })

-- `while window and window[0] <= cutoff: window.pop(0)`
unfoldable pub evict : ℕ → ℕ → List ℕ → List ℕ
evict period now [] = []
evict period now (t ∷ window) =
    let rest = evict period now window in if leb (t + period) now then rest else t ∷ window

-- The window of one key after a request, and whether the request is let through.
unfoldable pub admit_request : ℕ → ℕ → ℕ → List ℕ → Bool × List ℕ
unfolding evict
admit_request calls period now window =
    let kept = evict period now window in
    if leb calls (length kept) then (false, kept) else (true, kept ++ now ∷ [])

abbrev pub set_window : (Text → List ℕ) → Text → List ℕ → Text → List ℕ
set_window windows key w q = if text_eq q key then w else windows q

unfoldable pub is_allowed : ℕ → Text → SlidingWindowRateLimiter → Bool × SlidingWindowRateLimiter
unfolding admit_request
is_allowed now key l =
    let (ok, w) = admit_request l.calls l.period now (l.windows key) in
    (ok, record l { windows = set_window l.windows key w })

abbrev pub seconds_until : ℕ → ℕ → List ℕ → ℕ
seconds_until period now [] = 0
seconds_until period now (oldest ∷ window) = oldest + period - now

unfoldable pub retry_after_seconds : ℕ → Text → SlidingWindowRateLimiter → ℕ
retry_after_seconds now key l = seconds_until l.period now (l.windows key)
