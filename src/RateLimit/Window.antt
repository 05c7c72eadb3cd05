-- ===== src/RateLimit/Window.antt =====
-- How many requests of a key the limiter lets through, and when it does so again
-- (backend/app/libs/security/rate_limit.py).
use devnest.Base.{
  ℕ, ◌+◌, ◌-◌, ◌≤◌, ◌<◌, ◌≡◌, refl, ap, Bool, true, false, ◌&&◌, List, [], ◌∷◌, if◌then◌else◌, leb,
  ltb, length, length-append, count, count-snoc, ltb→lt, Text, text_eq, text_eq→eq, text_eq_refl,
  Bool-cases, inl, inr, arith,
}
use devnest.RateLimit.{
  SlidingWindowRateLimiter, evict, admit_request, is_allowed, set_window, retry_after_seconds,
  seconds_until,
}
use devnest.RateLimit.History.{admit_history, Follows, admit-Follows, young}
use devnest.RateLimit.Laws.{Request, InOrder, set-Follows, start-Follows}

-- The times at which the requests of one key were let through.
abbrev pub let_through : Text → List Request → SlidingWindowRateLimiter → List ℕ
let_through key [] l = []
let_through key ((now, k) ∷ rs) l =
    let rest = let_through key rs (is_allowed now k l).1 in
    if (is_allowed now k l).0 && text_eq key k then now ∷ rest else rest

-- The times in the window of the period that starts at `x`.
abbrev pub in_window : ℕ → ℕ → ℕ → Bool
in_window x period t = leb x t && ltb t (x + period)

-- What lies in a window that the present is in is young.
window-young :
    (x period now : ℕ) (h : List ℕ)
    → now < x + period
    → count (in_window x period) h ≤ count (young period now) h
window-young x period now [] le = omega arith
window-young x period now (t ∷ h) le = ground (arith, window-young x period now h le)

window_room :
    (b : Bool) (n k y calls : ℕ)
    → n ≤ calls
    → (b ≡ true → n ≤ y)
    → y < calls
    → k ≡ n + (if b then 1 else 0)
    → k ≤ calls
window_room true n k y calls le h lt e = omega (arith, h refl)
window_room false n k y calls le h lt e = omega arith

in_window-lt : (x period now : ℕ) → in_window x period now ≡ true → now < x + period
in_window-lt x period now h = ground (arith, h)

-- What the specification records for a key never overfills a window of the period.
admit_history-window :
    (x calls period now : ℕ) (h : List ℕ)
    → count (in_window x period) h ≤ calls
    → count (in_window x period) (admit_history calls period now h).1 ≤ calls
admit_history-window x calls period now h le =
    elim (Bool-cases (ltb (count (young period now) h) calls)) [
      | inr e ↦ rw e le
      | inl e ↦ rw e (
          window_room (in_window x period now) _ _ _ calls le
            (λ w. window-young x period now h (in_window-lt x period now w)) (ltb→lt _ _ e)
            (count-snoc (in_window x period) h now))
    ]

-- What the limiter lets through is what the specification lets through.
admit_history-count :
    (w : ℕ → Bool) (calls period now : ℕ) (h : List ℕ)
    → count w (admit_history calls period now h).1
      ≡ count w h + (if (admit_history calls period now h).0 && w now then 1 else 0)
admit_history-count w calls period now h =
    elim (Bool-cases (ltb (count (young period now) h) calls)) [
      | inr e ↦ rw e (omega arith)
      | inl e ↦ rw e (count-snoc w h now)
    ]

count-cond :
    (w : ℕ → Bool) (b : Bool) (t : ℕ) (ts : List ℕ)
    → count w (if b then t ∷ ts else ts) ≡ (if b && w t then 1 else 0) + count w ts
count-cond w b t ts = ground arith

module _ (x : ℕ) (key : Text) where
  -- One request, as the histories of the specification see it.
  histories-count :
      (w : ℕ → Bool) (calls period now : ℕ) (k : Text) (h : Text → List ℕ)
      → count w (set_window h k (admit_history calls period now (h k)).1 key)
        ≡ count w (h key)
          + (if ((admit_history calls period now (h k)).0 && text_eq key k) && w now then 1 else 0)
  histories-count w calls period now k h = elim (Bool-cases (text_eq key k)) [
    | inl e ↦
        rw (text_eq→eq key k e)
          (rw text_eq_refl (rw (admit_history-count w calls period now (h k)) (ground arith)))
    | inr e ↦ rw e (ground arith)
  ]

  histories-window :
      (calls period now : ℕ) (k : Text) (h : Text → List ℕ)
      → count (in_window x period) (h key) ≤ calls
      → count (in_window x period) (set_window h k (admit_history calls period now (h k)).1 key)
        ≤ calls
  histories-window calls period now k h le = elim (Bool-cases (text_eq key k)) [
    | inl e ↦ rw e (admit_history-window x calls period now (h k) (rw (← text_eq→eq key k e) le))
    | inr e ↦ rw e le
  ]

  -- In any sequence of requests the times of a key that are let through, together with those of
  -- before, never exceed `calls` in a window of the period.
  let_through-window :
      (last : ℕ) (rs : List Request) (l : SlidingWindowRateLimiter) (h : Text → List ℕ)
      → 0 < l.period
      → InOrder last rs
      → ((q : Text) → Follows l.period last (l.windows q) (h q))
      → count (in_window x l.period) (h key) ≤ l.calls
      → count (in_window x l.period) (h key) + count (in_window x l.period) (let_through key rs l)
        ≤ l.calls
  unfolding is_allowed
  let_through-window last [] l h pos o f le = omega arith
  let_through-window last ((now, k) ∷ rs) l h pos o f le =
      let step = admit-Follows l.calls l.period last now (l.windows k) (h k) pos o.0 (f k) in
      let next = (is_allowed now k l).1 in
      let histories = set_window h k (admit_history l.calls l.period now (h k)).1 in
      let ih =
        let_through-window now rs next histories pos o.1
          (set-Follows l.period last now l.windows h k _ _ o.0 f step.1)
          (histories-window l.calls l.period now k h le) in
      rw (step.0, is_allowed)
        (omega (
          arith,
          ih,
          histories-count (in_window x l.period) l.calls l.period now k h,
          count-cond (in_window x l.period)
              ((admit_history l.calls l.period now (h k)).0 && text_eq key k) now
              (let_through key rs next),
        ))

-- A limiter that starts empty lets through at most `calls` requests of a key in any window as
-- long as its period, wherever the window starts, whatever the requests are and in whatever
-- order the keys come.
pub run-bounded :
    (x : ℕ) (key : Text) (rs : List Request) (l : SlidingWindowRateLimiter)
    → 0 < l.period
    → l.windows ≡ (λ _. [])
    → InOrder 0 rs
    → count (in_window x l.period) (let_through key rs l) ≤ l.calls
run-bounded x key rs l pos empty o =
    omega
      (arith, let_through-window x key 0 rs l (λ _. []) pos o (start-Follows l empty) (omega arith))

-- The limiter after a sequence of requests.
abbrev pub after : List Request → SlidingWindowRateLimiter → SlidingWindowRateLimiter
after [] l = l
after ((now, key) ∷ rs) l = after rs (is_allowed now key l).1

length-evict : (period now : ℕ) (ts : List ℕ) → length (evict period now ts) ≤ length ts
unfolding evict
length-evict period now [] = omega arith
length-evict period now (t ∷ ts) = ground (arith, length-evict period now ts)

admit_request-length :
    (calls period now : ℕ) (ts : List ℕ)
    → length ts ≤ calls
    → length (admit_request calls period now ts).1 ≤ calls
unfolding admit_request
admit_request-length calls period now ts le =
    elim (Bool-cases (leb calls (length (evict period now ts)))) [
      | inl e ↦ rw e (omega (arith, le, length-evict period now ts))
      | inr e ↦ rw e (ground (arith, length-append (evict period now ts) (now ∷ []), e))
    ]

-- The oldest time has left the window when the announced seconds are over.
admit_request-waited :
    (calls period now : ℕ) (ts : List ℕ)
    → 0 < calls
    → length ts ≤ calls
    → (admit_request calls period (now + seconds_until period now ts) ts).0 ≡ true
unfolding admit_request evict
admit_request-waited calls period now [] pos le = ground arith
admit_request-waited calls period now (t ∷ ts) pos le =
    ground (arith, length-evict period (now + (t + period - now)) ts)

after-length :
    (rs : List Request) (l : SlidingWindowRateLimiter)
    → ((q : Text) → length (l.windows q) ≤ l.calls)
    → (q : Text) → length ((after rs l).windows q) ≤ (after rs l).calls
unfolding is_allowed
after-length [] l le q = le q
after-length ((now, key) ∷ rs) l le q = after-length rs (is_allowed now key l).1 kept q
  where
    kept : (q : Text) → length ((is_allowed now key l).1.windows q) ≤ l.calls
    kept q = elim (Bool-cases (text_eq q key)) [
      | inl e ↦ rw e (admit_request-length l.calls l.period now (l.windows key) (le key))
      | inr e ↦ rw e (le q)
    ]

after-calls : (rs : List Request) (l : SlidingWindowRateLimiter) → (after rs l).calls ≡ l.calls
unfolding is_allowed
after-calls [] l = refl
after-calls ((now, key) ∷ rs) l = after-calls rs (is_allowed now key l).1

-- Whatever requests a limiter that starts empty has seen, a request that waits for the seconds
-- that `retry_after_seconds` gives is let through, if no other request of the key comes between.
pub retry_after_seconds-allowed :
    (rs : List Request) (l : SlidingWindowRateLimiter) (now : ℕ) (key : Text)
    → 0 < l.calls
    → l.windows ≡ (λ _. [])
    → (is_allowed (now + retry_after_seconds now key (after rs l)) key (after rs l)).0 ≡ true
unfolding is_allowed retry_after_seconds
retry_after_seconds-allowed rs l now key pos empty =
    let m = after rs l in
    admit_request-waited m.calls m.period now (m.windows key) (omega (arith, pos, after-calls rs l))
      (after-length rs l (λ q. omega (arith, ap length (ap (λ (w : Text → List ℕ). w q) empty)))
        key)
