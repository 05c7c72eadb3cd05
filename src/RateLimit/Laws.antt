-- ===== src/RateLimit/Laws.antt =====
-- The limiter over any sequence of requests (backend/app/libs/security/rate_limit.py).
use devnest.Base.{
  ℕ, ◌≤◌, ◌<◌, ◌≡◌, refl, ap, ◌∙◌, Bool, List, [], ◌∷◌, Text, text_eq, Bool-cases, inl, inr, arith,
}
use devnest.RateLimit.{SlidingWindowRateLimiter, is_allowed, set_window}
use devnest.RateLimit.History.{admit_history, Follows, admit-Follows}

-- A request: when it came, and its key.
abbrev pub Request : Type 0
Request = ℕ × Text

abbrev pub run_limiter : List Request → SlidingWindowRateLimiter → List Bool
run_limiter [] l = []
run_limiter ((now, key) ∷ rs) l = (is_allowed now key l).0 ∷ run_limiter rs (is_allowed now key l).1

-- The specification, over the requests of each key that were let through.
abbrev pub run_histories : ℕ → ℕ → List Request → (Text → List ℕ) → List Bool
run_histories calls period [] h = []
run_histories calls period ((now, key) ∷ rs) h =
    (admit_history calls period now (h key)).0
    ∷ run_histories calls period rs (set_window h key (admit_history calls period now (h key)).1)

-- The clock does not go back.
abbrev pub InOrder : ℕ → List Request → Type 0
InOrder last [] = Unit
InOrder last ((now, key) ∷ rs) = (last ≤ now) × InOrder now rs

Follows-later :
    (period last now : ℕ) {w h : List ℕ}
    → last ≤ now
    → Follows period last w h
    → Follows period now w h
Follows-later period last now le f = record {
  seen = f.seen;
  past = omega (arith, f.past, le);
  kept = f.kept;
  ordered = f.ordered;
  bounded = f.bounded;
}

pub set-Follows :
    (period last now : ℕ) (windows histories : Text → List ℕ) (key : Text) (w h : List ℕ)
    → last ≤ now
    → ((q : Text) → Follows period last (windows q) (histories q))
    → Follows period now w h
    → (q : Text) → Follows period now (set_window windows key w q) (set_window histories key h q)
set-Follows period last now windows histories key w h le f new q =
    elim (Bool-cases (text_eq q key)) [
      | inl e ↦ rw e new
      | inr e ↦ rw e (Follows-later period last now le (f q))
    ]

run-Follows :
    (last : ℕ) (rs : List Request) (l : SlidingWindowRateLimiter) (h : Text → List ℕ)
    → 0 < l.period
    → InOrder last rs
    → ((q : Text) → Follows l.period last (l.windows q) (h q))
    → run_limiter rs l ≡ run_histories l.calls l.period rs h
unfolding is_allowed
run-Follows last [] l h pos o f = refl
run-Follows last ((now, key) ∷ rs) l h pos o f =
    let step = admit-Follows l.calls l.period last now (l.windows key) (h key) pos o.0 (f key) in
    let next = (is_allowed now key l).1 in
    let histories = set_window h key (admit_history l.calls l.period now (h key)).1 in
    ap (λ b. b ∷ run_limiter rs next) step.0
    ∙ ap (λ bs. (admit_history l.calls l.period now (h key)).0 ∷ bs)
        (run-Follows now rs next histories pos o.1
          (set-Follows l.period last now l.windows h key _ _ o.0 f step.1))

pub start-Follows :
    (l : SlidingWindowRateLimiter)
    → l.windows ≡ (λ _. [])
    → (q : Text) → Follows l.period 0 (l.windows q) []
start-Follows l empty q = record {
  seen = 0;
  past = omega arith;
  kept = ap (λ (w : Text → List ℕ). w q) empty;
  ordered = tt;
  bounded = tt;
}

-- A limiter that starts empty answers every sequence of requests as the specification does, in
-- which nothing is ever dropped: a request is let through exactly where fewer than `calls` of its
-- key were let through in the last `period` seconds.
pub run_refines :
    (rs : List Request) (l : SlidingWindowRateLimiter)
    → 0 < l.period
    → l.windows ≡ (λ _. [])
    → InOrder 0 rs
    → run_limiter rs l ≡ run_histories l.calls l.period rs (λ _. [])
run_refines rs l pos empty o = run-Follows 0 rs l (λ _. []) pos o (start-Follows l empty)
