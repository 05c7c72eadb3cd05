-- ===== src/Examples/Limiter.antt =====
-- A limiter of two requests in ten seconds.
use devnest.Base.{
  ◌+◌, ◌≤◌, ◌≡◌, refl, true, false, List, [], ◌∷◌, count, Text, text, text_eq, arith,
}
use devnest.RateLimit.{SlidingWindowRateLimiter, is_allowed, retry_after_seconds}
use devnest.RateLimit.Laws.{Request, run_limiter, run_histories, run_refines}
use devnest.RateLimit.Window.{
  in_window, let_through, run-bounded, after, retry_after_seconds-allowed,
}

abbrev limiter : SlidingWindowRateLimiter
limiter = record { calls = 2; period = 10; windows = λ _. [] }

abbrev alice : Text
alice = text "alice"

abbrev requests : List Request
requests = (1, alice) ∷ (2, alice) ∷ (3, text "bob") ∷ (4, alice) ∷ (11, alice) ∷ []

answers : run_limiter requests limiter ≡ true ∷ true ∷ true ∷ false ∷ true ∷ []
unfolding is_allowed text_eq
answers = refl

run_refines_example : run_limiter requests limiter ≡ run_histories 2 10 requests (λ _. [])
run_refines_example = run_refines requests limiter (omega arith) refl (omega arith)

run-bounded_example : count (in_window 1 10) (let_through alice requests limiter) ≤ 2
run-bounded_example = run-bounded 1 alice requests limiter (omega arith) refl (omega arith)

retry_after_seconds-allowed_example :
    (is_allowed
      (5 + retry_after_seconds 5 alice (after requests limiter))
      alice
      (after requests limiter)).0
    ≡ true
retry_after_seconds-allowed_example =
    retry_after_seconds-allowed requests limiter 5 alice (omega arith) refl
