-- ===== src/Base/Lists.antt =====
-- Lists and options, over the native numbers: the comprehensions and the queries of the code.
use Prim.Native.Nat.{ℕ, zero, suc, ◌+◌, ◌≤◌}
use mathlib.Core.Path.{◌≡◌}
use mathlib.Core.Bool.{Bool, true, false, ◌||◌}
use mathlib.Core.Option.{Option, none, some}
use mathlib.Core.List.{List, [], ◌∷◌, ◌++◌}
use native.Mathlib.Omega.{arith}
use devnest.Base.Tests.{if◌then◌else◌}

module _ {ℓ} {A : Type ℓ} where
  abbrev pub length : List A → ℕ
  length [] = 0
  length (x ∷ xs) = suc (length xs)

  abbrev pub take : ℕ → List A → List A
  take zero xs = []
  take (suc n) [] = []
  take (suc n) (x ∷ xs) = x ∷ take n xs

  -- The rows that a query's `where` keeps, in order.
  abbrev pub select : (A → Bool) → List A → List A
  select p [] = []
  select p (x ∷ xs) = if p x then x ∷ select p xs else select p xs

  -- A query's `.first()`.
  abbrev pub first : (A → Bool) → List A → Option A
  first p [] = none
  first p (x ∷ xs) = if p x then some x else first p xs

  abbrev pub any : (A → Bool) → List A → Bool
  any p [] = false
  any p (x ∷ xs) = p x || any p xs

  -- `func.count()` over the rows that a test keeps.
  abbrev pub count : (A → Bool) → List A → ℕ
  count p [] = 0
  count p (x ∷ xs) = if p x then suc (count p xs) else count p xs

  -- `coalesce(sum(f), 0)` over the rows that a test keeps.
  abbrev pub sum_of : (A → Bool) → (A → ℕ) → List A → ℕ
  sum_of p f [] = 0
  sum_of p f (x ∷ xs) = if p x then f x + sum_of p f xs else sum_of p f xs

  -- Every row that the test keeps is changed in place.
  abbrev pub update_where : (A → Bool) → (A → A) → List A → List A
  update_where p f [] = []
  update_where p f (x ∷ xs) = (if p x then f x else x) ∷ update_where p f xs

  -- The row that `.first()` finds is changed in place.
  abbrev pub update_first : (A → Bool) → (A → A) → List A → List A
  update_first p f [] = []
  update_first p f (x ∷ xs) = if p x then f x ∷ xs else x ∷ update_first p f xs

  abbrev pub is_some : Option A → Bool
  is_some none = false
  is_some (some a) = true

module _ {ℓ} {A : Type ℓ} where
  pub length-take : (n : ℕ) (xs : List A) → length (take n xs) ≤ n
  length-take zero xs = omega arith
  length-take (suc n) [] = omega arith
  length-take (suc n) (x ∷ xs) = omega (arith, length-take n xs)

  pub length-append : (xs ys : List A) → length (xs ++ ys) ≡ length xs + length ys
  length-append [] ys = omega arith
  length-append (x ∷ xs) ys = omega (arith, length-append xs ys)

  pub count-snoc :
      (p : A → Bool) (xs : List A) (x : A)
      → count p (xs ++ x ∷ []) ≡ count p xs + (if p x then 1 else 0)
  count-snoc p [] x = ground arith
  count-snoc p (y ∷ xs) x = ground (arith, count-snoc p xs x)

  pub count-snoc_false :
      (p : A → Bool) (xs : List A) (x : A) → p x ≡ false → count p (xs ++ x ∷ []) ≡ count p xs
  count-snoc_false p [] x h = ground (arith, h)
  count-snoc_false p (y ∷ xs) x h = ground (arith, count-snoc_false p xs x)

  pub first-keeps : (p : A → Bool) (xs : List A) {x : A} → first p xs ≡ some x → p x ≡ true
  first-keeps p [] h = ground arith
  first-keeps p (y ∷ xs) {x} h = ground (arith, first-keeps p xs {x = x})

  -- What a count gains and loses when the first row that passes a test is changed.
  pub count-update_first :
      (q p : A → Bool) (f : A → A) (xs : List A) {x : A}
      → first p xs ≡ some x
      → count q (update_first p f xs) + (if q x then 1 else 0)
        ≡ count q xs + (if q (f x) then 1 else 0)
  count-update_first q p f [] h = cc
  count-update_first q p f (y ∷ xs) {x} h = ground (arith, count-update_first q p f xs {x = x})

  -- A change in place gains nothing that passes a test where it makes no row pass it.
  pub count-update_first-le :
      (q p : A → Bool) (f : A → A) (xs : List A)
      → ((x : A) → p x ≡ true → q (f x) ≡ true → q x ≡ true)
      → count q (update_first p f xs) ≤ count q xs
  count-update_first-le q p f [] h = omega arith
  count-update_first-le q p f (x ∷ xs) h = ground (arith, h x, count-update_first-le q p f xs h)

  pub first-none-count : (p : A → Bool) (xs : List A) → first p xs ≡ none → count p xs ≡ 0
  first-none-count p [] h = omega arith
  first-none-count p (x ∷ xs) h = ground (arith, first-none-count p xs)

  pub first-snoc :
      (p : A → Bool) (xs : List A) (x : A)
      → first p xs ≡ none
      → p x ≡ true
      → first p (xs ++ x ∷ []) ≡ some x
  first-snoc p [] x h e = ground (arith, e)
  first-snoc p (y ∷ xs) x h e = ground (arith, first-snoc p xs x)

  pub first-snoc_other :
      (p : A → Bool) (xs : List A) (x : A) → p x ≡ false → first p (xs ++ x ∷ []) ≡ first p xs
  first-snoc_other p [] x e = ground (arith, e)
  first-snoc_other p (y ∷ xs) x e = ground (arith, first-snoc_other p xs x)

  pub first-none_of :
      (p q : A → Bool) (xs : List A)
      → ((y : A) → q y ≡ true → p y ≡ true)
      → first p xs ≡ none
      → first q xs ≡ none
  first-none_of p q [] h e = λ i. none
  first-none_of p q (x ∷ xs) h e = ground (arith, h x, first-none_of p q xs h, e)

  -- The row that is changed in place is the first one still, for a narrower test that it passes.
  pub first-update_first :
      (p q : A → Bool) (f : A → A) (xs : List A) {x : A}
      → ((y : A) → q y ≡ true → p y ≡ true)
      → first p xs ≡ some x
      → q (f x) ≡ true
      → first q (update_first p f xs) ≡ some (f x)
  first-update_first p q f [] h e g = cc
  first-update_first p q f (y ∷ xs) {x} h e g =
      ground (arith, h y, first-update_first p q f xs {x = x} h, e, g)

  pub first-update_first_other :
      (p q : A → Bool) (f : A → A) (xs : List A)
      → ((y : A) → p y ≡ true → q y ≡ false)
      → ((y : A) → p y ≡ true → q (f y) ≡ false)
      → first q (update_first p f xs) ≡ first q xs
  first-update_first_other p q f [] h g = λ i. none
  first-update_first_other p q f (x ∷ xs) h g =
      ground (arith, h x, g x, first-update_first_other p q f xs h g)

  pub first-narrow :
      (p q : A → Bool) (xs : List A) {x : A}
      → ((y : A) → q y ≡ true → p y ≡ true)
      → first p xs ≡ some x
      → q x ≡ true
      → first q xs ≡ some x
  first-narrow p q [] h e g = cc
  first-narrow p q (y ∷ xs) {x} h e g = ground (arith, h y, first-narrow p q xs {x = x} h, e, g)

  pub count_mono :
      (p q : A → Bool) (xs : List A) → ((x : A) → q x ≡ true → p x ≡ true) → count q xs ≤ count p xs
  count_mono p q [] h = omega arith
  count_mono p q (x ∷ xs) h = ground (arith, h x, count_mono p q xs h)

  pub first-of_count : (p : A → Bool) (xs : List A) → count p xs ≡ 0 → first p xs ≡ none
  first-of_count p [] h = λ i. none
  first-of_count p (x ∷ xs) h = ground (arith, first-of_count p xs)
