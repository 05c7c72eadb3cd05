-- ===== src/Placement/Order.antt =====
-- Weak orders, and what stands first in a list that is sorted by one.
use devnest.Base.{
  ℕ, ◌≡◌, ◌⊎◌, refl, ap, sym, ◌∙◌, Bool, true, false, List, [], ◌∷◌, ltb, select, Text, Bool-cases,
  inl, inr, arith,
}
use devnest.Placement.Select.{text_lt, then_by, insert_by, sort_by}

pub record WeakOrder {ℓ} {A : Type ℓ} (lt : A → A → Bool) : Type ℓ where
  pub asym : (a b : A) → lt a b ≡ true → lt b a ≡ false
  -- what is below neither side of a gap is not below across it
  pub gap : (a b c : A) → lt a b ≡ false → lt b c ≡ false → lt a c ≡ false

pub by_number {ℓ} : {A : Type ℓ} (f : A → ℕ) → WeakOrder (λ (a b : A). ltb (f a) (f b))
by_number f = record { asym = λ a b h. ground (arith, h); gap = λ a b c h k. ground (arith, h, k) }

pub by_number_down {ℓ} : {A : Type ℓ} (f : A → ℕ) → WeakOrder (λ (a b : A). ltb (f b) (f a))
by_number_down f = record {
  asym = λ a b h. ground (arith, h);
  gap = λ a b c h k. ground (arith, h, k);
}

text_lt-asym : (s t : Text) → text_lt s t ≡ true → text_lt t s ≡ false
unfolding text_lt
text_lt-asym [] [] h = refl
text_lt-asym [] (d ∷ t) h = refl
text_lt-asym (c ∷ s) [] h = cc
text_lt-asym (c ∷ s) (d ∷ t) h = ground (arith, text_lt-asym s t, h)

text_lt-gap : (s t u : Text) → text_lt s t ≡ false → text_lt t u ≡ false → text_lt s u ≡ false
unfolding text_lt
text_lt-gap [] [] u h k = k
text_lt-gap [] (d ∷ t) u h k = cc
text_lt-gap (c ∷ s) t [] h k = refl
text_lt-gap (c ∷ s) [] (e ∷ u) h k = cc
text_lt-gap (c ∷ s) (d ∷ t) (e ∷ u) h k = ground (arith, text_lt-gap s t u, h, k)

pub by_text {ℓ} : {A : Type ℓ} (f : A → Text) → WeakOrder (λ (a b : A). text_lt (f a) (f b))
by_text f = record {
  asym = λ a b. text_lt-asym (f a) (f b);
  gap = λ a b c. text_lt-gap (f a) (f b) (f c);
}

module _ {ℓ} {A : Type ℓ} where
  pub then_by-WeakOrder :
      (lt lt' : A → A → Bool) → WeakOrder lt → WeakOrder lt' → WeakOrder (then_by lt lt')
  then_by-WeakOrder lt lt' o o' = record {
    asym = λ a b h. ground (arith, o.asym a b, o'.asym a b, h);
    gap = λ a b c h k. ground (arith, o.gap a b c, o.gap b c a, o.gap c a b, o'.gap a b c, h, k);
  }

module _ {A : Type 0} where
  abbrev pub In : A → List A → Type 0
  In a [] = ⊥
  In a (b ∷ bs) = (a ≡ b) ⊎ In a bs

module _ {A : Type 0} (lt : A → A → Bool) (o : WeakOrder lt) where
  irrefl : (a : A) → lt a a ≡ false
  irrefl a = elim (Bool-cases (lt a a)) [ inl h ↦ o.asym a a h | inr h ↦ h ]

  -- The head of a list is an element that no element comes before.
  abbrev pub HeadIsLeast : List A → List A → Type 0
  HeadIsLeast xs [] = (b : A) → In b xs → ⊥
  HeadIsLeast xs (y ∷ ys) = In y xs × ((b : A) → In b xs → lt b y ≡ false)

  insert-HeadIsLeast :
      (a : A) (xs l : List A) → HeadIsLeast xs l → HeadIsLeast (a ∷ xs) (insert_by lt a l)
  unfolding insert_by
  insert-HeadIsLeast a xs [] h = (inl refl, below)
    where
      below : (b : A) → In b (a ∷ xs) → lt b a ≡ false
      below b (inl e) = rw e (irrefl a)
      below b (inr i) = absurd (h b i)
  insert-HeadIsLeast a xs (y ∷ ys) h = elim (Bool-cases (lt y a)) [
    | inl e ↦ rw e (inr h.0, λ b i. under e b i)
    | inr e ↦ rw e (inl refl, λ b i. above e b i)
  ]
    where
      under : lt y a ≡ true → (b : A) → In b (a ∷ xs) → lt b y ≡ false
      under e b (inl p) = rw p (o.asym y a e)
      under e b (inr i) = h.1 b i

      above : lt y a ≡ false → (b : A) → In b (a ∷ xs) → lt b a ≡ false
      above e b (inl p) = rw p (irrefl a)
      above e b (inr i) = o.gap b y a (h.1 b i) e

  pub sort-HeadIsLeast : (xs : List A) → HeadIsLeast xs (sort_by lt xs)
  unfolding sort_by
  sort-HeadIsLeast [] = λ b i. i
  sort-HeadIsLeast (a ∷ xs) = insert-HeadIsLeast a xs (sort_by lt xs) (sort-HeadIsLeast xs)

module _ {A : Type 0} (p : A → Bool) where
  pub In-select : (a : A) (xs : List A) → In a (select p xs) → In a xs × (p a ≡ true)
  In-select a [] i = absurd i
  In-select a (x ∷ xs) i = elim (Bool-cases (p x)) [
    | inl e ↦ kept e (rw e at i) (In-select a xs)
    | inr e ↦ dropped (In-select a xs (rw e at i))
  ]
    where
      kept :
          p x ≡ true
          → In a (x ∷ select p xs)
          → (In a (select p xs) → In a xs × (p a ≡ true))
          → In a (x ∷ xs) × (p a ≡ true)
      kept e (inl q) ih = (inl q, ap p q ∙ e)
      kept e (inr j) ih = (inr (ih j).0, (ih j).1)

      dropped : In a xs × (p a ≡ true) → In a (x ∷ xs) × (p a ≡ true)
      dropped (j, q) = (inr j, q)

  pub select-In : (a : A) (xs : List A) → In a xs → p a ≡ true → In a (select p xs)
  select-In a [] i h = i
  select-In a (x ∷ xs) (inl e) h = rw (sym e) (rw h (inl refl))
  select-In a (x ∷ xs) (inr i) h = elim (Bool-cases (p x)) [
    | inl e ↦ rw e (inr (select-In a xs i h))
    | inr e ↦ rw e (select-In a xs i h)
  ]
