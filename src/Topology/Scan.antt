-- ===== src/Topology/Scan.antt =====
-- The scans of backend/app/libs/topology/db_topology_adapter.py: whatever the offset, a scan that
-- makes a round for each element finds a free one exactly where there is one.
use devnest.Base.{
  ℕ, zero, suc, ◌+◌, ◌-◌, ◌%◌, ◌<◌, ◌≡◌, ◌≢◌, refl, ap, sym, ◌∙◌, Bool, true, false, none, some,
  List, [], ◌∷◌, leb, leb→le, length, Bool-cases, Option-cases, inl, inr, arith,
}
use native.Mathlib.Nat.{mod-add-mod, mod-eq_of_lt, mod-eq-sub-mod, mod-lt}
use devnest.Topology.Net.{get_elem?, scan}

module _ {ℓ} {A : Type ℓ} where
  get_elem?-lt : (xs : List A) (i : ℕ) → i < length xs → (x : A) × (get_elem? xs i ≡ some x)
  get_elem?-lt [] i h = absurd (omega (arith, h))
  get_elem?-lt (x ∷ xs) zero h = (x, refl)
  get_elem?-lt (x ∷ xs) (suc i) h = get_elem?-lt xs i (omega (arith, h))

  pub get_elem?-bound : (xs : List A) (i : ℕ) {x : A} → get_elem? xs i ≡ some x → i < length xs
  get_elem?-bound [] i h = cc
  get_elem?-bound (x ∷ xs) zero h = omega arith
  get_elem?-bound (x ∷ xs) (suc i) h = omega (arith, get_elem?-bound xs i h)

  -- A round of a scan, by what stands at its position and whether it is free.
  data Round (free : A → Bool) (xs : List A) (i : ℕ) : Type ℓ where
    missing : get_elem? xs i ≡ none → Round free xs i
    taken : (y : A) → get_elem? xs i ≡ some y → free y ≡ false → Round free xs i
    found : (y : A) → get_elem? xs i ≡ some y → free y ≡ true → Round free xs i

  round : (free : A → Bool) (xs : List A) (i : ℕ) → Round free xs i
  round free xs i = elim (Option-cases (get_elem? xs i)) [
    | inl e ↦ missing e
    | inr (y, e) ↦ elim (Bool-cases (free y)) [ inl f ↦ found y e f | inr f ↦ taken y e f ]
  ]

  -- What a scan finds is free and stands in the list.
  pub scan_sound :
      (free : A → Bool) (xs : List A) (start n : ℕ) (x : A)
      → scan free xs start n ≡ some x
      → (free x ≡ true) × ((i : ℕ) × (get_elem? xs i ≡ some x))
  unfolding scan
  scan_sound free xs start zero x h = absurd (cc)
  scan_sound free xs start (suc n) x h = elim (round free xs (start % length xs)) [
    | missing e ↦ absurd (ground (arith, e, h))
    | taken y e f ↦ scan_sound free xs (start + 1) n x (ground (arith, e, f, h))
    | found y e f ↦
        let same : y ≡ x = ground (arith, e, f, h) in
        (ap free (sym same) ∙ f, (start % length xs, e ∙ ap some same))
  ]

  -- A scan that finds nothing has met nothing free.
  scan-none :
      (free : A → Bool) (xs : List A) (start n k : ℕ) (y : A)
      → 0 < length xs
      → scan free xs start n ≡ none
      → k < n
      → get_elem? xs ((start + k) % length xs) ≡ some y
      → free y ≡ false
  unfolding scan
  scan-none free xs start zero k y pos h lt g = elim lt [ ]
  scan-none free xs start (suc n) zero y pos h lt g = ground (arith, h, g)
  scan-none free xs start (suc n) (suc k) y pos h lt g = elim (round free xs (start % length xs)) [
    | missing e ↦ absurd (in_range _ e (get_elem?-lt xs (start % length xs) (omega (arith, pos))))
    | found z e f ↦ absurd (ground (arith, e, f, h))
    | taken z e f ↦
        scan-none free xs (start + 1) n k y pos (ground (arith, e, f, h)) (omega (arith, lt))
          (ap (λ (j : ℕ). get_elem? xs (j % length xs)) (omega arith) ∙ g)
  ]
    where
      in_range : (i : ℕ) → get_elem? xs i ≡ none → (x : A) × (get_elem? xs i ≡ some x) → ⊥
      in_range i e (x, f) = cc

-- Every position is reached.
rotate : (s m i : ℕ) → i < m → (k : ℕ) × (k < m) × ((s + k) % m ≡ i)
rotate s m i h = elim (Bool-cases (leb (s % m) i)) [
  | inl le ↦ (
    i - s % m,
    omega (arith, h),
    sym (mod-add-mod s m (i - s % m))
        ∙ ap (λ (t : ℕ). t % m) (omega (arith, leb→le _ _ le))
        ∙ mod-eq_of_lt h,
  )
  | inr gt ↦
      let r : s % m < m = mod-lt s (omega (arith, h)) in
      let more : i < s % m = ground (arith, gt) in
      let sum : s % m + (m - s % m + i) ≡ m + i = omega (arith, r) in
      let less : m + i - m ≡ i = omega arith in
      (
        m - s % m + i,
        omega (arith, r, more),
        sym (mod-add-mod s m (m - s % m + i))
            ∙ ap (λ (t : ℕ). t % m) sum
            ∙ mod-eq-sub-mod {n = m + i} {m = m} (omega arith)
            ∙ ap (λ (t : ℕ). t % m) less
            ∙ mod-eq_of_lt h,
      )
]

-- A scan with a round for each element finds a free one wherever there is one.
pub scan-finds {ℓ} :
    {A : Type ℓ} (free : A → Bool) (xs : List A) (start i : ℕ) (y : A)
    → get_elem? xs i ≡ some y
    → free y ≡ true
    → scan free xs start (length xs) ≢ none
scan-finds free xs start i y g f h =
    let (k, lt, e) = rotate start (length xs) i (get_elem?-bound xs i g) in
    let busy =
      scan-none free xs start (length xs) k y (omega (arith, lt)) h lt (ap (get_elem? xs) e ∙ g) in
    cc
