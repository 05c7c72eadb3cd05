-- ===== src/RateLimit/History.antt =====
-- What the limiter promises (backend/app/libs/security/rate_limit.py), stated without windows: the
-- full list of the requests that were let through is kept, and a request is let through where
-- fewer than `calls` of its key are younger than `period`.
use devnest.Base.{
  ℕ, ◌+◌, ◌≤◌, ◌<◌, ◌≡◌, refl, ap, sym, ◌∙◌, Bool, true, false, List, [], ◌∷◌, ◌++◌, if◌then◌else◌,
  leb, ltb, length, count, select, Bool-cases, inl, inr, arith,
}
use devnest.RateLimit.{evict, admit_request}

abbrev pub young : ℕ → ℕ → ℕ → Bool
young period now t = ltb now (t + period)

-- The specification for one key.
abbrev pub admit_history : ℕ → ℕ → ℕ → List ℕ → Bool × List ℕ
admit_history calls period now history =
    if ltb (count (young period now) history) calls
    then (true, history ++ now ∷ [])
    else (false, history)

-- No time of the list lies after the bound.
abbrev pub NoneAfter : ℕ → List ℕ → Type 0
NoneAfter b [] = Unit
NoneAfter b (t ∷ ts) = (t ≤ b) × NoneAfter b ts

abbrev NoneBefore : ℕ → List ℕ → Type 0
NoneBefore b [] = Unit
NoneBefore b (t ∷ ts) = (b ≤ t) × NoneBefore b ts

abbrev pub Ascending : List ℕ → Type 0
Ascending [] = Unit
Ascending (t ∷ ts) = NoneBefore t ts × Ascending ts

length-select : (p : ℕ → Bool) (xs : List ℕ) → length (select p xs) ≡ count p xs
length-select p [] = refl
length-select p (x ∷ xs) = ground (arith, length-select p xs)

all_young :
    (period now t : ℕ) (ts : List ℕ)
    → now < t + period
    → NoneBefore t ts
    → select (young period now) ts ≡ ts
all_young period now t [] h b = refl
all_young period now t (u ∷ ts) h b = ground (arith, all_young period now t ts h b.1, b.0)

-- In a list in order, the requests to drop stand in front.
evict-select :
    (period now : ℕ) (ts : List ℕ)
    → Ascending ts
    → evict period now ts ≡ select (young period now) ts
unfolding evict
evict-select period now [] a = refl
evict-select period now (t ∷ ts) a =
    ground (arith, evict-select period now ts a.1, all_young period now t ts, a.0)

NoneBefore-select :
    (b : ℕ) (p : ℕ → Bool) (ts : List ℕ) → NoneBefore b ts → NoneBefore b (select p ts)
NoneBefore-select b p [] h = tt
NoneBefore-select b p (t ∷ ts) h = elim (Bool-cases (p t)) [
  | inl e ↦ rw e (h.0, NoneBefore-select b p ts h.1)
  | inr e ↦ rw e (NoneBefore-select b p ts h.1)
]

Ascending-select : (p : ℕ → Bool) (ts : List ℕ) → Ascending ts → Ascending (select p ts)
Ascending-select p [] a = tt
Ascending-select p (t ∷ ts) a = elim (Bool-cases (p t)) [
  | inl e ↦ rw e (NoneBefore-select t p ts a.0, Ascending-select p ts a.1)
  | inr e ↦ rw e (Ascending-select p ts a.1)
]

-- A later look at what an earlier one kept sees the same young requests.
select-select :
    (period last now : ℕ) (ts : List ℕ)
    → last ≤ now
    → select (young period now) (select (young period last) ts) ≡ select (young period now) ts
select-select period last now [] h = refl
select-select period last now (t ∷ ts) h = ground (arith, select-select period last now ts h)

select-snoc :
    (p : ℕ → Bool) (ts : List ℕ) (t : ℕ)
    → p t ≡ true
    → select p (ts ++ t ∷ []) ≡ select p ts ++ t ∷ []
select-snoc p [] t h = rw h refl
select-snoc p (u ∷ ts) t h = ground (arith, select-snoc p ts t h)

Ascending-snoc : (ts : List ℕ) (t : ℕ) → Ascending ts → NoneAfter t ts → Ascending (ts ++ t ∷ [])
Ascending-snoc [] t a b = (tt, tt)
Ascending-snoc (u ∷ ts) t a b = (before_snoc ts a.0 b.0, Ascending-snoc ts t a.1 b.1)
  where
    before_snoc : (ts : List ℕ) → NoneBefore u ts → u ≤ t → NoneBefore u (ts ++ t ∷ [])
    before_snoc [] h le = (le, tt)
    before_snoc (v ∷ ts) h le = (h.0, before_snoc ts h.1 le)

NoneAfter-mono : (a b : ℕ) (ts : List ℕ) → a ≤ b → NoneAfter a ts → NoneAfter b ts
NoneAfter-mono a b [] h n = tt
NoneAfter-mono a b (t ∷ ts) h n = (omega (arith, n.0), NoneAfter-mono a b ts h n.1)

NoneAfter-snoc : (t : ℕ) (ts : List ℕ) → NoneAfter t ts → NoneAfter t (ts ++ t ∷ [])
NoneAfter-snoc t [] n = (omega arith, tt)
NoneAfter-snoc t (u ∷ ts) n = (n.0, NoneAfter-snoc t ts n.1)

-- The window of a key is the young part of its history, as of the last request of the key.
pub record Follows (period last : ℕ) (window history : List ℕ) : Type 0 where
  pub seen : ℕ
  pub past : seen ≤ last
  pub kept : window ≡ select (young period seen) history
  pub ordered : Ascending history
  pub bounded : NoneAfter seen history

-- One request: the limiter and the specification answer the same, and follow each other still.
pub admit-Follows :
    (calls period last now : ℕ) (window history : List ℕ)
    → 0 < period
    → last ≤ now
    → Follows period last window history
    → ((admit_request calls period now window).0 ≡ (admit_history calls period now history).0)
      × Follows period now
          (admit_request calls period now window).1
          (admit_history calls period now history).1
unfolding admit_request
admit-Follows calls period last now window history pos le f =
    let same : evict period now window ≡ select (young period now) history =
      ap (evict period now) f.kept
      ∙ evict-select period now (select (young period f.seen) history)
          (Ascending-select (young period f.seen) history f.ordered)
      ∙ select-select period f.seen now history (omega (arith, f.past, le)) in
    let size = ap length same ∙ length-select (young period now) history in
    let earlier = NoneAfter-mono f.seen now history (omega (arith, f.past, le)) f.bounded in
    elim (Bool-cases (leb calls (length (evict period now window)))) [
      | inl e ↦
          rw (e, admit_request)
            (rw (full calls _ _ size e) (
              refl,
              record {
                seen = now;
                past = omega arith;
                kept = same;
                ordered = f.ordered;
                bounded = earlier;
              },
            ))
      | inr e ↦
          rw (e, admit_request)
            (rw (free calls _ _ size e) (
              refl,
              record {
                seen = now;
                past = omega arith;
                kept =
                    ap (λ w. w ++ now ∷ []) same
                    ∙ sym (select-snoc (young period now) history now (ground (arith, pos)));
                ordered = Ascending-snoc history now f.ordered earlier;
                bounded = NoneAfter-snoc now history earlier;
              },
            ))
    ]
  where
    full : (c a b : ℕ) → a ≡ b → leb c a ≡ true → ltb b c ≡ false
    full c a b e h = ground (arith, e, h)

    free : (c a b : ℕ) → a ≡ b → leb c a ≡ false → ltb b c ≡ true
    free c a b e h = ground (arith, e, h)
