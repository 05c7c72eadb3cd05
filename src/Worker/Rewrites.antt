-- ===== src/Worker/Rewrites.antt =====
-- What writing a job back under its key does to the queue (worker.py).
use devnest.Base.{
  ℕ, ◌+◌, ◌≤◌, ◌≡◌, refl, ap, ◌∙◌, Bool, true, false, Option, none, some, List, [], ◌∷◌, first,
  count, if◌then◌else◌, Bool-cases, inl, inr, arith, ◌==◌, leb,
}
use devnest.Model.Rows.{WorkspaceJob}
use devnest.Worker.Db.{put_job, has_job_id}
use devnest.Worker.Queue.{oldest}

-- 1 where a test holds.
abbrev pub weight : Bool → ℕ
weight b = if b then 1 else 0

first-count :
    (p : WorkspaceJob → Bool) (js : List WorkspaceJob) {j : WorkspaceJob}
    → first p js ≡ some j
    → 1 ≤ count p js
first-count p [] h = ground arith
first-count p (x ∷ js) {j} h = ground (arith, h, first-count p js {j = j})

absent_put :
    (j : WorkspaceJob) (js : List WorkspaceJob)
    → count (has_job_id j.workspace_job_id) js ≡ 0
    → put_job j js ≡ js
unfolding put_job
absent_put j [] h = refl
absent_put j (x ∷ js) h = elim (Bool-cases (has_job_id j.workspace_job_id x)) [
  | inl e ↦ absurd (ground (arith, e, h))
  | inr e ↦ rw (e, absent_put j js (ground (arith, e, h))) refl
]

found_later :
    (j x : WorkspaceJob) (js : List WorkspaceJob) {old : WorkspaceJob}
    → has_job_id j.workspace_job_id x ≡ false
    → first (has_job_id j.workspace_job_id) (x ∷ js) ≡ some old
    → first (has_job_id j.workspace_job_id) js ≡ some old
found_later j x js e h = rw e at h

abbrev some_or : WorkspaceJob → Option WorkspaceJob → WorkspaceJob
some_or x none = x
some_or x (some y) = y

found_here :
    (j x : WorkspaceJob) (js : List WorkspaceJob) {old : WorkspaceJob}
    → has_job_id j.workspace_job_id x ≡ true
    → first (has_job_id j.workspace_job_id) (x ∷ js) ≡ some old
    → x ≡ old
found_here j x js e h = ap (some_or x) (rw e at h)

-- One row is replaced.
pub count-put_job :
    (p : WorkspaceJob → Bool) (j : WorkspaceJob) (js : List WorkspaceJob) {old : WorkspaceJob}
    → first (has_job_id j.workspace_job_id) js ≡ some old
    → count (has_job_id j.workspace_job_id) js ≤ 1
    → count p (put_job j js) + weight (p old) ≡ count p js + weight (p j)
unfolding put_job
count-put_job p j [] h u = ground arith
count-put_job p j (x ∷ js) {old} h u = elim (Bool-cases (has_job_id j.workspace_job_id x)) [
  | inl e ↦
      (let same = ap p (found_here j x js {old = old} e h) in
        rw (e, absent_put j js (ground (arith, e, u))) (ground (arith, same)))
  | inr e ↦ rw e (
      let rest =
        count-put_job p j js {old = old} (found_later j x js {old = old} e h)
          (ground (arith, e, u)) in
      elim (Bool-cases (p x)) [ inl q ↦ rw q (omega (arith, rest)) | inr q ↦ rw q rest ])
]

same_id :
    (a b : WorkspaceJob) (i : ℕ)
    → a.workspace_job_id ≡ b.workspace_job_id
    → has_job_id i a ≡ has_job_id i b
same_id a b i h = ap (λ x. x == i) h

-- Under every key there are as many rows as before.
pub count-put_key :
    (i : ℕ) (j : WorkspaceJob) (js : List WorkspaceJob)
    → count (has_job_id i) (put_job j js) ≡ count (has_job_id i) js
unfolding put_job
count-put_key i j [] = refl
count-put_key i j (x ∷ js) = elim (Bool-cases (has_job_id j.workspace_job_id x)) [
  | inl e ↦ rw (e, count-put_key i j js, same_id j x i (ground (arith, e))) refl
  | inr e ↦ rw (e, count-put_key i j js) refl
]

pub first-put_key :
    (j : WorkspaceJob) (js : List WorkspaceJob) {old : WorkspaceJob}
    → first (has_job_id j.workspace_job_id) js ≡ some old
    → first (has_job_id j.workspace_job_id) (put_job j js) ≡ some j
unfolding put_job
first-put_key j [] h = ground arith
first-put_key j (x ∷ js) {old} h = elim (Bool-cases (has_job_id j.workspace_job_id x)) [
  | inl e ↦ rw e (ground arith)
  | inr e ↦ rw (e, e) (first-put_key j js {old = old} (found_later j x js {old = old} e h))
]

-- No two rows of the table have one key.
abbrev pub UniqueIds : List WorkspaceJob → Type 0
UniqueIds js = (i : ℕ) → count (has_job_id i) js ≤ 1

later_unique : (x : WorkspaceJob) (js : List WorkspaceJob) → UniqueIds (x ∷ js) → UniqueIds js
later_unique x js u i = ground (arith, u i)

skip_head :
    (x k : WorkspaceJob) (js : List WorkspaceJob)
    → UniqueIds (x ∷ js)
    → first (has_job_id k.workspace_job_id) js ≡ some k
    → first (has_job_id k.workspace_job_id) (x ∷ js) ≡ some k
skip_head x k js u h = elim (Bool-cases (has_job_id k.workspace_job_id x)) [
  | inl e ↦ absurd (
      ground
        (arith, e, u k.workspace_job_id, first-count (has_job_id k.workspace_job_id) js {j = k} h))
  | inr e ↦ rw e h
]

abbrev pub Found : List WorkspaceJob → Option WorkspaceJob → Type 0
Found js none = Unit
Found js (some j) = first (has_job_id j.workspace_job_id) js ≡ some j

older_of-Found :
    (p : WorkspaceJob → Bool) (x : WorkspaceJob) (js : List WorkspaceJob) (o : Option WorkspaceJob)
    → UniqueIds (x ∷ js)
    → Found js o
    → Found (x ∷ js) (
        if p x
        then elim o [
          | none ↦ some x
          | some k ↦ if leb x.created_at k.created_at then some x else some k
        ]
        else o)
older_of-Found p x js none u h = elim (Bool-cases (p x)) [
  | inl e ↦ rw e (ground arith)
  | inr e ↦ rw e tt
]
older_of-Found p x js (some k) u h = elim (Bool-cases (p x)) [
  | inr e ↦ rw e (skip_head x k js u h)
  | inl e ↦ rw e (elim (Bool-cases (leb x.created_at k.created_at)) [
    | inl q ↦ rw q (ground arith)
    | inr q ↦ rw q (skip_head x k js u h)
  ])
]

-- The claimed row is the row under its key.
pub oldest-Found :
    (p : WorkspaceJob → Bool) (js : List WorkspaceJob) → UniqueIds js → Found js (oldest p js)
unfolding oldest
oldest-Found p [] u = tt
oldest-Found p (x ∷ js) u =
    older_of-Found p x js (oldest p js) u (oldest-Found p js (later_unique x js u))

pub found-count :
    (p : WorkspaceJob → Bool) (i : ℕ) (js : List WorkspaceJob) {j : WorkspaceJob}
    → first (has_job_id i) js ≡ some j
    → p j ≡ true
    → 1 ≤ count p js
found-count p i [] h q = ground arith
found-count p i (x ∷ js) {j} h q = elim (Bool-cases (has_job_id i x)) [
  | inl e ↦ (let same = ap (λ o. p (some_or x o)) (rw e at h) in rw (same ∙ q) (omega arith))
  | inr e ↦ ground (arith, found-count p i js {j = j} (rw e at h) q)
]
