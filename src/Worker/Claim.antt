-- ===== src/Worker/Claim.antt =====
-- What the claim of a job takes from the queue (worker.py).
use devnest.Base.{
  ℕ, ◌+◌, ◌≤◌, ◌≡◌, ◌≢◌, Bool, true, false, Option, none, some, List, [], ◌∷◌, arith, leb,
  if◌then◌else◌, inl, inr, refl, Bool-cases, leb→le,
}
use mathlib.Core.List.{Mem, mem-cons_self, mem-cons_of_mem}
use devnest.Model.Enums.{WorkspaceJobStatus}
use devnest.Model.Rows.{WorkspaceJob}
use devnest.Retry.{queued_job_eligible_where}
use devnest.Worker.Mark.{mark_job_running}
use devnest.Worker.Db.{put_job, has_job_id}
use devnest.Worker.Queue.{oldest, claimable, claim, try_claim_next_queued_workspace_job}

-- Of the rows that a test keeps, none is older.
abbrev pub NoneOlder : (WorkspaceJob → Bool) → ℕ → List WorkspaceJob → Type 0
NoneOlder p time [] = Unit
NoneOlder p time (k ∷ ks) = (p k ≡ true → time ≤ k.created_at) × NoneOlder p time ks

abbrev pub NoneKept : (WorkspaceJob → Bool) → List WorkspaceJob → Type 0
NoneKept p [] = Unit
NoneKept p (k ∷ ks) = (p k ≡ false) × NoneKept p ks

abbrev pub Oldest : (WorkspaceJob → Bool) → List WorkspaceJob → Option WorkspaceJob → Type 0
Oldest p js none = NoneKept p js
Oldest p js (some j) = (p j ≡ true) × NoneOlder p j.created_at js × Mem j js

NoneOlder-le :
    (p : WorkspaceJob → Bool) (a b : ℕ) (js : List WorkspaceJob)
    → a ≤ b
    → NoneOlder p b js
    → NoneOlder p a js
NoneOlder-le p a b [] h k = tt
NoneOlder-le p a b (j ∷ js) h k = ((λ e. ground (arith, k.0 e)), NoneOlder-le p a b js h k.1)

NoneKept-older :
    (p : WorkspaceJob → Bool) (a : ℕ) (js : List WorkspaceJob) → NoneKept p js → NoneOlder p a js
NoneKept-older p a [] h = tt
NoneKept-older p a (j ∷ js) h = ((λ e. ground arith), NoneKept-older p a js h.1)

-- One row more, with the oldest of the others.
older_of-Oldest :
    (p : WorkspaceJob → Bool) (j : WorkspaceJob) (js : List WorkspaceJob) (o : Option WorkspaceJob)
    → Oldest p js o
    → Oldest p (j ∷ js) (
        if p j
        then elim o [
          | none ↦ some j
          | some k ↦ if leb j.created_at k.created_at then some j else some k
        ]
        else o)
older_of-Oldest p j js none h = elim (Bool-cases (p j)) [
  | inl e ↦ rw e (e, ((λ _. omega arith), NoneKept-older p j.created_at js h), mem-cons_self)
  | inr e ↦ rw e (e, h)
]
older_of-Oldest p j js (some k) h = elim (Bool-cases (p j)) [
  | inr e ↦ rw e (h.0, ((λ q. cc), h.1), mem-cons_of_mem j h.2)
  | inl e ↦ rw e (elim (Bool-cases (leb j.created_at k.created_at)) [
    | inl q ↦ rw q (
      e,
      ((λ _. omega arith), NoneOlder-le p j.created_at k.created_at js (leb→le _ _ q) h.1),
      mem-cons_self,
    )
    | inr q ↦ rw q (h.0, ((λ _. ground arith), h.1), mem-cons_of_mem j h.2)
  ])
]

pub oldest-Oldest : (p : WorkspaceJob → Bool) (js : List WorkspaceJob) → Oldest p js (oldest p js)
unfolding oldest
oldest-Oldest p [] = tt
oldest-Oldest p (j ∷ js) = older_of-Oldest p j js (oldest p js) (oldest-Oldest p js)

-- The row of a claimed job: it runs since now, once more attempted, and is else as it was.
pub record Marked (now : ℕ) (job job' : WorkspaceJob) : Type 0 where
  pub running : job'.status ≡ WorkspaceJobStatus.running
  pub started : job'.started_at ≡ some now
  pub attempted : job'.attempt ≡ job.attempt + 1
  pub rest :
      record job' { status = job.status; started_at = job.started_at; attempt = job.attempt } ≡ job

-- The rows of the id are the given one afterwards, and every other row is as it was.
abbrev pub OnlyRow : ℕ → WorkspaceJob → List WorkspaceJob → List WorkspaceJob → Type 0
OnlyRow i j [] [] = Unit
OnlyRow i j (k ∷ ks) (k' ∷ ks') =
    (k.workspace_job_id ≡ i → k' ≡ j) × (k.workspace_job_id ≢ i → k' ≡ k) × OnlyRow i j ks ks'
OnlyRow i j _ _ = ⊥

put_job-OnlyRow :
    (j : WorkspaceJob) (jobs : List WorkspaceJob)
    → OnlyRow j.workspace_job_id j jobs (put_job j jobs)
unfolding put_job
put_job-OnlyRow j [] = tt
put_job-OnlyRow j (k ∷ ks) = elim (Bool-cases (has_job_id j.workspace_job_id k)) [
  | inl e ↦ rw e ((λ q. refl), (λ n. absurd (n (ground (arith, e)))), put_job-OnlyRow j ks)
  | inr e ↦ rw e ((λ q. absurd (ground (arith, e, q))), (λ n. refl), put_job-OnlyRow j ks)
]

-- What a claim hands out is a row of the queue that may be claimed, marked as running; no row that
-- may be claimed is older; and the table has changed in the rows of its id alone. There is none
-- exactly where no row may be claimed.
abbrev pub Claimed :
    ℕ
    → (WorkspaceJob → Bool)
    → List WorkspaceJob
    → Option (WorkspaceJob × List WorkspaceJob)
    → Type 0
Claimed now locked jobs none = NoneKept (claimable now locked) jobs
Claimed now locked jobs (some (job', jobs')) =
    (job : WorkspaceJob) × Mem job jobs
    × (claimable now locked job ≡ true)
    × NoneOlder (claimable now locked) job.created_at jobs
    × Marked now job job'
    × OnlyRow job.workspace_job_id job' jobs jobs'

-- Every claim takes a row of the queue that is eligible and that no other transaction has locked,
-- the oldest of these; it hands it out as RUNNING since now with one attempt more and else as it
-- was, and so it stands in the table, in which every row of another id is as it was. A claim comes
-- back empty only when no such row is there.
pub claim-Claimed :
    (now : ℕ) (locked : WorkspaceJob → Bool) (jobs : List WorkspaceJob)
    → Claimed now locked jobs (try_claim_next_queued_workspace_job now locked jobs)
unfolding try_claim_next_queued_workspace_job claim mark_job_running
claim-Claimed now locked jobs =
    by_oldest (oldest (claimable now locked) jobs) (oldest-Oldest (claimable now locked) jobs)
  where
    by_oldest :
        (o : Option WorkspaceJob)
        → Oldest (claimable now locked) jobs o
        → Claimed now locked jobs (claim now o jobs)
    by_oldest none h = h
    by_oldest (some j) h = (
      j,
      h.2,
      h.0,
      h.1,
      record { running = refl; started = refl; attempted = refl; rest = refl },
      put_job-OnlyRow (mark_job_running now j) jobs,
    )

abbrev Spares : ℕ → Option WorkspaceJob → Type 0
Spares i none = Unit
Spares i (some k) = k.workspace_job_id ≢ i

oldest-Spares_step :
    (p : WorkspaceJob → Bool) (i : ℕ) (j : WorkspaceJob) (o : Option WorkspaceJob)
    → (p j ≡ true → j.workspace_job_id ≢ i)
    → Spares i o
    → Spares i (
        if p j
        then elim o [
          | none ↦ some j
          | some k ↦ if leb j.created_at k.created_at then some j else some k
        ]
        else o)
oldest-Spares_step p i j none keep h = elim (Bool-cases (p j)) [
  | inl e ↦ rw e (keep e)
  | inr e ↦ rw e h
]
oldest-Spares_step p i j (some k) keep h = elim (Bool-cases (p j)) [
  | inr e ↦ rw e h
  | inl e ↦
      rw e (elim (Bool-cases (leb j.created_at k.created_at)) [
        | inl q ↦ rw q (keep e)
        | inr q ↦ rw q h
      ])
]

oldest_put-Spares :
    (p : WorkspaceJob → Bool) (j : WorkspaceJob) (jobs : List WorkspaceJob)
    → p j ≡ false
    → Spares j.workspace_job_id (oldest p (put_job j jobs))
unfolding oldest put_job
oldest_put-Spares p j [] h = tt
oldest_put-Spares p j (x ∷ xs) h =
    oldest-Spares_step p j.workspace_job_id (if has_job_id j.workspace_job_id x then j else x)
      (oldest p (put_job j xs))
      (elim (Bool-cases (has_job_id j.workspace_job_id x)) [
        | inl e ↦ rw e (λ q. ground (arith, q, h))
        | inr e ↦ rw e (λ q. ground (arith, e))
      ])
      (oldest_put-Spares p j xs h)

claimed_row :
    (now : ℕ) (o : Option WorkspaceJob) (jobs : List WorkspaceJob) {job : WorkspaceJob}
    {left : List WorkspaceJob}
    → claim now o jobs ≡ some (job, left)
    → (job.status ≡ WorkspaceJobStatus.running) × (left ≡ put_job job jobs)
unfolding claim mark_job_running
claimed_row now none jobs h = ground arith
claimed_row now (some j) jobs h = ground arith

claimed_row-Spares :
    (now i : ℕ) (o : Option WorkspaceJob) (jobs : List WorkspaceJob) {job : WorkspaceJob}
    {left : List WorkspaceJob}
    → Spares i o
    → claim now o jobs ≡ some (job, left)
    → job.workspace_job_id ≢ i
unfolding claim mark_job_running
claimed_row-Spares now i none jobs free h = ground arith
claimed_row-Spares now i (some j) jobs free h = λ q. ground (arith, free)

running-not_claimable :
    (now : ℕ) (locked : WorkspaceJob → Bool) (j : WorkspaceJob)
    → j.status ≡ WorkspaceJobStatus.running
    → claimable now locked j ≡ false
unfolding queued_job_eligible_where
running-not_claimable now locked j h = rw h refl

-- A job that one worker has claimed is not handed to the next worker that claims from what the
-- first one left, whatever the clock and the locks of the second.
pub claim_twice :
    (now later : ℕ) (locked locked' : WorkspaceJob → Bool) (jobs : List WorkspaceJob)
    {job : WorkspaceJob} {left : List WorkspaceJob} {job' : WorkspaceJob}
    {left' : List WorkspaceJob}
    → try_claim_next_queued_workspace_job now locked jobs ≡ some (job, left)
    → try_claim_next_queued_workspace_job later locked' left ≡ some (job', left')
    → job'.workspace_job_id ≢ job.workspace_job_id
unfolding try_claim_next_queued_workspace_job
claim_twice now later locked locked' jobs {job} {left} h k =
    let (runs, kept) = claimed_row now (oldest (claimable now locked) jobs) jobs h in
    claimed_row-Spares later job.workspace_job_id (oldest (claimable later locked') left) left
      (rw kept (
        oldest_put-Spares (claimable later locked') job jobs
          (running-not_claimable later locked' job runs)))
      k
