-- ===== src/Topology/Release.antt =====
-- What `release_workspace_ip_lease` of backend/app/libs/topology/db_topology_adapter.py changes.
use devnest.Base.{
  ℕ, ◌+◌, ◌≤◌, ◌≡◌, Bool, true, false, Option, none, some, List, if◌then◌else◌, ◌==◌, count_mono,
  count-update_first, count-update_first-le, first, first-of_count, first-update_first_other,
  first-keeps, update_first, Text, Option-cases, inl, inr, arith,
}
use devnest.Topology.Rows.{IpAllocation, Tables, active_lease_of, lease_of, holds_ip}
use devnest.Topology.Lease.{release_lease}
use devnest.Topology.LeaseLaws.{IsUnique}

abbrev pub active_row : ℕ → Text → ℕ → Tables → Option IpAllocation
active_row t n w db = first (active_lease_of t n w) db.allocations

abbrev released_row : ℕ → IpAllocation → IpAllocation
released_row now b = record b { released_at = some now }

released-inactive :
    (now t : ℕ) (n : Text) (w : ℕ) (a : IpAllocation)
    → active_lease_of t n w (released_row now a) ≡ false
released-inactive now t n w a = ground arith

released-unheld :
    (now t : ℕ) (n : Text) (ip : ℕ) (a : IpAllocation)
    → holds_ip t n ip (released_row now a) ≡ false
released-unheld now t n ip a = ground arith

active-other :
    (t : ℕ) (n : Text) (w v : ℕ) (a : IpAllocation)
    → w == v ≡ false
    → active_lease_of t n v a ≡ true
    → active_lease_of t n w a ≡ false
active-other t n w v a ne h = ground (arith, ne, h)

module _ (now t : ℕ) (n : Text) where
  -- What a release does, on both branches.
  data Released (v : ℕ) (db : Tables) (out : Bool × Tables) : Type 0 where
    nothing : active_row t n v db ≡ none → out ≡ (false, db) → Released v db out
    gone :
        (a : IpAllocation)
        → active_row t n v db ≡ some a
        → out ≡ (
          true,
          record db {
            allocations = update_first (active_lease_of t n v) (released_row now) db.allocations;
          },
        )
        → Released v db out

  release-Released : (v : ℕ) (db : Tables) → Released v db (release_lease now t n v db)
  unfolding release_lease
  release-Released v db = elim (Option-cases (active_row t n v db)) [
    | inl e ↦ nothing e (rw (e, release_lease))
    | inr (a, e) ↦ gone a e (rw (e, release_lease))
  ]

  pub released_rows-IsUnique :
      (v : ℕ) (rows : List IpAllocation)
      → IsUnique rows
      → IsUnique (update_first (active_lease_of t n v) (released_row now) rows)
  released_rows-IsUnique v rows u = record {
    one_lease = λ t' n' w'. omega (
      arith,
      u.one_lease t' n' w',
      count-update_first-le (lease_of t' n' w') (active_lease_of t n v) (released_row now) rows
          (λ x p q. q),
    );
    one_holder = λ t' n' ip'. omega (
      arith,
      u.one_holder t' n' ip',
      count-update_first-le (holds_ip t' n' ip') (active_lease_of t n v) (released_row now) rows
          (λ x p q. absurd (clash (released-unheld now t' n' ip' x) q)),
    );
  }
    where
      clash : {b : Bool} → b ≡ false → b ≡ true → ⊥
      clash p q = cc

  pub release-IsUnique :
      (v : ℕ) (db : Tables)
      → IsUnique db.allocations
      → IsUnique (release_lease now t n v db).1.allocations
  release-IsUnique v db u = elim (release-Released v db) [
    | nothing e o ↦ rw o u
    | gone a e o ↦ rw o (released_rows-IsUnique v db.allocations u)
  ]

  pub release-attachments :
      (v : ℕ) (db : Tables) → (release_lease now t n v db).1.attachments ≡ db.attachments
  release-attachments v db = elim (release-Released v db) [ nothing e o ↦ rw o | gone a e o ↦ rw o ]

  -- A workspace that gives its lease back has none, if it had one row.
  pub release-active_self :
      (v : ℕ) (db : Tables)
      → IsUnique db.allocations
      → active_row t n v (release_lease now t n v db).1 ≡ none
  release-active_self v db u = elim (release-Released v db) [
    | nothing e o ↦ rw o e
    | gone a e o ↦ rw o (
        first-of_count (active_lease_of t n v)
          (update_first (active_lease_of t n v) (released_row now) db.allocations)
          (last_one (active_lease_of t n v (released_row now a)) (active_lease_of t n v a) _ _
            (count-update_first (active_lease_of t n v) (active_lease_of t n v) (released_row now)
              db.allocations e)
            (released-inactive now t n v a) (first-keeps (active_lease_of t n v) db.allocations e)
            (omega (
              arith,
              u.one_lease t n v,
              count_mono (lease_of t n v) (active_lease_of t n v) db.allocations
                  (λ x q. ground (arith, q)),
            ))))
  ]
    where
      last_one :
          (b c : Bool) (x y : ℕ)
          → x + (if c then 1 else 0) ≡ y + (if b then 1 else 0)
          → b ≡ false
          → c ≡ true
          → y ≤ 1
          → x ≡ 0
      last_one b c x y e p q le = ground (arith, e, p, q, le)

  pub release-active_other :
      (w v : ℕ) (db : Tables)
      → w == v ≡ false
      → active_row t n w (release_lease now t n v db).1 ≡ active_row t n w db
  release-active_other w v db ne = elim (release-Released v db) [
    | nothing e o ↦ rw o
    | gone a e o ↦ rw o (
        first-update_first_other (active_lease_of t n v) (active_lease_of t n w) (released_row now)
          db.allocations (λ y p. active-other t n w v y ne p)
          (λ y p. released-inactive now t n w y))
  ]
