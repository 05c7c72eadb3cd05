-- ===== src/Topology/Settled.antt =====
-- The leases that a pass of the janitor of
-- backend/app/libs/topology/db_topology_adapter.py leaves to workspaces that are not attached.
use devnest.Base.{
  ℕ, ◌+◌, ◌≡◌, ◌⊎◌, ap, sym, ◌∙◌, Bool, true, false, not, ◌&&◌, ◌||◌, Option, none, some, List, [],
  ◌∷◌, ◌==◌, any, first, first-update_first_other, update_first, Text, Bool-cases, inl, inr, arith,
}
use mathlib.Core.Path.{subst}
use devnest.Topology.Rows.{
  TopologyAttachment, Tables, Result, ok, err, node_name, is_detached, active_lease_of,
  attachment_of,
}
use devnest.Topology.Lease.{release_workspace_ip_lease, release_lease}
use devnest.Topology.Release.{
  active_row, release-IsUnique, release-attachments, release-active_self, release-active_other,
}
use devnest.Topology.LeaseLaws.{IsUnique}
use devnest.Topology.Detach.{
  DetachHost, detached_row, detach_row, attached_row, holds_attached, released_of, release_orphans,
}

-- A workspace has no active lease, or its attachment is attached.
abbrev pub IsSettled : ℕ → Text → Tables → ℕ → Type 0
IsSettled t n db w =
    (first (active_lease_of t n w) db.allocations ≡ none) ⊎ (holds_attached t n w db ≡ true)

module _ (now t : ℕ) (n : Text) where
  release-IsSettled :
      (v w : ℕ) (db : Tables)
      → IsUnique db.allocations
      → IsSettled t n db w
      → IsSettled t n (release_lease now t n v db).1 w
  release-IsSettled v w db u (inr a) = inr (
      ap (λ r. attached_row (first (attachment_of t n w) r)) (release-attachments now t n v db) ∙ a)
  release-IsSettled v w db u (inl e) = elim (Bool-cases (w == v)) [
    | inr ne ↦ inl (release-active_other now t n w v db ne ∙ e)
    | inl eq ↦ inl (
        ap (λ (x : ℕ). active_row t n x (release_lease now t n v db).1) (same eq)
        ∙ release-active_self now t n v db u)
  ]
    where
      same : (w == v) ≡ true → w ≡ v
      same eq = ground (arith, eq)

  -- One workspace of the loop over the leases.
  pub record Kept (db out : Tables) : Type 0 where
    pub unique : IsUnique out.allocations
    pub settled : (w : ℕ) → IsSettled t n db w → IsSettled t n out w

  orphan-Kept :
      (v m : ℕ) (db : Tables)
      → IsUnique db.allocations
      → Kept db (released_of t n v (m, db) (release_lease now t n v db)).1
  orphan-Kept v m db u = elim (Bool-cases (holds_attached t n v db)) [
    | inl a ↦ rw a (record { unique = u; settled = λ w s. s })
    | inr a ↦ rw a (elim (Bool-cases (release_lease now t n v db).0) [
      | inl d ↦ rw d (record {
        unique = release-IsUnique now t n v db u;
        settled = λ w s. release-IsSettled v w db u s;
      })
      | inr d ↦ rw d (record {
        unique = release-IsUnique now t n v db u;
        settled = λ w s. release-IsSettled v w db u s;
      })
    ])
  ]

  orphan-settles :
      (v m : ℕ) (db : Tables)
      → IsUnique db.allocations
      → IsSettled t n (released_of t n v (m, db) (release_lease now t n v db)).1 v
  orphan-settles v m db u = elim (Bool-cases (holds_attached t n v db)) [
    | inl a ↦ rw a (inr a)
    | inr a ↦ rw a (elim (Bool-cases (release_lease now t n v db).0) [
      | inl d ↦ rw d (inl (release-active_self now t n v db u))
      | inr d ↦ rw d (inl (release-active_self now t n v db u))
    ])
  ]

  pub release-stable :
      (v : ℕ) (db : Tables)
      → node_name n ≡ n
      → release_workspace_ip_lease now t n v db ≡ release_lease now t n v db
  unfolding release_workspace_ip_lease
  release-stable v db stable = ap (λ k. release_lease now t k v db) stable

  pub release_orphans-Kept :
      (host : DetachHost) (ws : List ℕ) (m : ℕ) (db : Tables)
      → node_name n ≡ n
      → IsUnique db.allocations
      → Kept db (release_orphans host now t n ws m db).1
        × ((w : ℕ)
            → any (λ v. v == w) ws ≡ true
            → IsSettled t n (release_orphans host now t n ws m db).1 w)
  unfolding release_orphans
  release_orphans-Kept host [] m db stable u =
      (record { unique = u; settled = λ w s. s }, λ w h. absurd (cc))
  release_orphans-Kept host (v ∷ ws) m db stable u =
      let step = orphan-Kept v m db u in
      let out = released_of t n v (m, db) (release_lease now t n v db) in
      let rest = release_orphans-Kept host ws out.0 out.1 stable step.unique in
      let head = orphan-settles v m db u in
      subst
        (λ (x : Bool × Tables).
          let next = released_of t n v (m, db) x in
          Kept db (release_orphans host now t n ws next.0 next.1).1
          × ((w : ℕ)
              → any (λ u. u == w) (v ∷ ws) ≡ true
              → IsSettled t n (release_orphans host now t n ws next.0 next.1).1 w))
        (sym (release-stable v db stable))
        (
          record { unique = rest.0.unique; settled = λ w s. rest.0.settled w (step.settled w s) },
          λ w h. elim (Bool-cases (v == w)) [
            | inl e ↦ rest.0.settled w (subst (IsSettled t n out.1) (same e) head)
            | inr e ↦ rest.1 w (later w _ e h)
          ],
        )
    where
      same : {w : ℕ} → (v == w) ≡ true → v ≡ w
      same e = ground (arith, e)

      later : (w : ℕ) (b : Bool) → (v == w) ≡ false → ((v == w) || b) ≡ true → b ≡ true
      later w b e h = ground (arith, e, h)

  abbrev detached_tables : ℕ → Tables → Tables
  detached_tables v db = record db {
    attachments = update_first (attachment_of t n v) (detached_row now) db.attachments;
  }

  attachment-other :
      (v w : ℕ) (db : Tables)
      → (w == v) ≡ false
      → holds_attached t n w (detached_tables v db) ≡ holds_attached t n w db
  attachment-other v w db ne = ap attached_row (
      first-update_first_other (attachment_of t n v) (attachment_of t n w) (detached_row now)
        db.attachments (λ y p. apart y p) (λ y p. apart y p))
    where
      apart :
          (y : TopologyAttachment) → attachment_of t n v y ≡ true → attachment_of t n w y ≡ false
      apart y p = ground (arith, p, ne)

  detached_and_released :
      (host : DetachHost) (v : ℕ) (db : Tables)
      → IsUnique db.allocations
      → Kept db (release_lease now t n v (detached_tables v db)).1
  detached_and_released host v db u = record {
    unique = release-IsUnique now t n v (detached_tables v db) u;
    settled = λ w s. elim (Bool-cases (w == v)) [
      | inl e ↦ inl (
          ap (λ (x : ℕ). active_row t n x (release_lease now t n v (detached_tables v db)).1)
            (same w e)
          ∙ release-active_self now t n v (detached_tables v db) u)
      | inr e ↦ release-IsSettled v w (detached_tables v db) u (moved w e s)
    ];
  }
    where
      same : (w : ℕ) → (w == v) ≡ true → w ≡ v
      same w eq = ground (arith, eq)

      moved :
          (w : ℕ) → (w == v) ≡ false → IsSettled t n db w → IsSettled t n (detached_tables v db) w
      moved w e (inl x) = inl x
      moved w e (inr x) = inr (attachment-other v w db e ∙ x)

  -- One workspace of the loops that detach, at the name of the node that the database has.
  abbrev pub detach_answer : ℕ → ℕ → Result Bool × Tables → ℕ × Tables
  detach_answer v m (err e, db) = (m, db)
  detach_answer v m (ok b, db) = (m + 1, (release_lease now t n v db).1)

  pub detach-Kept :
      (host : DetachHost) (v m : ℕ) (db : Tables) (row : Option TopologyAttachment)
      → IsUnique db.allocations
      → Kept db (detach_answer v m (detach_row host now t n v db row)).1
  unfolding detach_row
  detach-Kept host v m db none u = record {
    unique = release-IsUnique now t n v db u;
    settled = λ w s. release-IsSettled v w db u s;
  }
  detach-Kept host v m db (some a) u = elim (Bool-cases (is_detached a.status)) [
    | inl d ↦ rw d (record {
      unique = release-IsUnique now t n v db u;
      settled = λ w s. release-IsSettled v w db u s;
    })
    | inr d ↦ rw d (elim (Bool-cases (host.apply_linux_attachment && not (host.veth_removed a))) [
      | inl f ↦ rw f (record { unique = u; settled = λ w s. s })
      | inr f ↦ rw f (detached_and_released host v db u)
    ])
  ]
