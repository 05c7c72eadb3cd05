-- ===== src/Topology/LeaseLaws.antt =====
-- The leases of backend/app/libs/topology/db_topology_adapter.py: the unique indices, what an
-- attempt writes, and the release.
use devnest.Base.{
  ℕ, suc, ◌≤◌, ◌≡◌, refl, ap, sym, ◌∙◌, true, false, not, ◌&&◌, ◌||◌, Option, none, some, List, [],
  ◌∷◌, if◌then◌else◌, ◌==◌, any, count, count-snoc, count-snoc_false, count-update_first-le,
  first-none-count, first, count-update_first, Text, text_eq, text_eq→eq, text_eq_refl, Bool-cases,
  Option-cases, inl, inr, arith,
}
use devnest.Topology.Rows.{IpAllocation, lease_of, holds_ip, active_lease_on}
use devnest.Topology.Lease.{used_ips, is_unique, renew, new_lease, write_lease}

-- The two unique constraints of the table.
pub record IsUnique (rows : List IpAllocation) : Type 0 where
  pub one_lease : (t : ℕ) (n : Text) (w : ℕ) → count (lease_of t n w) rows ≤ 1
  pub one_holder : (t : ℕ) (n : Text) (ip : ℕ) → count (holds_ip t n ip) rows ≤ 1

-- An address that is not among the used ones has no holder.
pub not_used :
    (t : ℕ) (n : Text) (ip : ℕ) (rows : List IpAllocation)
    → not (any (λ u. u == ip) (used_ips t n rows)) ≡ true
    → count (holds_ip t n ip) rows ≡ 0
not_used t n ip [] h = refl
not_used t n ip (a ∷ rows) h = elim (Bool-cases (active_lease_on t n a)) [
  | inl e ↦ rest (rw e at h) e (not_used t n ip rows)
  | inr e ↦ rw e (not_used t n ip rows (rw e at h))
]
  where
    rest :
        not (a.ip == ip || any (λ (u : ℕ). u == ip) (used_ips t n rows)) ≡ true
        → active_lease_on t n a ≡ true
        → (not (any (λ (u : ℕ). u == ip) (used_ips t n rows)) ≡ true
            → count (holds_ip t n ip) rows ≡ 0)
        → count (holds_ip t n ip) (a ∷ rows) ≡ 0
    rest h e ih = rw e (ground (arith, ih, h))

pub not_used-of_count :
    (t : ℕ) (n : Text) (ip : ℕ) (rows : List IpAllocation)
    → count (holds_ip t n ip) rows ≡ 0
    → not (any (λ u. u == ip) (used_ips t n rows)) ≡ true
not_used-of_count t n ip [] h = refl
not_used-of_count t n ip (a ∷ rows) h = elim (Bool-cases (active_lease_on t n a)) [
  | inl e ↦ rw e (held (rw e at h) (not_used-of_count t n ip rows))
  | inr e ↦ rw e (not_used-of_count t n ip rows (rw e at h))
]
  where
    held :
        (if a.ip == ip then suc (count (holds_ip t n ip) rows) else count (holds_ip t n ip) rows)
          ≡ 0
        → (count (holds_ip t n ip) rows ≡ 0
            → not (any (λ (u : ℕ). u == ip) (used_ips t n rows)) ≡ true)
        → not (a.ip == ip || any (λ (u : ℕ). u == ip) (used_ips t n rows)) ≡ true
    held h ih = ground (arith, ih, h)

pub lease_of-parts :
    (t : ℕ) (n : Text) (w : ℕ) (a : IpAllocation)
    → lease_of t n w a ≡ true
    → (a.topology_id ≡ t) × (a.node_id ≡ n) × (a.workspace_id ≡ w)
lease_of-parts t n w a h = ground (arith, text_eq→eq a.node_id n, h)

holds_ip-parts :
    (t : ℕ) (n : Text) (ip : ℕ) (a : IpAllocation)
    → holds_ip t n ip a ≡ true
    → (a.topology_id ≡ t) × (a.node_id ≡ n) × (a.ip ≡ ip)
holds_ip-parts t n ip a h = ground (arith, text_eq→eq a.node_id n, h)

-- Whether two tuples of an index are the same.
data Same (t : ℕ) (n : Text) (k : ℕ) (t' : ℕ) (n' : Text) (k' : ℕ) : Type 0 where
  same : t' ≡ t → n' ≡ n → k' ≡ k → Same t n k t' n' k'
  other : (t' ≡ t → n' ≡ n → k' ≡ k → ⊥) → Same t n k t' n' k'

compare_tuples : (t : ℕ) (n : Text) (k t' : ℕ) (n' : Text) (k' : ℕ) → Same t n k t' n' k'
compare_tuples t n k t' n' k' = elim (Bool-cases ((t' == t && text_eq n' n) && k' == k)) [
  | inl e ↦ same (ground (arith, e)) (text_eq→eq n' n (ground (arith, e))) (ground (arith, e))
  | inr e ↦ other (λ p q r. differ (ap (λ (z : Text). text_eq z n) q ∙ text_eq_refl n) p r e)
]
  where
    differ :
        text_eq n' n ≡ true → t' ≡ t → k' ≡ k → ((t' == t && text_eq n' n) && k' == k) ≡ false → ⊥
    differ x p r e = ground (arith, x, p, r, e)

module _ (now t : ℕ) (n : Text) (w ip : ℕ) where
  -- Writing a lease adds no row to a tuple but those of the workspace and of the address.
  write_lease-lease_of :
      (row : Option IpAllocation) (rows : List IpAllocation) (t' : ℕ) (n' : Text) (w' : ℕ)
      → (t' ≡ t → n' ≡ n → w' ≡ w → ⊥)
      → count (lease_of t' n' w') (write_lease now t n w ip row rows)
        ≤ count (lease_of t' n' w') rows
  write_lease-lease_of none rows t' n' w' d =
      elim (Bool-cases (lease_of t' n' w' (new_lease now t n w ip))) [
        | inr e ↦
            omega (arith, count-snoc_false (lease_of t' n' w') rows (new_lease now t n w ip) e)
        | inl e ↦
            let k = lease_of-parts t' n' w' (new_lease now t n w ip) e in
            absurd (d (sym k.0) (sym k.1) (sym k.2))
      ]
  write_lease-lease_of (some a) rows t' n' w' d =
      count-update_first-le (lease_of t' n' w') (lease_of t n w) (renew now ip) rows (λ x p q. q)

  write_lease-holds_ip :
      (row : Option IpAllocation) (rows : List IpAllocation) (t' : ℕ) (n' : Text) (ip' : ℕ)
      → (t' ≡ t → n' ≡ n → ip' ≡ ip → ⊥)
      → count (holds_ip t' n' ip') (write_lease now t n w ip row rows)
        ≤ count (holds_ip t' n' ip') rows
  write_lease-holds_ip none rows t' n' ip' d =
      elim (Bool-cases (holds_ip t' n' ip' (new_lease now t n w ip))) [
        | inr e ↦
            omega (arith, count-snoc_false (holds_ip t' n' ip') rows (new_lease now t n w ip) e)
        | inl e ↦
            let k = holds_ip-parts t' n' ip' (new_lease now t n w ip) e in
            absurd (d (sym k.0) (sym k.1) (sym k.2))
      ]
  write_lease-holds_ip (some a) rows t' n' ip' d =
      count-update_first-le (holds_ip t' n' ip') (lease_of t n w) (renew now ip) rows (λ x p q.
        let k = lease_of-parts t n w x p in
        let r = holds_ip-parts t' n' ip' (renew now ip x) q in
        absurd (d (sym r.0 ∙ k.0) (sym r.1 ∙ k.1) (sym r.2)))

  -- A write that the two indices accept keeps them for every tuple.
  pub write_lease-IsUnique :
      (row : Option IpAllocation) (rows : List IpAllocation)
      → IsUnique rows
      → is_unique t n w ip (write_lease now t n w ip row rows) ≡ true
      → IsUnique (write_lease now t n w ip row rows)
  write_lease-IsUnique row rows u c = record {
    one_lease = λ t' n' w'. elim (compare_tuples t n w t' n' w') [
      | same p q r ↦ rw (p, q, r) (accepted_lease c)
      | other d ↦ omega (arith, write_lease-lease_of row rows t' n' w' d, u.one_lease t' n' w')
    ];
    one_holder = λ t' n' ip'. elim (compare_tuples t n ip t' n' ip') [
      | same p q r ↦ rw (p, q, r) (accepted_holder c)
      | other d ↦ omega (arith, write_lease-holds_ip row rows t' n' ip' d, u.one_holder t' n' ip')
    ];
  }
    where
      accepted_lease :
          is_unique t n w ip (write_lease now t n w ip row rows) ≡ true
          → count (lease_of t n w) (write_lease now t n w ip row rows) ≤ 1
      accepted_lease h = ground (arith, h)

      accepted_holder :
          is_unique t n w ip (write_lease now t n w ip row rows) ≡ true
          → count (holds_ip t n ip) (write_lease now t n w ip row rows) ≤ 1
      accepted_holder h = ground (arith, h)

  -- Where the row is the one that `.first()` finds and nobody holds the address, the two indices
  -- accept the write.
  pub write_lease-is_unique :
      (rows : List IpAllocation)
      → IsUnique rows
      → count (holds_ip t n ip) rows ≡ 0
      → is_unique t n w ip (write_lease now t n w ip (first (lease_of t n w) rows) rows) ≡ true
  write_lease-is_unique rows u z = elim (Option-cases (first (lease_of t n w) rows)) [
    | inl e ↦ rw e (
        ground (
          arith,
          count-snoc (lease_of t n w) rows (new_lease now t n w ip),
          count-snoc (holds_ip t n ip) rows (new_lease now t n w ip),
          first-none-count (lease_of t n w) rows e,
          z,
        ))
    | inr (a, e) ↦ rw e (
        ground (
          arith,
          u.one_lease t n w,
          z,
          count-update_first (lease_of t n w) (lease_of t n w) (renew now ip) rows e,
          count-update_first (holds_ip t n ip) (lease_of t n w) (renew now ip) rows e,
        ))
  ]
