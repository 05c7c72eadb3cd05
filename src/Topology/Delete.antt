-- ===== src/Topology/Delete.antt =====
-- What `delete_topology` of backend/app/libs/topology/db_topology_adapter.py removes.
use devnest.Base.{
  ℕ, ◌≡◌, ◌⊎◌, refl, Bool, false, Option, none, some, List, [], ◌∷◌, any, count, first,
  first-none-count, is_empty, strip, Text, Bool-cases, inl, inr, arith,
}
use devnest.Topology.Rows.{
  TopologyRuntime, Tables, TopologyError, err, node_name, runtime_on, attachment_on,
}
use devnest.Topology.Detach.{DetachHost, blocks, others_of, delete_row, delete_topology}

others_of-count {ℓ} : {A : Type ℓ} (p : A → Bool) (xs : List A) → count p (others_of p xs) ≡ 0
others_of-count p [] = refl
others_of-count p (x ∷ xs) = elim (Bool-cases (p x)) [
  | inl e ↦ rw e (others_of-count p xs)
  | inr e ↦ rw e (rw e (others_of-count p xs))
]

any-count {ℓ} : {A : Type ℓ} (p : A → Bool) (xs : List A) → any p xs ≡ false → count p xs ≡ 0
any-count p [] h = refl
any-count p (x ∷ xs) h = ground (arith, any-count p xs)

-- Nothing is left of the topology on the node, and no attachment that went was in use.
pub record Deleted (t : ℕ) (n : Text) (db after : Tables) : Type 0 where
  pub no_attachment : count (attachment_on t n) after.attachments ≡ 0
  pub no_runtime : count (runtime_on t n) after.runtimes ≡ 0
  pub unused : count (blocks t n) db.attachments ≡ 0
  pub leases : after.allocations ≡ db.allocations

-- A deletion is refused with the tables as they were, or it leaves no attachment and no runtime of
-- the topology on the node, the leases as they were, and was asked for where every attachment was
-- detached; this holds also where the bridge cannot be removed.
pub delete_topology-Deleted :
    (host : DetachHost) (t : ℕ) (node_id : Text) (db : Tables)
    → (delete_topology host t node_id db ≡ (err TopologyError.delete_failed, db))
      ⊎ Deleted t (node_name node_id) db (delete_topology host t node_id db).1
unfolding delete_topology
delete_topology-Deleted host t node_id db = elim (Bool-cases (is_empty (strip node_id))) [
  | inl e ↦ inl (rw e)
  | inr e ↦ elim (Bool-cases (any (blocks t (node_name node_id)) db.attachments)) [
    | inl b ↦ inl (rw e (rw b))
    | inr b ↦
        inr (rw e (rw b (by_row b (first (runtime_on t (node_name node_id)) db.runtimes) refl)))
  ]
]
  where
    by_row :
        any (blocks t (node_name node_id)) db.attachments ≡ false
        → (o : Option TopologyRuntime) → first (runtime_on t (node_name node_id)) db.runtimes ≡ o
        → Deleted t (node_name node_id) db (delete_row host t (node_name node_id) db o).1
    by_row b none f = record {
      no_attachment = others_of-count (attachment_on t (node_name node_id)) db.attachments;
      no_runtime = first-none-count (runtime_on t (node_name node_id)) db.runtimes f;
      unused = any-count (blocks t (node_name node_id)) db.attachments b;
      leases = refl;
    }
    by_row b (some r) f = record {
      no_attachment = others_of-count (attachment_on t (node_name node_id)) db.attachments;
      no_runtime = others_of-count (runtime_on t (node_name node_id)) db.runtimes;
      unused = any-count (blocks t (node_name node_id)) db.attachments b;
      leases = refl;
    }
