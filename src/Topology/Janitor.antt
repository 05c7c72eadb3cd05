-- ===== src/Topology/Janitor.antt =====
-- What `run_topology_janitor` of backend/app/libs/topology/db_topology_adapter.py leaves behind.
use devnest.Base.{
  ℕ, ◌≡◌, ◌⊎◌, refl, ap, sym, ◌∙◌, Bool, true, Option, none, List, [], ◌∷◌, map, ◌==◌, any, first,
  select, Text, Bool-cases, inl, inr, arith,
}
use mathlib.Core.Path.{subst}
use devnest.Model.Enums.{WorkspaceStatus}
use devnest.Topology.Rows.{
  IpAllocation, Tables, Result, ok, err, node_name, active_lease_on, active_lease_of, attachment_of,
}
use devnest.Topology.Lease.{release_workspace_ip_lease}
use devnest.Topology.Settled.{IsSettled, Kept, release_orphans-Kept, detach_answer, detach-Kept}
use devnest.Topology.LeaseLaws.{IsUnique}
use devnest.Topology.Detach.{
  DetachHost, detach_row, detach_workspace, detach_each, after_detach, release_orphans,
  leased_workspaces, stuck_workspaces, drifted_workspaces, janitor_on, run_topology_janitor,
}

module _ (host : DetachHost) (now t : ℕ) (n : Text) (stable : node_name n ≡ n) where
  detach_step :
      (v m : ℕ) (db : Tables)
      → after_detach host now t n v m (detach_workspace host now t n v db)
        ≡ detach_answer now t n v m
            (detach_row host now t n v db (first (attachment_of t n v) db.attachments))
  unfolding detach_workspace release_workspace_ip_lease
  detach_step v m db =
      same (detach_workspace host now t n v db)
      ∙ ap
          (λ k.
            detach_answer now t k v m
              (detach_row host now t k v db (first (attachment_of t k v) db.attachments)))
          stable
    where
      same :
          (x : Result Bool × Tables)
          → after_detach host now t n v m x ≡ detach_answer now t (node_name n) v m x
      same (err e, db') = refl
      same (ok b, db') = refl

  detach_each-Kept :
      (ws : List ℕ) (m : ℕ) (db : Tables)
      → IsUnique db.allocations
      → Kept now t n db (detach_each host now t n ws m db).1
  unfolding detach_each
  detach_each-Kept [] m db u = record { unique = u; settled = λ w s. s }
  detach_each-Kept (v ∷ ws) m db u =
      let row = first (attachment_of t n v) db.attachments in
      let step = detach-Kept now t n host v m db row u in
      let out = detach_answer now t n v m (detach_row host now t n v db row) in
      let rest = detach_each-Kept ws out.0 out.1 step.unique in
      subst (λ (x : ℕ × Tables). Kept now t n db (detach_each host now t n ws x.0 x.1).1)
        (sym (detach_step v m db))
        (record { unique = rest.unique; settled = λ w s. rest.settled w (step.settled w s) })

leased-listed :
    (t : ℕ) (n : Text) (w : ℕ) (rows : List IpAllocation)
    → (first (active_lease_of t n w) rows ≡ none)
      ⊎ (any
            (λ v. v == w)
            (map (λ (a : IpAllocation). a.workspace_id) (select (active_lease_on t n) rows))
          ≡ true)
leased-listed t n w [] = inl refl
leased-listed t n w (a ∷ rows) = elim (leased-listed t n w rows) [
  | inr y ↦ inr (in_rest y)
  | inl e ↦ elim (Bool-cases (active_lease_of t n w a)) [
    | inl b ↦ inr (in_head b)
    | inr b ↦ inl (rw b e)
  ]
]
  where
    in_rest :
        any
            (λ v. v == w)
            (map (λ (b : IpAllocation). b.workspace_id) (select (active_lease_on t n) rows))
          ≡ true
        → any
            (λ v. v == w)
            (map (λ (b : IpAllocation). b.workspace_id) (select (active_lease_on t n) (a ∷ rows)))
          ≡ true
    in_rest y = elim (Bool-cases (active_lease_on t n a)) [
      | inl c ↦ rw c (ground (arith, y))
      | inr c ↦ rw c y
    ]

    in_head :
        active_lease_of t n w a ≡ true
        → any
            (λ v. v == w)
            (map (λ (b : IpAllocation). b.workspace_id) (select (active_lease_on t n) (a ∷ rows)))
          ≡ true
    in_head b =
        let on : active_lease_on t n a ≡ true = ground (arith, b) in
        let eq : a.workspace_id == w ≡ true = ground (arith, b) in rw on (rw eq)

-- After a run of the janitor every active lease of the node belongs to a workspace whose attachment
-- is attached, whatever the commands on the host answer; and the unique indices hold still. The
-- name of the node is one that `strip` and the cut leave alone.
pub run_topology_janitor-IsSettled :
    (host : DetachHost) (now t : ℕ) (n : Text) (stale : ℕ) (status_of : ℕ → Option WorkspaceStatus)
    (db : Tables)
    → node_name n ≡ n
    → IsUnique db.allocations
    → IsUnique (run_topology_janitor host now t n stale status_of db).1.allocations
      × ((w : ℕ) → IsSettled t n (run_topology_janitor host now t n stale status_of db).1 w)
unfolding run_topology_janitor
run_topology_janitor-IsSettled host now t n stale status_of db stable u = rw stable (on_node)
  where
    on_node :
        IsUnique (janitor_on host now t n stale status_of db).1.allocations
        × ((w : ℕ) → IsSettled t n (janitor_on host now t n stale status_of db).1 w)
    on_node =
        let first_pass =
          detach_each-Kept host now t n stable (stuck_workspaces host now t n stale status_of db) 0
            db u in
        let db1 =
          (detach_each host now t n (stuck_workspaces host now t n stale status_of db) 0 db).1 in
        let leased = leased_workspaces host now t n stale status_of db1 in
        let second = release_orphans-Kept now t n host leased 0 db1 stable first_pass.unique in
        let db2 = (release_orphans host now t n leased 0 db1).1 in
        let third =
          detach_each-Kept host now t n stable (drifted_workspaces host now t n stale status_of db2)
            0 db2 second.0.unique in
        (
          third.unique,
          λ w. third.settled w (elim (leased-listed t n w db1.allocations) [
            | inl e ↦ second.0.settled w (inl e)
            | inr y ↦ second.1 w y
          ]),
        )
