-- ===== src/Topology/AttachSteps.antt =====
-- How the steps of `attach_workspace` of backend/app/libs/topology/db_topology_adapter.py end.
use devnest.Base.{
  ℕ, ◌≡◌, ◌⊎◌, refl, ap, ◌∙◌, Bool, true, not, ◌&&◌, Option, none, some, ◌==◌, first, first-snoc,
  first-update_first, first-keeps, Text, text_eq_refl, Bool-cases, inl, inr, arith,
}
use devnest.Topology.Rows.{
  TopologyError, TopologyAttachmentStatus, TopologyRuntime, IpAllocation, TopologyAttachment,
  Tables, Result, ok, err, is_attached, active_lease_of, attachment_of,
}
use devnest.Topology.Attach.{
  AttachHost, set_status, mark_attachment, attach_failure_best_effort, write_attaching,
  finish_attach, start_attach, text_is, lease_is_ip, ip_is, release_if_same,
}

module _ (now t : ℕ) (n : Text) (w ip : ℕ) (cid : Text) where
  abbrev pub row_of : Tables → Option TopologyAttachment
  row_of db = first (attachment_of t n w) db.attachments

  abbrev pub has_lease : Tables → Bool
  has_lease db = lease_is_ip now t n w ip cid (first (active_lease_of t n w) db.allocations)

  -- The workspace is attached with the address, to the container, and has the lease.
  pub record Attached (db : Tables) : Type 0 where
    pub row : TopologyAttachment
    pub found : first (attachment_of t n w) db.attachments ≡ some row
    pub attached : is_attached row.status ≡ true
    pub address : ip_is now t n w ip cid row.workspace_ip ≡ true
    pub container : text_is now t n w ip cid cid row.container_id ≡ true
    pub lease : lease_is_ip now t n w ip cid (first (active_lease_of t n w) db.allocations) ≡ true

  pub record Failed (db : Tables) : Type 0 where
    pub row : TopologyAttachment
    pub found : first (attachment_of t n w) db.attachments ≡ some row
    pub failed : row.status ≡ TopologyAttachmentStatus.failed

  -- The row stands as the call has committed it: ATTACHING, or ATTACHED where the check that follows
  -- raised, with the address, the container and the lease.
  pub record Stranded (db : Tables) : Type 0 where
    pub row : TopologyAttachment
    pub found : first (attachment_of t n w) db.attachments ≡ some row
    pub status :
        (row.status ≡ TopologyAttachmentStatus.attaching)
        ⊎ (row.status ≡ TopologyAttachmentStatus.attached)
    pub address : row.workspace_ip ≡ some ip
    pub container : row.container_id ≡ some cid
    pub lease : has_lease db ≡ true

  abbrev pub AnswerEnds : Tables → Tables → Result ℕ → Type 0
  AnswerEnds before after (ok i) = (i ≡ ip) × Attached after
  AnswerEnds before after (err e) =
      (after ≡ before) ⊎ (Failed after ⊎ ((e ≡ TopologyError.os_error) × Stranded after))

  marked :
      (status : TopologyAttachmentStatus) (db : Tables) (a : TopologyAttachment)
      → row_of db ≡ some a
      → row_of (mark_attachment now t n w ip cid status db) ≡ some (set_status now status a)
  marked status db a e =
      first-update_first (attachment_of t n w) (attachment_of t n w) (set_status now status)
        db.attachments (λ y q. q) e (first-keeps (attachment_of t n w) db.attachments e)

  release_if_same-attachments :
      (o : Option IpAllocation) (db : Tables)
      → (release_if_same now t n w ip cid o db).attachments ≡ db.attachments
  release_if_same-attachments none db = refl
  release_if_same-attachments (some a) db = elim (Bool-cases (a.ip == ip)) [
    | inl e ↦ rw e
    | inr e ↦ rw e
  ]

  failure-Failed :
      (host : AttachHost) (release : Bool) (db : Tables) (a : TopologyAttachment)
      → host.persists_failed ≡ true
      → row_of db ≡ some a
      → Failed (attach_failure_best_effort now t n w ip cid host release db)
  unfolding attach_failure_best_effort
  failure-Failed host release db a p e =
      let db1 = mark_attachment now t n w ip cid TopologyAttachmentStatus.failed db in
      let m = marked TopologyAttachmentStatus.failed db a e in
      rw p (elim (Bool-cases (release && host.persists_release)) [
        | inl b ↦ rw b (record {
          row = set_status now TopologyAttachmentStatus.failed a;
          found =
              ap (first (attachment_of t n w))
                (release_if_same-attachments (first (active_lease_of t n w) db1.allocations) db1)
              ∙ m;
          failed = refl;
        })
        | inr b ↦ rw b (record {
          row = set_status now TopologyAttachmentStatus.failed a;
          found = m;
          failed = refl;
        })
      ])

  finish_attach-Ends :
      (host : AttachHost) (new : Bool) (before db : Tables) (a : TopologyAttachment)
      → host.persists_failed ≡ true
      → row_of db ≡ some a
      → a.status ≡ TopologyAttachmentStatus.attaching
      → a.workspace_ip ≡ some ip
      → a.container_id ≡ some cid
      → has_lease db ≡ true
      → AnswerEnds before
          (finish_attach now t n w ip cid host new db).tables
          (finish_attach now t n w ip cid host new db).answer
  unfolding finish_attach
  finish_attach-Ends host new before db a p e st i c l =
      let m = marked TopologyAttachmentStatus.attached db a e in
      let attached = mark_attachment now t n w ip cid TopologyAttachmentStatus.attached db in
      elim (Bool-cases (host.apply_linux_attachment && not host.linux_attached)) [
        | inl b ↦ rw b (elim (Bool-cases host.linux_os_error) [
          | inl o ↦ rw o (
              inr (
                inr (
                  refl,
                  record {
                    row = a;
                    found = e;
                    status = inl st;
                    address = i;
                    container = c;
                    lease = l;
                  },
                )))
          | inr o ↦ rw o (inr (inl (failure-Failed host new db a p e)))
        ])
        | inr b ↦ rw b (elim (Bool-cases (not host.persists_attached)) [
          | inl k ↦ rw k (inr (inl (failure-Failed host new db a p e)))
          | inr k ↦
              rw k
                (elim (Bool-cases (host.apply_linux_attachment && host.plumbing_os_error_after)) [
                  | inl o ↦ rw o (
                      inr (
                        inr (
                          refl,
                          record {
                            row = set_status now TopologyAttachmentStatus.attached a;
                            found = m;
                            status = inr refl;
                            address = i;
                            container = c;
                            lease = l;
                          },
                        )))
                  | inr o ↦
                      rw o
                        (elim (Bool-cases
                          (host.apply_linux_attachment && not host.plumbing_ok_after)) [
                            | inl q ↦ rw q (
                                inr (
                                  inl (
                                    failure-Failed host new attached
                                      (set_status now TopologyAttachmentStatus.attached a) p m)))
                            | inr q ↦ rw q (
                              refl,
                              record {
                                row = set_status now TopologyAttachmentStatus.attached a;
                                found = m;
                                attached = refl;
                                address = rw i (ground arith);
                                container = rw c (text_eq_refl cid);
                                lease = l;
                              },
                            )
                          ])
                ])
        ])
      ]

  -- The row that is written before the commands run.
  record Written (db after : Tables) : Type 0 where
    row : TopologyAttachment
    found : first (attachment_of t n w) after.attachments ≡ some row
    status : row.status ≡ TopologyAttachmentStatus.attaching
    address : row.workspace_ip ≡ some ip
    container : row.container_id ≡ some cid
    leases : after.allocations ≡ db.allocations

  write_attaching-Written :
      (r : TopologyRuntime) (host_if ctr_if : Text) (db : Tables) (o : Option TopologyAttachment)
      → row_of db ≡ o
      → Written db (write_attaching now t n w ip cid r (host_if, ctr_if) o db)
  write_attaching-Written r host_if ctr_if db none e = record {
    row = _;
    found = first-snoc (attachment_of t n w) db.attachments _ e (ground (arith, text_eq_refl n));
    status = refl;
    address = refl;
    container = refl;
    leases = refl;
  }
  write_attaching-Written r host_if ctr_if db (some a) e = record {
    row = _;
    found =
        first-update_first (attachment_of t n w) (attachment_of t n w) _ db.attachments (λ y q. q) e
          (first-keeps (attachment_of t n w) db.attachments e);
    status = refl;
    address = refl;
    container = refl;
    leases = refl;
  }

  pub start_attach-Ends :
      (host : AttachHost) (r : TopologyRuntime) (db : Tables)
      → host.persists_failed ≡ true
      → has_lease db ≡ true
      → AnswerEnds db
          (start_attach now t n w ip cid host r (row_of db) db).tables
          (start_attach now t n w ip cid host r (row_of db) db).answer
  unfolding start_attach
  start_attach-Ends host r db p l = elim (Bool-cases host.persists_attaching) [
    | inr b ↦ rw b (inl refl)
    | inl b ↦
        let names = host.veth_pair_names t n w in
        let v = write_attaching-Written r names.0 names.1 db (row_of db) refl in
        rw b (
          finish_attach-Ends host _ db _ v.row p v.found v.status v.address v.container (
            ap (λ rows. lease_is_ip now t n w ip cid (first (active_lease_of t n w) rows)) v.leases
            ∙ l))
  ]
