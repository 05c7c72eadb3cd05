-- ===== src/Topology/AttachLaws.antt =====
-- How `attach_workspace` of backend/app/libs/topology/db_topology_adapter.py ends.
use devnest.Base.{
  List, take, strip, is_empty, ℕ, ◌≡◌, ◌⊎◌, refl, true, ◌&&◌, Option, none, some, first, Text,
  Bool-cases, inl, inr, arith,
}
use devnest.Topology.Rows.{
  TopologyError, Topology, node_name, runtime_on, TopologyRuntime, TopologyAttachment, Tables,
  Result, ok, err, is_ready, is_named,
}
use devnest.Topology.Net.{is_filled}
use devnest.Topology.Lease.{Others}
use devnest.Topology.Ensure.{BridgeHost, ensure_node_topology}
use devnest.Topology.Attach.{
  attach_workspace, attach_ensured, AttachHost, in_place, attach_on, in_cidr, netns_accepted,
}
use devnest.Topology.AttachSteps.{row_of, has_lease, Attached, AnswerEnds, start_attach-Ends}

module _ (now t : ℕ) (n : Text) (w ip : ℕ) (cid : Text) where
  -- What a call does once the network of the node is ready.
  attach_on-Ends :
      (host : AttachHost) (netns_ref : Text) (db : Tables) (runtime : Option TopologyRuntime)
      → host.persists_failed ≡ true
      → AnswerEnds now t n w ip cid db
          (attach_on now t n w ip cid host netns_ref db runtime).tables
          (attach_on now t n w ip cid host netns_ref db runtime).answer
  unfolding attach_on
  attach_on-Ends host netns_ref db none p = inl refl
  attach_on-Ends host netns_ref db (some r) p = elim (Bool-cases (is_ready r.status)) [
    | inr b ↦ rw b (inl refl)
    | inl b ↦
        rw b
          (elim (Bool-cases
            (is_named r.bridge_name && is_filled r.cidr && is_filled r.gateway_ip)) [
              | inr c ↦ rw c (inl refl)
              | inl c ↦
                  rw c
                    (elim (Bool-cases
                      (has_lease now t n w ip cid db && in_cidr now t n w ip cid r.cidr)) [
                        | inr d ↦ rw d (inl refl)
                        | inl d ↦
                            rw d
                              (elim (Bool-cases (netns_accepted now t n w ip cid host netns_ref)) [
                                | inr e ↦ rw e (inl refl)
                                | inl e ↦
                                    rw e
                                      (elim (Bool-cases (
                                        in_place now t n w ip cid host
                                          (row_of now t n w ip cid db))) [
                                            | inr f ↦ rw f (
                                                start_attach-Ends now t n w ip cid host r db p
                                                  (leased d))
                                            | inl f ↦ rw f (
                                              refl,
                                              settled (row_of now t n w ip cid db) refl f
                                                  (leased d),
                                            )
                                          ])
                              ])
                      ])
            ])
  ]
    where
      leased :
          has_lease now t n w ip cid db && in_cidr now t n w ip cid r.cidr ≡ true
          → has_lease now t n w ip cid db ≡ true
      leased d = ground (arith, d)

      settled :
          (o : Option TopologyAttachment)
          → row_of now t n w ip cid db ≡ o
          → in_place now t n w ip cid host o ≡ true
          → has_lease now t n w ip cid db ≡ true
          → Attached now t n w ip cid db
      settled none e f l = absurd (ground (arith, f))
      settled (some a) e f l = record {
        row = a;
        found = e;
        attached = ground (arith, f);
        address = ground (arith, f);
        container = ground (arith, f);
        lease = l;
      }

-- An attach ends in one of four ways, whatever the commands on the host answer and whichever commits
-- fail, if the row can be marked as failed. It returns the address, and then the workspace is
-- attached with it, to the container, and has the lease; it fails with the tables as they were, or
-- as making the network of the node ready has left them; it fails with the attachment marked as
-- failed; or an `OSError` of a command leaves the attachment as it was committed last.
pub attach_workspace-Ends :
    (bridge : BridgeHost) (host : AttachHost) (others : Others) (topologies : List Topology)
    (now t : ℕ) (node_id : Text) (w : ℕ) (cid netns_ref : Text) (ip : ℕ) (db : Tables)
    → host.persists_failed ≡ true
    → let n = node_name node_id in
      let out =
        attach_workspace bridge host others topologies now t node_id w cid netns_ref ip db in
      ((out.tables ≡ db) × (out.answer ≡ err TopologyError.attachment_failed))
      ⊎ AnswerEnds now t n w ip
          (take 128 (strip cid))
          (ensure_node_topology bridge others topologies now t n db).1
          out.tables
          out.answer
unfolding attach_workspace attach_ensured
attach_workspace-Ends bridge host others topologies now t node_id w cid netns_ref ip db p =
    elim (Bool-cases (is_empty (strip cid))) [
      | inl e ↦ rw e (inl (refl, refl))
      | inr e ↦ rw e (
          inr
            (ensured (ensure_node_topology bridge others topologies now t (node_name node_id) db)))
    ]
  where
    ensured :
        (x : Result TopologyRuntime × Tables)
        → AnswerEnds now t
            (node_name node_id)
            w
            ip
            (take 128 (strip cid))
            x.1
            (attach_ensured host now t
              (node_name node_id)
              w
              (take 128 (strip cid))
              netns_ref
              ip
              x).tables
            (attach_ensured host now t
              (node_name node_id)
              w
              (take 128 (strip cid))
              netns_ref
              ip
              x).answer
    ensured (err e, d) = inl refl
    ensured (ok r, d) =
        attach_on-Ends now t (node_name node_id) w ip (take 128 (strip cid)) host netns_ref d
          (first (runtime_on t (node_name node_id)) d.runtimes) p
