-- ===== src/Orchestrator/Cleaned.antt =====
-- What a bring-up of backend/app/services/orchestrator_service/service.py that fails leaves in the
-- tables of backend/app/libs/topology/db_topology_adapter.py.
use devnest.Base.{ℕ, ◌≡◌, ◌⊎◌, Bool, true, false, Option, none, some, List, Text, strip, inl, inr}
use mathlib.Core.Path.{subst}
use devnest.Worker.State.{WorkspaceBringUpResult}
use devnest.Topology.Rows.{Tables}
use devnest.Topology.LeaseLaws.{IsUnique}
use devnest.Topology.Allocate.{KeepLeases}
use devnest.Orchestrator.Adapters.{bring_up_error, Outcome, gives, throws, Returns}
use devnest.Orchestrator.Texts.{parse_topology_workspace_id}
use devnest.Orchestrator.Stop.{Service}
use devnest.Orchestrator.Rollback.{bring_up_workspace_runtime}
use devnest.Orchestrator.Plain.{RaisesPlain, AdaptersPlain}
use devnest.Orchestrator.Undone.{Undone, BringUpEnds, Reported}
use devnest.Orchestrator.Ended.{bring_up_workspace_runtime-Ends}
use devnest.Orchestrator.OnTables.{DbTopology, on_tables}
use devnest.Orchestrator.Clean.{IsClean, Leased, on_tables-Keep}
use devnest.Orchestrator.CleanLaws.{Stopped, stop_workspace_runtime-Stopped}

-- The project's directory raises its own exceptions.
abbrev pub DirectoryPlain : {E : Type 0} → Service E → Type 0
DirectoryPlain {E} self =
    (i : Text) (k : Option Text) (b : Bool) (e : E)
    → RaisesPlain (self.workspace_host.ensure_workspace_project_dir i k b e)

beside-RaisesPlain :
    {E V A : Type 0} (x : Outcome A) (e : E) (v : V) → RaisesPlain (x, e) → RaisesPlain (x, v)
beside-RaisesPlain (gives a) e v p = tt
beside-RaisesPlain (throws (bring_up_error m r)) e v p = p
beside-RaisesPlain (throws f) e v p = tt

module _ {E : Type 0} (p : DbTopology) (self : Service E) where
  on_tables-Plain : DirectoryPlain self → AdaptersPlain (on_tables p self)
  unfolding on_tables
  on_tables-Plain plain = record {
    release = λ t n i w. tt;
    project_dir = λ i k b w.
        beside-RaisesPlain (self.workspace_host.ensure_workspace_project_dir i k b w.1).0
          (self.workspace_host.ensure_workspace_project_dir i k b w.1).1 _ (plain i k b w.1);
  }

  -- Where a rollback is reported as successful, nothing is left of the workspace.
  abbrev pub CleanIf : ℕ → Option Bool → Tables × E → Type 0
  CleanIf ws_int (some true) (db, e) = IsClean self.topology_id self.node_id ws_int db
  CleanIf ws_int (some false) w = Unit
  CleanIf ws_int none w = Unit

  abbrev pub Cleaned : ℕ → Outcome WorkspaceBringUpResult × (Tables × E) → Type 0
  Cleaned ws_int (gives r, w) =
      ((r.success ≡ true) ⊎ (r.rollback_attempted ≡ true)) × CleanIf ws_int r.rollback_succeeded w
  Cleaned ws_int (throws (bring_up_error m rb), w) = CleanIf ws_int rb.rollback_succeeded w
  Cleaned ws_int (throws f, w) = Unit

  Undone-IsClean :
      (wid : Text) (ws_int : ℕ) (w : Tables × E)
      → strip wid ≡ wid
      → parse_topology_workspace_id wid ≡ gives ws_int
      → Undone Leased (on_tables p self) wid w
      → IsClean self.topology_id self.node_id ws_int w.0
  Undone-IsClean wid ws_int w stable parsed u = settled (
      subst (Returns (Stopped p self ws_int)) u.stopped (
        stop_workspace_runtime-Stopped p self wid u.container_id ws_int u.before stable parsed
          u.invariant))
    where
      settled :
          (u.result.success ≡ false) ⊎ IsClean self.topology_id self.node_id ws_int w.0
          → IsClean self.topology_id self.node_id ws_int w.0
      settled (inl f) = absurd (cc (u.success, f))
      settled (inr c) = c

  Reported-CleanIf :
      (wid : Text) (ws_int : ℕ) (o : Option Bool) (w : Tables × E)
      → strip wid ≡ wid
      → parse_topology_workspace_id wid ≡ gives ws_int
      → Reported Leased (on_tables p self) wid o w
      → CleanIf ws_int o w
  Reported-CleanIf wid ws_int (some true) w stable parsed u =
      Undone-IsClean wid ws_int w stable parsed u
  Reported-CleanIf wid ws_int (some false) w stable parsed u = tt
  Reported-CleanIf wid ws_int none w stable parsed u = tt

  ends-Cleaned :
      (wid : Text) (ws_int : ℕ) (x : Outcome WorkspaceBringUpResult × (Tables × E))
      → strip wid ≡ wid
      → parse_topology_workspace_id wid ≡ gives ws_int
      → BringUpEnds Leased (on_tables p self) wid x
      → Cleaned ws_int x
  ends-Cleaned wid ws_int (gives r, w) stable parsed h =
      (h.0, Reported-CleanIf wid ws_int r.rollback_succeeded w stable parsed h.1)
  ends-Cleaned wid ws_int (throws (bring_up_error m rb), w) stable parsed h =
      Reported-CleanIf wid ws_int rb.rollback_succeeded w stable parsed h
  ends-Cleaned wid ws_int (throws f, w) stable parsed h = tt

  -- A bring-up of a workspace on the tables of the topology, from leases that are unique, returns
  -- with success or after a rollback; and where its result or its exception reports that the
  -- rollback has succeeded, the workspace has no active lease and no attachment that is attached on
  -- the node. The id has no spaces around it, the other workers keep the unique indices, and the
  -- project's directory raises no error of a bring-up that reports a rollback.
  pub bring_up_workspace_runtime-Cleaned :
      (wid : Text) (key version : Option Text) (cpu mem pids : Option ℕ) (env : List (Text × Text))
      (launch_mode : Option Text) (ws_int : ℕ) (db : Tables) (e : E)
      → KeepLeases p.others
      → DirectoryPlain self
      → strip wid ≡ wid
      → parse_topology_workspace_id wid ≡ gives ws_int
      → IsUnique db.allocations
      → Cleaned ws_int (
          bring_up_workspace_runtime
            (on_tables p self)
            wid
            key
            version
            cpu
            mem
            pids
            env
            launch_mode
            (db, e))
  bring_up_workspace_runtime-Cleaned wid key version cpu mem pids env launch_mode ws_int db e others
        plain stable parsed unique =
      ends-Cleaned wid ws_int _ stable parsed (
        subst
          (λ i. BringUpEnds Leased (on_tables p self) i (
            bring_up_workspace_runtime (on_tables p self) wid key version cpu mem pids env
              launch_mode (db, e)))
          stable
          (bring_up_workspace_runtime-Ends Leased (on_tables p self) (on_tables-Keep p self others)
            (on_tables-Plain plain) wid key version cpu mem pids env launch_mode (db, e) unique))
