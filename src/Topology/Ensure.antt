-- ===== src/Topology/Ensure.antt =====
-- `ensure_node_topology`, `_node_bridge_plan` and `_sync_linux_node_bridge` of
-- backend/app/libs/topology/db_topology_adapter.py. The commands on the host and the hash in the
-- default name of a bridge are parameters.
use devnest.Base.{
  ℕ, zero, suc, ◌+◌, Bool, false, not, ◌&&◌, Option, none, some, List, [], ◌∷◌, ◌++◌, if◌then◌else◌,
  leb, ◌==◌, count, first, update_first, take, strip, lower, map, is_empty, Text, text, text_eq,
}
use devnest.Topology.Net.{IpText, v4, is_filled, Ipv4Network}
use devnest.Topology.Rows.{
  TopologyRuntimeStatus, RuntimeErrorCode, TopologyRuntime, Topology, Tables, TopologyError, Result,
  ok, err, node_name, runtime_on, is_named,
}
use devnest.Topology.Lease.{Others}
use devnest.Topology.Subnet.{choose_runtime_cidr_and_gateway}

-- What `ensure_bridge_exists`, `ensure_bridge_up` and `ensure_bridge_address` lead to.
pub data BridgeResult : Type 0 where
  done : BridgeResult
  config_error os_error : Text → BridgeResult

pub record BridgeHost : Type 0 where
  pub apply_linux_bridge : Bool
  pub bridge_result : TopologyRuntime → BridgeResult
  -- `_bridge_name_for`
  pub bridge_name_for : ℕ → Text → Text

pub record BridgePlan : Type 0 where
  pub spec_cidr : IpText Ipv4Network
  pub spec_gateway_ip : IpText ℕ
  pub bridge_name : Text

-- `m.strip().lower().replace("-", "_")`, and the default mode.
abbrev spec_mode : Option Text → Text
spec_mode none = text "node_bridge"
spec_mode (some m) = map (λ c. if c == b'-' then b'_' else c) (lower (strip m))

abbrev bridge_name_of : Text → Option Text → Text
bridge_name_of default_name none = default_name
bridge_name_of default_name (some s) =
    if is_empty (strip s) then default_name else take 15 (strip s)

unfoldable pub node_bridge_plan : BridgeHost → Topology → Text → Result BridgePlan
unfolding lower
node_bridge_plan host topology node_id =
    if text_eq (spec_mode topology.mode) (text "node_bridge")
    then ok (record {
      spec_cidr = topology.cidr;
      spec_gateway_ip = topology.gateway_ip;
      bridge_name =
          bridge_name_of (host.bridge_name_for topology.topology_id node_id) topology.bridge_name;
    })
    else err TopologyError.runtime_create

unfoldable pub runtime_row_complete : TopologyRuntime → Bool
runtime_row_complete r = is_named r.bridge_name && is_filled r.cidr && is_filled r.gateway_ip

abbrev mark_runtime :
    ℕ
    → TopologyRuntimeStatus
    → Option RuntimeErrorCode
    → Option Text
    → TopologyRuntime
    → TopologyRuntime
mark_runtime now status code message r = record r {
  status = status;
  last_error_code = code;
  last_error_message = message;
  last_checked_at = some now;
  updated_at = now;
}

abbrev mark_bridge : ℕ → BridgeResult → TopologyRuntime → TopologyRuntime
mark_bridge now done r = mark_runtime now TopologyRuntimeStatus.ready none none r
mark_bridge now (config_error m) r =
    mark_runtime now TopologyRuntimeStatus.degraded (some RuntimeErrorCode.bridge_config)
      (some (take 2048 m)) r
mark_bridge now (os_error m) r =
    mark_runtime now TopologyRuntimeStatus.degraded (some RuntimeErrorCode.bridge_os)
      (some (take 2048 m)) r

-- The row after the bridge of the host has been brought in line with it.
unfoldable pub sync_linux_node_bridge : BridgeHost → ℕ → TopologyRuntime → TopologyRuntime
unfolding runtime_row_complete
sync_linux_node_bridge host now r =
    if not host.apply_linux_bridge
    then mark_runtime now TopologyRuntimeStatus.ready none none r
    else if runtime_row_complete r
    then mark_bridge now (host.bridge_result r) r
    else mark_runtime now TopologyRuntimeStatus.degraded (some RuntimeErrorCode.incomplete_runtime)
        (some (text "topology runtime missing bridge_name, cidr, or gateway_ip")) r

abbrev same_cidr : IpText Ipv4Network → IpText Ipv4Network → Bool
same_cidr (v4 a) (v4 b) = a.network_address == b.network_address && a.prefixlen == b.prefixlen
same_cidr a b = false

-- The two unique constraints at the row that was written.
abbrev accepts_runtime : ℕ → Text → Ipv4Network → List TopologyRuntime → Bool
accepts_runtime topology_id node_id net rows =
    leb (count (runtime_on topology_id node_id) rows) 1
    && leb
        (count (λ (r : TopologyRuntime). r.topology_id == topology_id && same_cidr r.cidr (v4 net))
          rows)
        1

abbrev fill {ℓ} : {A : Type ℓ} → A → IpText A → IpText A
fill a x = if is_filled x then x else v4 a

-- The columns of an existing row that are missing are filled.
abbrev fill_runtime : ℕ → Text → Ipv4Network → ℕ → TopologyRuntime → TopologyRuntime
fill_runtime now bridge_name net gateway r = record r {
  bridge_name = if is_named r.bridge_name then r.bridge_name else some bridge_name;
  cidr = fill net r.cidr;
  gateway_ip = fill gateway r.gateway_ip;
  updated_at = now;
}

module _ (now topology_id : ℕ) (node_id bridge_name : Text) where
  unfoldable pub write_runtime :
      Option TopologyRuntime → Ipv4Network × ℕ → List TopologyRuntime → List TopologyRuntime
  write_runtime none (net, gateway) rows =
      rows
      ++ record {
        topology_id = topology_id;
        node_id = node_id;
        status = TopologyRuntimeStatus.ready;
        bridge_name = some bridge_name;
        cidr = v4 net;
        gateway_ip = v4 gateway;
        last_error_code = none;
        last_error_message = none;
        last_checked_at = none;
        updated_at = now;
      }
        ∷ []
  write_runtime (some r) (net, gateway) rows =
      update_first (runtime_on topology_id node_id) (fill_runtime now bridge_name net gateway) rows

abbrev pub is_complete : Option TopologyRuntime → Bool
is_complete none = false
is_complete (some r) = runtime_row_complete r

-- A round of the loop ends it, fails, or loses against another worker.
pub data EnsureRound : Type 0 where
  settled : Tables → EnsureRound
  failed_with : TopologyError → EnsureRound
  conflict : EnsureRound

module _ (now topology_id : ℕ) (node_id : Text) (plan : BridgePlan) where
  unfoldable pub commit_runtime :
      Option TopologyRuntime → Result (Ipv4Network × ℕ) → Tables → EnsureRound
  unfolding write_runtime
  commit_runtime existing (err e) db = failed_with TopologyError.runtime_create
  commit_runtime existing (ok (net, gateway)) db =
      let rows =
        write_runtime now topology_id node_id plan.bridge_name existing (net, gateway)
          db.runtimes in
      if accepts_runtime topology_id node_id net rows
      then settled (record db { runtimes = rows })
      else conflict

  unfoldable pub ensure_round : ℕ → Tables → Tables → EnsureRound
  unfolding commit_runtime choose_runtime_cidr_and_gateway runtime_row_complete
  ensure_round attempt read db =
      let existing = first (runtime_on topology_id node_id) read.runtimes in
      if is_complete existing
      then settled db
      else commit_runtime existing
          (choose_runtime_cidr_and_gateway read.runtimes topology_id node_id existing plan.spec_cidr
            plan.spec_gateway_ip attempt)
          db

  unfoldable pub after_round :
      ℕ → Tables → Result Tables × Tables → EnsureRound → Result Tables × Tables
  after_round attempt db retry (settled db') = (ok db', db')
  after_round attempt db retry (failed_with e) = (err e, db)
  after_round attempt db retry conflict =
      if leb 16 (attempt + 1) then (err TopologyError.runtime_create, db) else retry

  unfoldable pub ensure_loop : Others → ℕ → ℕ → Tables → Result Tables × Tables
  unfolding ensure_round after_round
  ensure_loop others zero attempt db = (ok db, db)
  ensure_loop others (suc rounds) attempt db =
      let read = others.before attempt db in
      let met = others.during attempt read in
      let retry = ensure_loop others rounds (attempt + 1) met in
      after_round attempt met retry (ensure_round attempt read met)

-- The row is found, and the bridge is brought in line with it.
unfoldable pub sync_runtime : BridgeHost → ℕ → ℕ → Text → Tables → Result TopologyRuntime × Tables
unfolding sync_linux_node_bridge
sync_runtime host now topology_id node_id db =
    elim (first (runtime_on topology_id node_id) db.runtimes) [
      | none ↦ (err TopologyError.runtime_create, db)
      | some r ↦ (
        ok (sync_linux_node_bridge host now r),
        record db {
          runtimes =
              update_first (runtime_on topology_id node_id) (sync_linux_node_bridge host now)
                db.runtimes;
        },
      )
    ]

unfoldable pub sync_after :
    BridgeHost → ℕ → ℕ → Text → Result Tables × Tables → Result TopologyRuntime × Tables
unfolding sync_runtime
sync_after host now topology_id node_id (err e, db) = (err e, db)
sync_after host now topology_id node_id (ok db', db) = sync_runtime host now topology_id node_id db'

unfoldable pub ensure_row :
    BridgeHost
    → Others
    → ℕ
    → ℕ
    → Text
    → BridgePlan
    → Tables
    → Option TopologyRuntime
    → Result TopologyRuntime × Tables
unfolding ensure_loop sync_after sync_runtime runtime_row_complete
ensure_row host others now topology_id node_id plan db existing =
    if is_complete existing
    then sync_runtime host now topology_id node_id db
    else sync_after host now topology_id node_id
        (ensure_loop now topology_id node_id plan others 16 0 db)

-- A complete row is left as it is, and only the bridge is brought in line.
unfoldable pub ensure_planned :
    BridgeHost
    → Others
    → ℕ
    → ℕ
    → Text
    → Tables
    → Result BridgePlan
    → Result TopologyRuntime × Tables
unfolding ensure_row
ensure_planned host others now topology_id node_id db (err e) = (err e, db)
ensure_planned host others now topology_id node_id db (ok plan) =
    ensure_row host others now topology_id node_id plan db
      (first (runtime_on topology_id node_id) db.runtimes)

unfoldable pub ensure_node_topology :
    BridgeHost → Others → List Topology → ℕ → ℕ → Text → Tables → Result TopologyRuntime × Tables
unfolding ensure_planned node_name node_bridge_plan
ensure_node_topology host others topologies now topology_id node_id db =
    if is_empty (strip node_id)
    then (err TopologyError.runtime_create, db)
    else elim (first (λ (t : Topology). t.topology_id == topology_id) topologies) [
      | none ↦ (err TopologyError.runtime_create, db)
      | some topology ↦
          ensure_planned host others now topology_id (node_name node_id) db
            (node_bridge_plan host topology (node_name node_id))
    ]
