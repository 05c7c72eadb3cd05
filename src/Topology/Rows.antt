-- ===== src/Topology/Rows.antt =====
-- backend/app/libs/topology/models and errors.py. A column with an address or a network holds what
-- `ipaddress` reads in it.
use devnest.Base.{
  ◌+◌, [], ◌∷◌, ℕ, Bool, true, false, not, is_empty, ◌&&◌, Option, none, some, List, Text, text_eq,
  strip, take, ◌==◌,
}
use devnest.Topology.Net.{IpText, Ipv4Network}

pub data TopologyRuntimeStatus : Type 0 where
  ready degraded failed deleting : TopologyRuntimeStatus

pub data TopologyAttachmentStatus : Type 0 where
  attaching attached detaching detached failed : TopologyAttachmentStatus

pub data RuntimeErrorCode : Type 0 where
  incomplete_runtime bridge_config bridge_os : RuntimeErrorCode

pub record TopologyRuntime : Type 0 where
  pub topology_id : ℕ
  pub node_id : Text
  pub status : TopologyRuntimeStatus
  pub bridge_name : Option Text
  pub cidr : IpText Ipv4Network
  pub gateway_ip : IpText ℕ
  pub last_error_code : Option RuntimeErrorCode
  pub last_error_message : Option Text
  pub last_checked_at : Option ℕ
  pub updated_at : ℕ

pub record IpAllocation : Type 0 where
  pub node_id : Text
  pub topology_id : ℕ
  pub workspace_id : ℕ
  pub ip : ℕ
  pub leased_at : ℕ
  pub released_at : Option ℕ

pub record TopologyAttachment : Type 0 where
  pub topology_id : ℕ
  pub node_id : Text
  pub workspace_id : ℕ
  pub container_id : Option Text
  pub status : TopologyAttachmentStatus
  pub workspace_ip : Option ℕ
  pub interface_host : Option Text
  pub interface_container : Option Text
  pub bridge_name : Option Text
  pub gateway_ip : Option ℕ
  pub updated_at : ℕ

-- A topology with what `spec_json` says under the keys that the code reads, the texts stripped.
pub record Topology : Type 0 where
  pub topology_id : ℕ
  pub mode : Option Text
  pub cidr : IpText Ipv4Network
  pub gateway_ip : IpText ℕ
  pub bridge_name : Option Text

pub record Tables : Type 0 where
  pub runtimes : List TopologyRuntime
  pub allocations : List IpAllocation
  pub attachments : List TopologyAttachment

-- The exceptions of the adapter; `value_error` and `os_error` are Python's own.
pub data TopologyError : Type 0 where
  runtime_create runtime_not_found ip_allocation attachment_failed detach_failed delete_failed
        value_error os_error :
      TopologyError

pub data Result {ℓ} (A : Type ℓ) : Type ℓ where
  ok : A → Result A
  err : TopologyError → Result A

-- `node_id.strip()[:128]`
unfoldable pub node_name : Text → Text
node_name node_id = take 128 (strip node_id)

-- The tests of the queries.
abbrev pub is_ready : TopologyRuntimeStatus → Bool
is_ready TopologyRuntimeStatus.ready = true
is_ready _ = false

abbrev pub is_detached : TopologyAttachmentStatus → Bool
is_detached TopologyAttachmentStatus.detached = true
is_detached _ = false

abbrev pub is_attached : TopologyAttachmentStatus → Bool
is_attached TopologyAttachmentStatus.attached = true
is_attached _ = false

abbrev pub is_null {ℓ} : {A : Type ℓ} → Option A → Bool
is_null none = true
is_null (some a) = false

abbrev pub runtime_on : ℕ → Text → TopologyRuntime → Bool
runtime_on topology_id node_id r = r.topology_id == topology_id && text_eq r.node_id node_id

abbrev pub lease_on : ℕ → Text → IpAllocation → Bool
lease_on topology_id node_id a = a.topology_id == topology_id && text_eq a.node_id node_id

abbrev pub active_lease_on : ℕ → Text → IpAllocation → Bool
active_lease_on topology_id node_id a = lease_on topology_id node_id a && is_null a.released_at

abbrev pub lease_of : ℕ → Text → ℕ → IpAllocation → Bool
lease_of topology_id node_id workspace_id a =
    lease_on topology_id node_id a && a.workspace_id == workspace_id

-- The tuple of the partial unique index.
abbrev pub holds_ip : ℕ → Text → ℕ → IpAllocation → Bool
holds_ip topology_id node_id ip a = active_lease_on topology_id node_id a && a.ip == ip

abbrev pub attachment_of : ℕ → Text → ℕ → TopologyAttachment → Bool
attachment_of topology_id node_id workspace_id a =
    (a.topology_id == topology_id && text_eq a.node_id node_id) && a.workspace_id == workspace_id

abbrev pub attachment_on : ℕ → Text → TopologyAttachment → Bool
attachment_on topology_id node_id a = a.topology_id == topology_id && text_eq a.node_id node_id

abbrev pub active_lease_of : ℕ → Text → ℕ → IpAllocation → Bool
active_lease_of topology_id node_id workspace_id a =
    lease_of topology_id node_id workspace_id a && is_null a.released_at

-- `sum(map(ord, node_id))`
abbrev pub sum_codes : Text → ℕ
sum_codes [] = 0
sum_codes (c ∷ s) = c + sum_codes s

-- `x and str(x).strip()`
abbrev pub is_named : Option Text → Bool
is_named none = false
is_named (some s) = not (is_empty (strip s))
