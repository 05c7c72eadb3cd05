-- ===== src/Orchestrator/Context.antt =====
-- What `bring_up_workspace_runtime` of backend/app/services/orchestrator_service/service.py prepares:
-- the context, the limits and the environment of the container.
use devnest.Base.{
  ℕ, Bool, true, not, ◌||◌, Option, none, some, List, [], ◌∷◌, if◌then◌else◌, ◌==◌, Text, text,
  text_eq, is_empty, strip, stripped, lower, nonempty, or_else,
}
use devnest.Worker.State.{WorkspaceBringUpResult}
use devnest.Orchestrator.Adapters.{
  Failure, value_error, bring_up_error, Outcome, gives, throws, M, pure, follow,
}
use devnest.Orchestrator.Texts.{sanitize_container_name, parse_topology_workspace_id, no_rollback}
use devnest.Orchestrator.Stop.{BringUpSettings, Service, or_text}

pub record BringUpContext : Type 0 where
  pub wid : Text
  pub ws_int : ℕ
  pub container_name : Text
  pub workspace_host_path : Text
  pub project_storage_key : Option Text
  pub launch_mode : Text
  pub labels : List (Text × Text)

-- The limits and the security options that are applied to the container.
pub record AppliedPolicy : Type 0 where
  pub cpu_limit_cores : ℕ
  pub memory_limit_mib : ℕ
  pub pids_limit : ℕ
  pub security_options : Text

abbrev pub refuse : Text → Failure
refuse m = bring_up_error m no_rollback

abbrev pub or_default : Option ℕ → ℕ → ℕ
or_default none d = d
or_default (some n) d = n

unfoldable pub resolve_bringup_runtime_limits_triplet :
    BringUpSettings → Option ℕ → Option ℕ → Option ℕ → Outcome AppliedPolicy
resolve_bringup_runtime_limits_triplet s cpu mem pids =
    if or_default cpu s.cpu_limit == 0
    then throws (refuse (text "runtime:cpu_limit_cores:must_be_positive_finite"))
    else if or_default mem s.memory_limit_mb == 0
    then throws (refuse (text "runtime:memory_limit_mib:must_be_positive"))
    else if or_default pids s.pids_limit == 0
    then throws (refuse (text "runtime:pids_limit:must_be_positive"))
    else gives (record {
      cpu_limit_cores = or_default cpu s.cpu_limit;
      memory_limit_mib = or_default mem s.memory_limit_mb;
      pids_limit = or_default pids s.pids_limit;
      security_options = s.security_options;
    })

unfoldable pub bringup_result_with_applied :
    AppliedPolicy → WorkspaceBringUpResult → WorkspaceBringUpResult
bringup_result_with_applied a r = record r {
  running = record r.running {
    applied_cpu_limit_cores = some a.cpu_limit_cores;
    applied_memory_limit_mib = some a.memory_limit_mib;
    applied_pids_limit = some a.pids_limit;
    applied_security_options = some a.security_options;
  };
}

-- A dictionary of texts: a key is set in place or added, and dropped.
abbrev set_key : Text → Text → List (Text × Text) → List (Text × Text)
set_key k v [] = (k, v) ∷ []
set_key k v ((j, w) ∷ m) = if text_eq j k then (j, v) ∷ m else (j, w) ∷ set_key k v m

abbrev pop_key : Text → List (Text × Text) → List (Text × Text)
pop_key k [] = []
pop_key k ((j, w) ∷ m) = if text_eq j k then m else (j, w) ∷ pop_key k m

abbrev get_key : Text → List (Text × Text) → Option Text
get_key k [] = none
get_key k ((j, w) ∷ m) = if text_eq j k then some w else get_key k m

abbrev merge : List (Text × Text) → List (Text × Text) → List (Text × Text)
merge m [] = m
merge m ((k, v) ∷ r) = merge (set_key k v m) r

abbrev is_auth_mode : Text → Bool
is_auth_mode m = text_eq m (text "none") || text_eq m (text "password")

abbrev bad_auth_mode : Failure
bad_auth_mode = refuse (text "DEVNEST_WORKSPACE_AUTH_MODE must be either 'none' or 'password'")

abbrev password_entry : Text → Option Text → List (Text × Text)
password_entry mode none = []
password_entry mode (some []) = []
password_entry mode (some (c ∷ s)) =
    if text_eq mode (text "password") then (text "DEVNEST_WORKSPACE_PASSWORD", c ∷ s) ∷ [] else []

-- `(settings.… or "none").strip().lower()`
abbrev auth_mode_of : Option Text → Text
auth_mode_of m = lower (strip (or_text m (text "none")))

unfoldable pub code_server_env : BringUpSettings → Text → Text → Text → Outcome (List (Text × Text))
code_server_env s port wid node_key =
    let mode = auth_mode_of s.workspace_auth_mode in
    if is_auth_mode mode
    then gives (
        (text "CS_DISABLE_GETTING_STARTED_OVERRIDE", text "1")
        ∷ (text "CODE_SERVER_AUTH", mode)
        ∷ (text "DEVNEST_WORKSPACE_AUTH_MODE", mode)
        ∷ (text "DEVNEST_WORKSPACE_ID", strip wid)
        ∷ (text "DEVNEST_NODE_KEY", strip node_key)
        ∷ (text "PORT", port)
        ∷ password_entry mode s.workspace_password)
    else throws bad_auth_mode

-- The environment with the authentication mode that it ends with.
abbrev settled_env : Text → List (Text × Text) → Outcome (Text × List (Text × Text))
settled_env mode env =
    let marked =
      set_key (text "CODE_SERVER_AUTH") mode
        (set_key (text "DEVNEST_WORKSPACE_AUTH_MODE") mode env) in
    if not (is_auth_mode mode)
    then throws bad_auth_mode
    else if text_eq mode (text "none")
    then gives
        (mode, pop_key (text "DEVNEST_WORKSPACE_PASSWORD") (pop_key (text "PASSWORD") marked))
    else if is_empty (stripped (get_key (text "DEVNEST_WORKSPACE_PASSWORD") marked))
    then throws
        (refuse (text "DEVNEST_WORKSPACE_AUTH_MODE=password requires DEVNEST_WORKSPACE_PASSWORD"))
    else gives (mode, marked)

unfoldable pub merged_env :
    Outcome (List (Text × Text)) → List (Text × Text) → Outcome (Text × List (Text × Text))
merged_env (throws e) env = throws e
merged_env (gives base) env =
    let m = merge base env in
    settled_env
      (auth_mode_of (
        or_else (get_key (text "DEVNEST_WORKSPACE_AUTH_MODE") m)
          (get_key (text "CODE_SERVER_AUTH") m)))
      m

-- The mode, and whether the project's directory may be created.
abbrev pub launch_mode_of : Option Text → Text × Bool
launch_mode_of none = (text "resume", true)
launch_mode_of (some m) =
    let mode = or_text (nonempty (lower (strip m))) (text "resume") in
    (mode, text_eq mode (text "new"))

-- `str(int)`, given with the caller's version.
abbrev version_label : Option Text → List (Text × Text)
version_label none = []
version_label (some v) = (text "devnest.config_version", v) ∷ []

module _ {W : Type 0} (self : Service W) where
  abbrev pub context_in : Text → Option Text → Option Text → Option Text → ℕ → Text → BringUpContext
  context_in wid project_storage_key version launch_mode ws_int bundle = record {
    wid = wid;
    ws_int = ws_int;
    container_name = sanitize_container_name wid;
    workspace_host_path = self.workspace_host.ide_bind_host_path bundle launch_mode;
    project_storage_key = nonempty (stripped project_storage_key);
    launch_mode = (launch_mode_of launch_mode).0;
    labels =
        (text "devnest.workspace_id", wid)
        ∷ (text "devnest.managed_by", text "orchestrator")
        ∷ version_label version;
  }

  -- Only a `ValueError` of the directory becomes an error of the bring-up.
  abbrev pub bundle_answer : {A : Type 0} → Outcome A × W → Outcome A × W
  bundle_answer (throws (value_error e), w) = (throws (refuse e), w)
  bundle_answer x = x

  unfoldable pub bring_up_build_context :
      Text → Option Text → Option Text → Option Text → M W BringUpContext
  unfolding parse_topology_workspace_id sanitize_container_name
  bring_up_build_context workspace_id project_storage_key version launch_mode w =
      let wid = strip workspace_id in
      if is_empty wid
      then (throws (refuse (text "workspace_id is empty")), w)
      else follow
          (λ ws_int v.
            follow
              (λ bundle.
                pure (context_in wid project_storage_key version launch_mode ws_int bundle))
              (bundle_answer (
                self.workspace_host.ensure_workspace_project_dir wid project_storage_key
                  (launch_mode_of launch_mode).1 v)))
          (parse_topology_workspace_id wid, w)
