-- ===== src/Orchestrator/Plain.antt =====
-- The exceptions that leave a stop of backend/app/services/orchestrator_service/service.py and the
-- building of a bring-up's context: none of them reports a rollback.
use devnest.Base.{
  ℕ, ◌≡◌, refl, Bool, true, false, not, ◌&&◌, Option, none, some, ◌++◌, ◌==◌, Text, text, is_empty,
  strip, stripped, Bool-cases, inl, inr,
}
use devnest.Orchestrator.Adapters.{
  Failure, topology_error, topology_delete_error, adapter_error, container_not_found, value_error,
  bring_up_error, stop_error, message, Outcome, gives, throws, M, follow, rethrow,
  RuntimeActionResult,
}
use devnest.Orchestrator.Texts.{parsed_id, int_of, parse_topology_workspace_id}
use devnest.Orchestrator.Stop.{
  BringUpSettings, Service, Inspected, detached_answer, stop_answer, release_answer,
  stop_load_inspection, stop_container_best_effort, release_ip_lease_best_effort, stop_inspected,
  stop_detach_topology_best_effort, stop_workspace_runtime, container_ref,
}
use devnest.Orchestrator.Context.{
  resolve_bringup_runtime_limits_triplet, or_default, bring_up_build_context, bundle_answer,
  launch_mode_of,
}

-- No rollback is reported.
abbrev pub IsPlain : Failure → Type 0
IsPlain (bring_up_error m rb) = rb.rollback_succeeded ≡ none
IsPlain e = Unit

abbrev pub RaisesPlain : {W A : Type 0} → Outcome A × W → Type 0
RaisesPlain (gives a, w) = Unit
RaisesPlain (throws e, w) = IsPlain e

module _ {W : Type 0} where
  pub follow-RaisesPlain :
      {A B : Type 0} (f : A → M W B) (x : Outcome A × W)
      → RaisesPlain x
      → ((a : A) (w : W) → RaisesPlain (f a w))
      → RaisesPlain (follow f x)
  follow-RaisesPlain f (gives a, w) p q = q a w
  follow-RaisesPlain f (throws e, w) p q = p

  detached_answer-RaisesPlain : (x : Outcome Bool × W) → RaisesPlain (detached_answer stop_error x)
  detached_answer-RaisesPlain (gives b, w) = tt
  detached_answer-RaisesPlain (throws (topology_error e), w) = tt
  detached_answer-RaisesPlain (throws (topology_delete_error e), w) = tt
  detached_answer-RaisesPlain (throws e, w) = tt

  stop_answer-RaisesPlain : (x : Outcome RuntimeActionResult × W) → RaisesPlain (stop_answer x)
  stop_answer-RaisesPlain (gives r, w) = tt
  stop_answer-RaisesPlain (throws (adapter_error e), w) = tt
  stop_answer-RaisesPlain (throws (container_not_found e), w) = tt
  stop_answer-RaisesPlain (throws e, w) = tt

  release_answer-RaisesPlain :
      (x : Outcome Bool × W) → RaisesPlain x → RaisesPlain (release_answer x)
  release_answer-RaisesPlain (gives b, w) p = tt
  release_answer-RaisesPlain (throws (topology_error e), w) p = tt
  release_answer-RaisesPlain (throws (topology_delete_error e), w) p = tt
  release_answer-RaisesPlain (throws (bring_up_error m r), w) p = p
  release_answer-RaisesPlain (throws e, w) p = tt

  rethrow-RaisesPlain :
      {A : Type 0} (m : Failure → Text) (x : Outcome A × W)
      → RaisesPlain (rethrow (λ e. stop_error (m e)) x)
  rethrow-RaisesPlain m (gives a, w) = tt
  rethrow-RaisesPlain m (throws e, w) = tt

  parsed_id-RaisesPlain :
      (t : Text) (o : Option (Bool × ℕ)) (w : W) → RaisesPlain (parsed_id t o, w)
  parsed_id-RaisesPlain t none w = refl
  parsed_id-RaisesPlain t (some (negative, n)) w = elim (Bool-cases (negative && not (n == 0))) [
    | inl e ↦ rw e refl
    | inr e ↦ rw e tt
  ]

  pub parse-RaisesPlain : (t : Text) (w : W) → RaisesPlain (parse_topology_workspace_id t, w)
  unfolding parse_topology_workspace_id
  parse-RaisesPlain t w = parsed_id-RaisesPlain t (int_of (strip t)) w

-- The limits that are not positive.
pub limits-RaisesPlain :
    {W : Type 0} (s : BringUpSettings) (cpu mem pids : Option ℕ) (w : W)
    → RaisesPlain (resolve_bringup_runtime_limits_triplet s cpu mem pids, w)
unfolding resolve_bringup_runtime_limits_triplet
limits-RaisesPlain s cpu mem pids w = elim (Bool-cases (or_default cpu s.cpu_limit == 0)) [
  | inl e ↦ rw e refl
  | inr e ↦ rw e (elim (Bool-cases (or_default mem s.memory_limit_mb == 0)) [
    | inl f ↦ rw f refl
    | inr f ↦ rw f (elim (Bool-cases (or_default pids s.pids_limit == 0)) [
      | inl g ↦ rw g refl
      | inr g ↦ rw g tt
    ])
  ])
]

-- The topology's release and the project's directory raise their own exceptions.
pub record AdaptersPlain {W : Type 0} (self : Service W) : Type 0 where
  pub release :
      (t : ℕ) (n : Text) (i : ℕ) (w : W)
      → RaisesPlain (self.topology_service.release_workspace_ip_lease t n i w)
  pub project_dir :
      (i : Text) (k : Option Text) (b : Bool) (w : W)
      → RaisesPlain (self.workspace_host.ensure_workspace_project_dir i k b w)

module _ {W : Type 0} (self : Service W) (plain : AdaptersPlain self) where
  container-RaisesPlain :
      (cid : Option Text) (w : W) → RaisesPlain (stop_container_best_effort self cid w)
  unfolding stop_container_best_effort
  container-RaisesPlain none w = tt
  container-RaisesPlain (some c) w =
      stop_answer-RaisesPlain (self.runtime_adapter.stop_container c w)

  release-RaisesPlain :
      (b : Bool) (ws_int : ℕ) (w : W) → RaisesPlain (release_ip_lease_best_effort self b ws_int w)
  unfolding release_ip_lease_best_effort
  release-RaisesPlain false ws_int w = tt
  release-RaisesPlain true ws_int w =
      release_answer-RaisesPlain
        (self.topology_service.release_workspace_ip_lease self.topology_id self.node_id ws_int w)
        (plain.release self.topology_id self.node_id ws_int w)

  stop_inspected-RaisesPlain :
      (b : Bool) (seen : Inspected) (w : W) → RaisesPlain (stop_inspected self b seen w)
  unfolding stop_inspected stop_detach_topology_best_effort
  stop_inspected-RaisesPlain b seen w =
      follow-RaisesPlain _
        (detached_answer stop_error
          (self.topology_service.detach_workspace self.topology_id self.node_id seen.ws_int w))
        (detached_answer-RaisesPlain _)
        (λ det v.
          follow-RaisesPlain _ (stop_container_best_effort self seen.container_id v)
            (container-RaisesPlain seen.container_id v)
            (λ halt u.
              follow-RaisesPlain _ (release_ip_lease_best_effort self b seen.ws_int u)
                (release-RaisesPlain b seen.ws_int u) (λ r x. tt)))

  stop_load-RaisesPlain :
      (wid ref : Text) (w : W) → RaisesPlain (stop_load_inspection self wid ref w)
  unfolding stop_load_inspection
  stop_load-RaisesPlain wid ref w =
      follow-RaisesPlain _ (parse_topology_workspace_id wid, w) (parse-RaisesPlain wid w)
        (λ n v.
          follow-RaisesPlain _
            (rethrow (λ e. stop_error (text "inspect_container failed: " ++ message e))
              (self.runtime_adapter.inspect_container ref v))
            (rethrow-RaisesPlain (λ e. text "inspect_container failed: " ++ message e) _)
            (λ ins u. tt))

  pub stop_workspace_runtime-RaisesPlain :
      (wid : Text) (cid : Option Text) (b : Bool) (w : W)
      → RaisesPlain (stop_workspace_runtime self wid cid b w)
  unfolding stop_workspace_runtime
  stop_workspace_runtime-RaisesPlain wid cid b w = elim (Bool-cases (is_empty (strip wid))) [
    | inl e ↦ rw e tt
    | inr e ↦
        rw e
          (elim (Bool-cases
            (self.authoritative_container_ref_required && is_empty (stripped cid))) [
              | inl a ↦ rw a tt
              | inr a ↦ rw a (
                  follow-RaisesPlain _
                    (stop_load_inspection self (strip wid) (container_ref self (strip wid) cid) w)
                    (stop_load-RaisesPlain _ _ w) (λ seen v. stop_inspected-RaisesPlain b seen v))
            ])
  ]

  bundle_answer-RaisesPlain :
      {A : Type 0} (x : Outcome A × W) → RaisesPlain x → RaisesPlain (bundle_answer self x)
  bundle_answer-RaisesPlain (throws (value_error e), w) p = refl
  bundle_answer-RaisesPlain (throws e, w) p = p
  bundle_answer-RaisesPlain (gives a, w) p = p

  pub bring_up_build_context-RaisesPlain :
      (wid : Text) (key version mode : Option Text) (w : W)
      → RaisesPlain (bring_up_build_context self wid key version mode w)
  unfolding bring_up_build_context
  bring_up_build_context-RaisesPlain wid key version mode w =
      elim (Bool-cases (is_empty (strip wid))) [
        | inl e ↦ rw e refl
        | inr e ↦ rw e (
            follow-RaisesPlain _ (parse_topology_workspace_id (strip wid), w)
              (parse-RaisesPlain (strip wid) w)
              (λ n v.
                follow-RaisesPlain _
                  (bundle_answer self (
                    self.workspace_host.ensure_workspace_project_dir (strip wid) key
                      (launch_mode_of mode).1 v))
                  (bundle_answer-RaisesPlain _
                    (plain.project_dir (strip wid) key (launch_mode_of mode).1 v))
                  (λ b u. tt)))
      ]
