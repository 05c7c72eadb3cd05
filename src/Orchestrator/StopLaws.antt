-- ===== src/Orchestrator/StopLaws.antt =====
-- What `stop_workspace_runtime` of backend/app/services/orchestrator_service/service.py answers.
use devnest.Base.{
  any, ℕ, ◌≡◌, ◌↔◌, refl, Bool, true, false, ◌&&◌, Option, some, List, [], ◌∷◌, ◌++◌, if◌then◌else◌,
  Text, text, is_empty, strip, stripped, starts_with, strip-front, is_space, Bool-cases, inl, inr,
}
use devnest.Orchestrator.Adapters.{Returns, follow-Returns, stop_error, Outcome, gives, throws}
use devnest.Orchestrator.Texts.{
  is_detach_failure, is_release_failure, issues_or_none, stop_workspace_success_roll_up, is_false,
}
use devnest.Orchestrator.Stop.{
  Service, Inspected, Detachment, Halt, detached_answer, stop_load_inspection,
  stop_detach_topology_best_effort, stop_container_best_effort, release_ip_lease_best_effort,
  stop_inspected, stop_workspace_runtime, container_ref,
}
use devnest.Orchestrator.StopSays.{
  DetachSays, went, refused, HaltSays, halted, failed, nameless, ReleaseSays, quiet, kept,
  detached_answer-Says, container-Says, release-Says,
}

abbrev SaysWhy : Bool → List Text → Type 0
SaysWhy success issues = (success ≡ true) ↔ (issues ≡ [])

says_both : SaysWhy true []
says_both = (λ h. refl, λ h. refl)

says_neither : (b : Bool) (i : Text) (is : List Text) → b ≡ false → SaysWhy b (i ∷ is)
says_neither b i is e = (λ h. absurd (cc), λ h. absurd (cc))

-- The first issue is a text that stays when it is stripped.
first_stays :
    (c : ℕ) (q : Text) (s : Text) (issues rest : List Text) (b : Bool)
    → issues ≡ s ∷ rest
    → strip s ≡ c ∷ q
    → b ≡ false
    → SaysWhy b (issues_or_none issues)
unfolding issues_or_none
first_stays c q s issues rest b e h f = rw e (rw h (says_neither b _ _ f))

pub detach_stays :
    (e : Text)
    → (e' : Text) × (strip (text "topology:detach_failed:" ++ e)
        ≡ text "topology:detach_failed:" ++ e')
unfolding is_space
detach_stays e = strip-front b't' (text "opology:detach_failed:") b':' _ e refl refl refl

release_stays :
    (e : Text)
    → (e' : Text) × (strip (text "topology:ip_release_failed:" ++ e)
        ≡ text "topology:ip_release_failed:" ++ e')
unfolding is_space
release_stays e = strip-front b't' (text "opology:ip_release_failed:") b':' _ e refl refl refl

stop_stays :
    (e : Text)
    → (e' : Text) × (strip (text "runtime:stop_failed:" ++ e) ≡ text "runtime:stop_failed:" ++ e')
unfolding is_space
stop_stays e = strip-front b'r' (text "untime:stop_failed:") b':' _ e refl refl refl

nameless_stays : strip (text "runtime:container_id_missing") ≡ text "runtime:container_id_missing"
unfolding is_space strip
nameless_stays = refl

abbrev RollsUp : Detachment → Halt → List Text → Type 0
RollsUp d h released =
    SaysWhy
      (stop_workspace_success_roll_up h.success d.topology_detached
        (d.issues ++ (h.issues ++ released)))
      (issues_or_none (d.issues ++ (h.issues ++ released)))

if_false : (b c : Bool) → (if b then false else if c then false else false) ≡ false
if_false true c = refl
if_false false true = refl
if_false false false = refl

roll_up-release :
    (b : Bool) (d : Option Bool) (issues : List Text)
    → any is_release_failure issues ≡ true
    → stop_workspace_success_roll_up b d issues ≡ false
unfolding stop_workspace_success_roll_up
roll_up-release b d issues h = rw h (if_true (is_false d && any is_detach_failure issues))
  where
    if_true : (c : Bool) → (if c then false else false) ≡ false
    if_true true = refl
    if_true false = refl

pub roll_up-detach :
    (b : Bool) (issues : List Text)
    → any is_detach_failure issues ≡ true
    → stop_workspace_success_roll_up b (some false) issues ≡ false
unfolding stop_workspace_success_roll_up
roll_up-detach b issues h = rw h

stop_workspace-RollsUp :
    {d : Detachment} {h : Halt} {released : List Text}
    → DetachSays d
    → HaltSays h
    → ReleaseSays released
    → RollsUp d h released
unfolding stop_workspace_success_roll_up issues_or_none starts_with
stop_workspace-RollsUp (went true) (halted s) quiet = says_both
stop_workspace-RollsUp (went false) (halted s) quiet = says_both
stop_workspace-RollsUp (went b) (halted s) (kept e) =
    let (e', q) = release_stays e in
    first_stays _ _ _ _ [] _ refl q
      (roll_up-release true (some b) ((text "topology:ip_release_failed:" ++ e) ∷ []) (rw q refl))
stop_workspace-RollsUp (went b) (failed s e) r =
    let (e', q) = stop_stays e in first_stays _ _ _ _ _ _ refl q (if_false _ _)
stop_workspace-RollsUp (went b) nameless r =
    first_stays _ _ _ _ _ _ refl nameless_stays (if_false _ _)
stop_workspace-RollsUp {h} {released} (refused e) p r =
    let (e', q) = detach_stays e in
    first_stays _ _ _ _ _ _ refl q (
      roll_up-detach h.success ((text "topology:detach_failed:" ++ e) ∷ (h.issues ++ released))
        (rw q refl))

module _ {W : Type 0} (self : Service W) where
  stop_inspected-SaysWhy :
      (release : Bool) (seen : Inspected) (w : W)
      → Returns (λ r v. SaysWhy r.success r.issues) (stop_inspected self release seen w)
  unfolding stop_inspected stop_detach_topology_best_effort
  stop_inspected-SaysWhy release seen w =
      follow-Returns _ _ _
        (detached_answer stop_error
          (self.topology_service.detach_workspace self.topology_id self.node_id seen.ws_int w))
        (detached_answer-Says stop_error _)
        (λ det w1 d.
          follow-Returns _ _ _ (stop_container_best_effort self seen.container_id w1)
            (container-Says self seen.container_id w1)
            (λ halt w2 h.
              follow-Returns _ _ _ (release_ip_lease_best_effort self release seen.ws_int w2)
                (release-Says self release seen.ws_int w2)
                (λ released w3 r. stop_workspace-RollsUp d h r)))

-- A stop that returns says that it has succeeded exactly when it has no issue to report.
pub stop_workspace_runtime-SaysWhy :
    {W : Type 0} (self : Service W) (workspace_id : Text) (container_id : Option Text)
    (release : Bool) (w : W)
    → Returns
        (λ r w'. (r.success ≡ true) ↔ (r.issues ≡ []))
        (stop_workspace_runtime self workspace_id container_id release w)
unfolding stop_workspace_runtime stop_inspected
stop_workspace_runtime-SaysWhy {W} self workspace_id container_id release w =
    elim (Bool-cases (is_empty (strip workspace_id))) [
      | inl e ↦ rw e tt
      | inr e ↦
          rw e
            (elim (Bool-cases
              (self.authoritative_container_ref_required && is_empty (stripped container_id))) [
                | inl a ↦ rw a (says_neither false _ _ refl)
                | inr a ↦ rw a (
                    follow-Returns (λ seen v. Unit) _ _
                      (stop_load_inspection self (strip workspace_id)
                        (container_ref self (strip workspace_id) container_id) w)
                      (anything _) (λ seen v u. stop_inspected-SaysWhy self release seen v))
              ])
    ]
  where
    anything : (x : Outcome Inspected × W) → Returns (λ seen v. Unit) x
    anything (gives a, v) = tt
    anything (throws e, v) = tt
