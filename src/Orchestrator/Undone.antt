-- ===== src/Orchestrator/Undone.antt =====
-- How the rollback of a bring-up of backend/app/services/orchestrator_service/service.py ends that says
-- it has succeeded.
use devnest.Base.{
  ◌≡◌, ◌⊎◌, refl, Bool, true, false, Option, none, some, List, [], Text, text, Bool-cases, inl, inr,
}
use devnest.Worker.State.{WorkspaceStopResult, WorkspaceBringUpResult}
use devnest.Orchestrator.Adapters.{Failure, bring_up_error, stop_error, Outcome, gives, throws, M}
use devnest.Orchestrator.Stop.{Service, stop_workspace_runtime}
use devnest.Orchestrator.Rollback.{
  RolledBack, bring_up_compensating_rollback, rollback_attempt, gave_up, stop_once,
}
use devnest.Orchestrator.Kept.{Ends, AdaptersKeep, stop_workspace_runtime-Kept}
use devnest.Orchestrator.Plain.{
  IsPlain, RaisesPlain, AdaptersPlain, stop_workspace_runtime-RaisesPlain,
}

module _ {W : Type 0} (Inv : W → Type 0) (self : Service W) where
  -- The world is the one in which a successful stop has ended that gave the address back, and what
  -- is invariant held before it.
  pub record Undone (wid : Text) (after : W) : Type 0 where
    pub container_id : Option Text
    pub before : W
    pub invariant : Inv before
    pub result : WorkspaceStopResult
    pub stopped : stop_workspace_runtime self wid container_id true before ≡ (gives result, after)
    pub success : result.success ≡ true

  abbrev pub RolledEnds : Text → Outcome RolledBack × W → Type 0
  RolledEnds wid (gives rb, w) = (rb.succeeded ≡ false) ⊎ Undone wid w
  RolledEnds wid (throws e, w) = IsPlain e

  -- What a bring-up reports of its rollback: that it has succeeded is true.
  abbrev pub Reported : Text → Option Bool → W → Type 0
  Reported wid (some true) w = Undone wid w
  Reported wid (some false) w = Unit
  Reported wid none w = Unit

  abbrev pub BringUpEnds : Text → Outcome WorkspaceBringUpResult × W → Type 0
  BringUpEnds wid (gives r, w) =
      ((r.success ≡ true) ⊎ (r.rollback_attempted ≡ true)) × Reported wid r.rollback_succeeded w
  BringUpEnds wid (throws (bring_up_error m rb), w) = Reported wid rb.rollback_succeeded w
  BringUpEnds wid (throws e, w) = Unit

-- What leaves a bring-up, with what it reports.
pub reported_plain :
    {W : Type 0} (Inv : W → Type 0) (self : Service W) (wid : Text) (e : Failure) (w : W)
    → IsPlain e
    → BringUpEnds Inv self wid (throws e, w)
reported_plain Inv self wid (bring_up_error m rb) w p = rw p tt
reported_plain Inv self wid (stop_error m) w p = tt
reported_plain Inv self wid e w p = tt

module _ {W : Type 0} (Inv : W → Type 0) (self : Service W) (k : AdaptersKeep Inv self)
    (plain : AdaptersPlain self) where
  attempt-Ends :
      (wid : Text) (cid : Option Text) (attempt : Text) (issues : List Text)
      (last : Option WorkspaceStopResult)
      (next : List Text → Option WorkspaceStopResult → M W RolledBack)
      → ((is : List Text) (l : Option WorkspaceStopResult) (v : W)
          → Inv v
          → RolledEnds Inv self wid (next is l v))
      → (w : W) (x : Outcome WorkspaceStopResult × W) → Inv w
      → stop_once self wid cid w ≡ x
      → Ends Inv x
      → RaisesPlain x
      → RolledEnds Inv self wid (rollback_attempt self wid cid attempt issues last next x)
  attempt-Ends wid cid attempt issues last next n w (gives r, v) i e j p =
      elim (Bool-cases r.success) [
        | inl s ↦ rw s (
            inr (record {
              container_id = cid;
              before = w;
              invariant = i;
              result = r;
              stopped = e;
              success = s;
            }))
        | inr s ↦ rw s (n _ _ v j)
      ]
  attempt-Ends wid cid attempt issues last next n w (throws (stop_error m), v) i e j p = n _ _ v j
  attempt-Ends wid cid attempt issues last next n w (throws f, v) i e j p = p

  pub rollback-Ends :
      (wid : Text) (cid : Option Text) (w : W)
      → Inv w
      → RolledEnds Inv self wid (bring_up_compensating_rollback self wid cid w)
  unfolding bring_up_compensating_rollback
  rollback-Ends wid cid w i =
      let again = λ (is : List Text) (l : Option WorkspaceStopResult) (v : W).
        rollback_attempt self wid cid (text "2") is l (gave_up self wid cid)
          (stop_once self wid cid v) in
      attempt-Ends wid cid (text "1") [] none again
        (λ is l v j.
          attempt-Ends wid cid (text "2") is l (gave_up self wid cid) (λ is' l' u h. inl refl) v
            (stop_once self wid cid v) j refl
            (stop_workspace_runtime-Kept Inv self k wid cid true v j)
            (stop_workspace_runtime-RaisesPlain self plain wid cid true v))
        w (stop_once self wid cid w) i refl
        (stop_workspace_runtime-Kept Inv self k wid cid true w i)
        (stop_workspace_runtime-RaisesPlain self plain wid cid true w)

  -- What is reported of a rollback, in the two ways to report it.
  pub reported :
      (wid : Text) (b : Bool) (w : W)
      → (b ≡ false) ⊎ Undone Inv self wid w
      → Reported Inv self wid (some b) w
  reported wid true w (inl e) = absurd (cc)
  reported wid true w (inr u) = u
  reported wid false w h = tt
