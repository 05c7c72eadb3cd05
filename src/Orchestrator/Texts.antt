-- ===== src/Orchestrator/Texts.antt =====
-- The texts that backend/app/services/orchestrator_service/service.py reads and makes: names of
-- containers, numbers, and what an issue of a stop says.
use devnest.Base.{
  ℕ, ◌+◌, ◌*◌, ◌-◌, Bool, true, false, not, ◌&&◌, ◌||◌, Option, none, some, List, [], ◌∷◌, ◌++◌,
  map, if◌then◌else◌, leb, ◌==◌, any, select, take, Text, text, is_empty, strip, starts_with,
}
use devnest.Worker.State.{Rollback}
use devnest.Orchestrator.Adapters.{bring_up_error, Outcome, gives, throws}

-- The characters that a container's name keeps.
abbrev is_name_char : ℕ → Bool
is_name_char c =
    (leb b'a' c && leb c b'z')
    || (leb b'A' c && leb c b'Z')
    || (leb b'0' c && leb c b'9')
    || c == b'_'
    || c == b'.'
    || c == b'-'

-- `_CONTAINER_NAME_RE.sub("-", s)`: a run of other characters becomes one dash.
sub_runs : Bool → Text → Text
sub_runs in_run [] = []
sub_runs in_run (c ∷ s) =
    let kept = sub_runs false s in
    let skipped = sub_runs true s in
    if is_name_char c then c ∷ kept else if in_run then skipped else b'-' ∷ skipped

abbrev is_alnum : ℕ → Bool
is_alnum c = (leb b'a' c && leb c b'z') || (leb b'A' c && leb c b'Z') || (leb b'0' c && leb c b'9')

abbrev named_raw : Text → Text
named_raw [] = text "workspace"
named_raw (c ∷ s) = if is_alnum c then c ∷ s else b'w' ∷ c ∷ s

unfoldable pub sanitize_container_name : Text → Text
unfolding sub_runs
sanitize_container_name workspace_id =
    take 120 (text "devnest-ws-" ++ named_raw (sub_runs false (strip workspace_id)))

-- `int(s, 10)` on the digits that it accepts, with underscores between two of them.
digits_value : ℕ → Bool → Text → Option ℕ
digits_value acc after_digit [] = if after_digit then some acc else none
digits_value acc after_digit (c ∷ s) =
    let digit = digits_value (acc * 10 + (c - 48)) true s in
    let underscore = digits_value acc false s in
    if leb 48 c && leb c 57 then digit else if c == b'_' && after_digit then underscore else none

-- The sign of an integer's text, and its size.
unfoldable pub int_of : Text → Option (Bool × ℕ)
unfolding digits_value
int_of [] = none
int_of (c ∷ s) =
    if c == b'-'
    then elim (digits_value 0 false s) [ none ↦ none | some n ↦ some (true, n) ]
    else if c == b'+'
    then elim (digits_value 0 false s) [ none ↦ none | some n ↦ some (false, n) ]
    else elim (digits_value 0 false (c ∷ s)) [ none ↦ none | some n ↦ some (false, n) ]

abbrev pub no_rollback : Rollback
no_rollback = record {
  rollback_attempted = false;
  rollback_succeeded = none;
  rollback_issues = [];
  rollback_container_id = none;
  rollback_container_state = none;
}

abbrev pub parsed_id : Text → Option (Bool × ℕ) → Outcome ℕ
parsed_id workspace_id none = throws (
    bring_up_error
      (text "workspace_id must be a base-10 integer for V1 topology allocation: " ++ workspace_id)
      no_rollback)
parsed_id workspace_id (some (negative, n)) =
    if negative && not (n == 0)
    then throws (bring_up_error (text "workspace_id must be non-negative: ") no_rollback)
    else gives n

unfoldable pub parse_topology_workspace_id : Text → Outcome ℕ
unfolding int_of
parse_topology_workspace_id workspace_id = parsed_id workspace_id (int_of (strip workspace_id))

-- The list that is `None` where it is empty.
unfoldable pub issues_or_none : List Text → List Text
issues_or_none issues = select (λ s. not (is_empty s)) (map strip issues)

abbrev pub is_detach_failure : Text → Bool
is_detach_failure i = starts_with (text "topology:detach_failed:") (strip i)

abbrev pub is_release_failure : Text → Bool
is_release_failure i = starts_with (text "topology:ip_release_failed:") (strip i)

abbrev pub is_false : Option Bool → Bool
is_false (some false) = true
is_false _ = false

unfoldable pub stop_workspace_success_roll_up : Bool → Option Bool → List Text → Bool
unfolding starts_with
stop_workspace_success_roll_up stop_success topology_detached issues =
    if is_false topology_detached && any is_detach_failure issues
    then false
    else if any is_release_failure issues
    then false
    else stop_success
