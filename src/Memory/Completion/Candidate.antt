-- ===== src/Memory/Completion/Candidate.antt =====
-- The checks of evidence before it is kept (memory/completion_evidence.py).
use lbe_ci_validation.Memory.{canonical_root}
use lbe_ci_validation.Memory.Completion.{StoredEvidence}
use lbe_ci_validation.Runtime.Completion.{EvidenceStatus, fail, pass}
use Prim.Native.Char.{Char, code}
use lbe_ci_validation.Base.{
  Result, String, concat, err, if◌then◌else◌, nat_eq, ok, strip, value_error, ◌==◌, ◌>>=◌, ◌||◌,
}

-- The character of a table at the place of the same letter in another one.
upper_in : Char → String → String → String
upper_in c (String.◌∷◌ l ls) (String.◌∷◌ u us) =
    let rest = upper_in c ls us in if nat_eq (code c) (code l) then String.◌∷◌ u String.[] else rest
upper_in c _ _ = String.◌∷◌ c String.[]

-- The letters whose upper case is in ASCII; the others stay.
abbrev upper_letter : Char → String
upper_letter c =
    if nat_eq (code c) 0xdf
    then "SS"
    else if nat_eq (code c) 0xfb05 || nat_eq (code c) 0xfb06
    then "ST"
    else upper_in c "abcdefghijklmnopqrstuvwxyzıſ" "ABCDEFGHIJKLMNOPQRSTUVWXYZIS"

-- `str.upper`
unfoldable pub upper : String → String
unfolding upper_in
upper String.[] = String.[]
upper (String.◌∷◌ c s) = concat (upper_letter c) (upper s)

-- A status in `_VALID_STATUSES`.
unfoldable pub status_of_text : String → Result EvidenceStatus
status_of_text s =
    if s == "PASS"
    then ok pass
    else if s == "FAIL"
    then ok fail
    else if s == "STALE"
    then ok EvidenceStatus.stale
    else err (value_error (concat "unsupported completion evidence status: " s))

abbrev pub status_text : EvidenceStatus → String
status_text pass = "PASS"
status_text fail = "FAIL"
status_text EvidenceStatus.stale = "STALE"

-- `_required`
unfoldable pub required : String → String → Result String
required value name =
    if strip value == ""
    then err (value_error (concat name " must not be empty"))
    else ok (strip value)

-- The arguments of `save`.
pub record GivenEvidence (D : Type 0) : Type 0 where
  pub session_id : String
  pub task_id : String
  pub project_workspace_id : String
  pub canonical_workspace_root : String
  pub evidence_id : String
  pub kind : String
  pub status : String
  pub source : String
  pub producer_id : String
  pub operation_id : String
  pub details : D

-- The candidate of `save`, at the time `now`.
unfoldable pub make_candidate :
    {D : Type 0} → (String → String) → String → GivenEvidence D → Result (StoredEvidence D)
unfolding required status_of_text upper
make_candidate resolve now g = do
  session_id ← required g.session_id "session_id"
  task_id ← required g.task_id "task_id"
  project ← required g.project_workspace_id "project_workspace_id"
  evidence_id ← required g.evidence_id "evidence_id"
  kind ← required g.kind "kind"
  status ← required g.status "status"
  source ← required g.source "source"
  producer_id ← required g.producer_id "producer_id"
  operation_id ← required g.operation_id "operation_id"
  known ← status_of_text (upper status)
  ok (record {
    session_id = session_id;
    task_id = task_id;
    project_workspace_id = project;
    canonical_workspace_root = canonical_root resolve g.canonical_workspace_root;
    evidence_id = evidence_id;
    kind = kind;
    status = known;
    source = source;
    producer_id = producer_id;
    operation_id = operation_id;
    details = g.details;
    created_at = now;
  })
