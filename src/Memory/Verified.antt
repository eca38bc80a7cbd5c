-- ===== src/Memory/Verified.antt =====
-- When memory counts as verified (memory/promoter.py over memory/models.py).
use lbe_ci_validation.Memory.{
  MemoryRecord, SourceType, ValidationStatus, assistant_reasoning, canonical_root, command_result,
  compaction, git, is_interpretive, is_missing, is_verified, live_workspace, make_record,
  session_message, source_name, test_run, user_instruction,
}
use lbe_ci_validation.Memory.Promoter.{
  CandidateClaim, claimed_record, classify, classify_by, deterministic_predicates, is_trusted,
  or_text, promoted,
}
use lbe_ci_validation.Base.{
  Bool, Bool-cases, Option, Result, String, ap, arith, concat, contains, err, false, if◌then◌else◌,
  inl, inr, is_blank, is_ok, is_ok-raise_if, ltb, none, not, ok, ok-inj, refl, some, strip, sym,
  true, ℕ, ◌&&◌, ◌==◌, ◌>>=◌, ◌||◌, ◌∙◌, ◌≡◌,
}

-- The claim's own evidence: it was validated by a named method, or a trusted source observed a
-- deterministic predicate.
abbrev pub is_proven : {V : Type 0} → CandidateClaim V → Bool
is_proven claim =
    not (is_interpretive claim.source_type)
    && (claim.validated
        || (contains claim.predicate deterministic_predicates && is_trusted claim.source_type))

-- What every classification has.
record IsSound {V : Type 0} (claim : CandidateClaim V) (proven : Bool)
    (k : ValidationStatus × ℕ × Option String) : Type 0 where
  exact : is_verified k.0 ≡ proven
  method : is_verified k.0 ≡ true → is_missing k.2 ≡ false
  source : is_verified k.0 ≡ true → is_interpretive claim.source_type ≡ false
  confidence : ltb 100 k.1 ≡ false

trusted_name : (s : SourceType) → (concat "trusted:" (source_name s) == "") ≡ false
trusted_name live_workspace = refl
trusted_name git = refl
trusted_name test_run = refl
trusted_name command_result = refl
trusted_name session_message = refl
trusted_name compaction = refl
trusted_name assistant_reasoning = refl
trusted_name user_instruction = refl

named :
    (m : Option String) (s : SourceType)
    → is_missing (some (or_text m (concat "trusted:" (source_name s)))) ≡ false
named none s = trusted_name s
named (some t) s = elim (Bool-cases (t == "")) [
  | inl e ↦ rw e (trusted_name s)
  | inr e ↦ rw (e, e) refl
]

classify_by-IsSound :
    {V : Type 0} (det inter : Bool) (claim : CandidateClaim V)
    (k : ValidationStatus × ℕ × Option String)
    → classify_by det inter claim ≡ ok k
    → IsSound claim (not (is_interpretive claim.source_type) && (claim.validated || det)) k
unfolding classify_by
classify_by-IsSound det inter claim k h =
    ground (arith, named claim.validation_method claim.source_type)

classify-IsSound :
    {V : Type 0} (claim : CandidateClaim V) (k : ValidationStatus × ℕ × Option String)
    → classify claim ≡ ok k
    → IsSound claim (is_proven claim) k
unfolding classify
classify-IsSound claim k h = classify_by-IsSound _ _ claim k h

make_record-is_ok :
    {V : Type 0} (resolve : String → String) (now : String) (q : MemoryRecord V)
    → is_ok (make_record resolve now q) ≡ (
        not (is_blank q.project_workspace_id)
        && (not (is_blank q.subject || is_blank q.predicate)
            && (not (ltb 100 q.confidence)
                && (not (is_verified q.validation_status && is_missing q.validation_method)
                    && (not (is_interpretive q.source_type && is_verified q.validation_status)
                        && true)))))
unfolding make_record
make_record-is_ok resolve now q = simp is_ok-raise_if refl

five_false :
    (a b c d e : Bool)
    → (not a && (not b && (not c && (not d && (not e && true))))) ≡ true
    → (a ≡ false) × (b ≡ false) × (c ≡ false) × (d ≡ false) × (e ≡ false)
five_false a b c d e h = ground arith

-- The record that the checks of a record leave.
abbrev pub cleaned_record :
    {V : Type 0} → (String → String) → String → MemoryRecord V → MemoryRecord V
cleaned_record resolve now q = record q {
  project_workspace_id = strip q.project_workspace_id;
  canonical_workspace_root = canonical_root resolve q.canonical_workspace_root;
  subject = strip q.subject;
  predicate = strip q.predicate;
  validated_at =
      if is_verified q.validation_status && is_missing q.validated_at
      then some now
      else q.validated_at;
}

pub make_record-eq-ok :
    {V : Type 0} (resolve : String → String) (now : String) (q r : MemoryRecord V)
    → make_record resolve now q ≡ ok r
    → r ≡ cleaned_record resolve now q
unfolding make_record
make_record-eq-ok {V} resolve now q r h =
    let (a, b, c, d, e) =
      five_false (is_blank q.project_workspace_id) (is_blank q.subject || is_blank q.predicate)
        (ltb 100 q.confidence) (is_verified q.validation_status && is_missing q.validation_method)
        (is_interpretive q.source_type && is_verified q.validation_status)
        (sym (make_record-is_ok resolve now q) ∙ ap is_ok h) in
    sym (ok-inj (rw (a, b, c, d, e) at h))

-- What the checks leave of a record's evidence.
make_record-ok :
    {V : Type 0} (resolve : String → String) (now : String) (q r : MemoryRecord V)
    → make_record resolve now q ≡ ok r
    → (r.validation_status ≡ q.validation_status)
      × (r.validation_method ≡ q.validation_method)
      × (r.validated_at ≡ (
          if is_verified q.validation_status && is_missing q.validated_at
          then some now
          else q.validated_at))
make_record-ok {V} resolve now q r h =
    let made = make_record-eq-ok resolve now q r h in
    (
      ap (λ (x : MemoryRecord V). x.validation_status) made,
      ap (λ (x : MemoryRecord V). x.validation_method) made,
      ap (λ (x : MemoryRecord V). x.validated_at) made,
    )

classify_by-is_ok :
    {V : Type 0} (det inter : Bool) (claim : CandidateClaim V)
    → is_ok (classify_by det inter claim) ≡ (
        is_interpretive claim.source_type
        || not claim.validated
        || not (is_missing claim.validation_method))
unfolding classify_by
classify_by-is_ok det inter claim = ground arith

classify-is_ok :
    {V : Type 0} (claim : CandidateClaim V)
    → is_ok (classify claim) ≡ (
        is_interpretive claim.source_type
        || not claim.validated
        || not (is_missing claim.validation_method))
unfolding classify
classify-is_ok claim = classify_by-is_ok _ _ claim

accepted :
    (a b c v m i w x : Bool)
    → (v ≡ true → m ≡ false)
    → (v ≡ true → i ≡ false)
    → x ≡ true
    → x ≡ w
    → (not a && (not (b || c) && (not false && (not (v && m) && (not (i && v) && true)))))
      ≡ (not a && not b && not c && w)
accepted a b c v m i w x h k e f = ground arith

module _ {V : Type 0} (resolve : String → String) (memory_id now : String)
    (claim : CandidateClaim V) where
  -- A promoted record is verified exactly if its claim is proven, and then it names a method and a time.
  pub promoted_verified :
      (r : MemoryRecord V)
      → promoted resolve memory_id now claim ≡ ok r
      → (is_verified r.validation_status ≡ is_proven claim)
        × (is_verified r.validation_status ≡ true → is_missing r.validation_method ≡ false)
        × (is_verified r.validation_status ≡ true → r.validated_at ≡ some now)
  unfolding promoted claimed_record
  promoted_verified r h = by_class (classify claim) refl h
    where
      by_class :
          (c : Result (ValidationStatus × ℕ × Option String))
          → classify claim ≡ c
          → (c >>= λ k. make_record resolve now (claimed_record memory_id now claim k)) ≡ ok r
          → (is_verified r.validation_status ≡ is_proven claim)
            × (is_verified r.validation_status ≡ true → is_missing r.validation_method ≡ false)
            × (is_verified r.validation_status ≡ true → r.validated_at ≡ some now)
      by_class (err e) made h = absurd (cc h)
      by_class (ok k) made h =
          let sound = classify-IsSound claim k made in
          let (status, method, time) = make_record-ok resolve now _ r h in
          (
            ap is_verified status ∙ sound.exact,
            λ v. rw method (sound.method (rw status at v)),
            λ v. time ∙ rw (rw status at v) refl,
          )

  -- A claim is refused exactly if one of its three texts is blank, or it is called validated by a
  -- source that may verify without naming a method: no other check of the record can fail.
  pub promoted_accepts : is_ok (promoted resolve memory_id now claim) ≡ (
      not (is_blank claim.project_workspace_id)
      && not (is_blank claim.subject)
      && not (is_blank claim.predicate)
      && (is_interpretive claim.source_type
          || not claim.validated
          || not (is_missing claim.validation_method)))
  unfolding promoted claimed_record
  promoted_accepts = by_class (classify claim) refl
    where
      by_class :
          (c : Result (ValidationStatus × ℕ × Option String))
          → classify claim ≡ c
          → is_ok (c >>= λ k. make_record resolve now (claimed_record memory_id now claim k)) ≡ (
              not (is_blank claim.project_workspace_id)
              && not (is_blank claim.subject)
              && not (is_blank claim.predicate)
              && (is_interpretive claim.source_type
                  || not claim.validated
                  || not (is_missing claim.validation_method)))
      by_class (err e) made = ground (arith, ap is_ok made, classify-is_ok claim)
      by_class (ok k) made =
          let sound = classify-IsSound claim k made in
          rw
            (make_record-is_ok resolve now (claimed_record memory_id now claim k), sound.confidence)
            (accepted (is_blank claim.project_workspace_id) (is_blank claim.subject)
              (is_blank claim.predicate) _ _ _ _ _ sound.method sound.source (ap is_ok made)
              (classify-is_ok claim))
