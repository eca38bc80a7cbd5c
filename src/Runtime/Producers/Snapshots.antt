-- ===== src/Runtime/Producers/Snapshots.antt =====
-- The state of a repository (inspect_git_state of memory/context.py, and the snapshots of
-- runtime/completion_evidence_producers.py).
use Prim.Native.Char.{Char, code}
use lbe_ci_validation.Base.{
  Bool, List, Option, Result, String, [], false, if◌then◌else◌, leb, map, nat_eq, none, not, ok,
  refl, some, sorted, strip, ◌&&◌, ◌==◌, ◌>>=◌, ◌||◌, ◌∷◌, ◌≡◌,
}

-- A line boundary of `str.splitlines`, but for the pair of a carriage return and a line feed.
abbrev is_boundary : Char → Bool
is_boundary c =
    let n = code c in
    (leb 10 n && leb n 13)
    || (leb 28 n && leb n 30)
    || nat_eq n 0x85
    || nat_eq n 0x2028
    || nat_eq n 0x2029

-- A character at the front of the first line.
with_first : Char → List String → List String
with_first c [] = String.◌∷◌ c String.[] ∷ []
with_first c (l ∷ ls) = String.◌∷◌ c l ∷ ls

-- The lines of a text; after a carriage return a line feed belongs to the line before.
lines_from : Bool → String → List String
unfolding with_first
lines_from after_return String.[] = []
lines_from after_return (String.◌∷◌ c s) =
    let rest = lines_from (nat_eq (code c) 13) s in
    if after_return && nat_eq (code c) 10
    then rest
    else if is_boundary c
    then "" ∷ rest
    else with_first c rest

unfoldable pub splitlines : String → List String
unfolding lines_from
splitlines s = lines_from false s

-- A text behind another one that it starts with.
after_prefix : String → String → Option String
after_prefix String.[] s = some s
after_prefix (String.◌∷◌ p ps) String.[] = none
after_prefix (String.◌∷◌ p ps) (String.◌∷◌ c s) =
    let rest = after_prefix ps s in if nat_eq (code p) (code c) then rest else none

-- What stands behind the last `" -> "`, if there is one.
behind_arrow : String → Option String
unfolding after_prefix
behind_arrow String.[] = none
behind_arrow (String.◌∷◌ c s) = elim (behind_arrow s) [
  | some rest ↦ some rest
  | none ↦ after_prefix " -> " (String.◌∷◌ c s)
]

abbrev or_text : Option String → String → String
or_text none s = s
or_text (some t) s = t

abbrev is_blank_char : Char → Bool
is_blank_char c = nat_eq (code c) 32

-- The entry without its status letters.
entry_path : String → String
entry_path (String.◌∷◌ a (String.◌∷◌ b (String.◌∷◌ c s))) =
    if is_blank_char b
    then strip (String.◌∷◌ c s)
    else if is_blank_char c && not (s == "")
    then strip s
    else strip (String.◌∷◌ a (String.◌∷◌ b (String.◌∷◌ c s)))
entry_path entry = strip entry

-- `_changed_path`
unfoldable pub changed_path : String → String
unfolding entry_path behind_arrow
changed_path entry = let value = entry_path entry in strip (or_text (behind_arrow value) value)

-- What `inspect_git_state` returns.
pub record GitReport : Type 0 where
  pub branch : String
  pub head : String
  pub status_short : List String

-- What `_live_git_state` returns; its changed paths are those of the entries.
pub record LiveState : Type 0 where
  pub branch : String
  pub head : String
  pub status_entries : List String

unfoldable pub changed_paths : LiveState → List String
unfolding changed_path
changed_paths state = map changed_path state.status_entries

unfoldable pub live_of : GitReport → LiveState
live_of report = record {
  branch = report.branch;
  head = report.head;
  status_entries = sorted report.status_short;
}

-- `git` runs a command of git in the workspace, and raises if it fails.
module _ {W : Type 0} (git : List String → W → Result String) where
  unfoldable pub inspect_git_state : W → Result GitReport
  unfolding splitlines
  inspect_git_state w = do
    branch ← git ("branch" ∷ "--show-current" ∷ []) w
    head ← git ("rev-parse" ∷ "HEAD" ∷ []) w
    status ← git ("status" ∷ "--short" ∷ []) w
    ok (record {
      branch = strip branch;
      head = strip head;
      status_short = splitlines (strip status);
    })

  unfoldable pub live_git_state : W → Result LiveState
  unfolding inspect_git_state live_of
  live_git_state w = do report ← inspect_git_state w; ok (live_of report)

changed_path_modified : changed_path " M src/a.py" ≡ "src/a.py"
unfolding changed_path strip
changed_path_modified = refl

changed_path_renamed : changed_path "R  old.py -> new.py" ≡ "new.py"
unfolding changed_path strip
changed_path_renamed = refl

splitlines_mixed : splitlines "a\r\nb\n\nc" ≡ "a" ∷ "b" ∷ "" ∷ "c" ∷ []
unfolding splitlines
splitlines_mixed = refl
