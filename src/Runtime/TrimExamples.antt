-- ===== src/Runtime/TrimExamples.antt =====
-- trimHistory at a concrete history.
use az_agent_platform_go.Prelude.{
  ℕ, ◌+◌, ◌≡◌, ◌≤◌, ◌⊎◌, refl, Bool, true, false, List, [], ◌∷◌, some, codes, pos, lookup, insert,
  contains, str_eq,
}
use az_agent_platform_go.Runtime.Trimming.{
  Library, Content, function_call, function_result, Truncation, estimate_tokens, trim_history,
  number,
}
use az_agent_platform_go.Runtime.Dropped.{select, kept_turn}
use az_agent_platform_go.Runtime.Trimmed.{IsTrimmed}
use az_agent_platform_go.Runtime.Kept.{scanned, last_of}
use az_agent_platform_go.Runtime.TrimHistory.{trim_history-IsTrimmed, trim_history-fits}

record Note : Type 0 where
  from_user : Bool
  parts : List Content
  size : ℕ

abbrev total : List Note → ℕ
total [] = 0
total (m ∷ ms) = m.size + total ms

abbrev notes : Library Note
notes = record {
  is_user = λ m. m.from_user;
  contents = λ m. m.parts;
  json_length = λ ms. some (total ms);
}

abbrev note_of : Bool → List Content → Note
note_of user parts = record { from_user = user; parts = parts; size = 40 }

-- Five turns: the second calls "a", the third answers it.
abbrev history : List Note
history =
    note_of true []
    ∷ note_of true []
    ∷ note_of false (function_call (codes "a") ∷ [])
    ∷ note_of true (function_result (codes "a") ∷ [])
    ∷ note_of true []
    ∷ note_of true []
    ∷ []

-- 60 tokens; a budget of 25 leaves the last two turns.
trim :
    trim_history notes history (pos 25) []
    ≡ some (
      note_of true [] ∷ note_of true [] ∷ [],
      record {
        turns_dropped = 3;
        messages_dropped = 4;
        estimate_before = 60;
        estimate_after = 20;
        budget = 25;
      },
    )
unfolding trim_history lookup insert contains str_eq
trim = refl

-- The turns of a protected call stay, whatever the budget.
abbrev protected_trim : List Note × Truncation
protected_trim = (
  note_of true []
      ∷ note_of false (function_call (codes "a") ∷ [])
      ∷ note_of true (function_result (codes "a") ∷ [])
      ∷ note_of true []
      ∷ [],
  record {
    turns_dropped = 2;
    messages_dropped = 2;
    estimate_before = 60;
    estimate_after = 40;
    budget = 25;
  },
)

trim_protected : trim_history notes history (pos 25) (codes "a" ∷ []) ≡ some protected_trim
unfolding trim_history lookup insert contains str_eq
trim_protected = refl

trim_history-IsTrimmed_example :
    (r : List Note × Truncation) × (trim_history notes history (pos 25) (codes "a" ∷ []) ≡ some r)
    × (kept : ℕ → Bool) × IsTrimmed notes (codes "a" ∷ []) history r.0 kept
trim_history-IsTrimmed_example = trim_history-IsTrimmed notes history (pos 25) (codes "a" ∷ [])

trim_history-fits_example :
    (estimate_tokens notes protected_trim.0 ≤ 25)
    ⊎ (protected_trim.0
        ≡ select
            (kept_turn
              (scanned notes (codes "a" ∷ []) history)
              (last_of notes history + 1)
              (last_of notes history + 1))
            (number notes history))
trim_history-fits_example =
    trim_history-fits notes history 24 (codes "a" ∷ []) protected_trim trim_protected
