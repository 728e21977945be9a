-- ===== src/Journal/Interactions.antt =====
-- internal/journal/interactions.go: the validity of a question and of a reply.
use az_agent_platform_go.Prelude.{
  ℕ, Bool, true, false, not, ◌&&◌, ◌||◌, List, [], ◌∷◌, Option, none, some, GoString, str_eq,
  is_empty, codes, length, ltb, leb, ◌==◌, anyb, filterb, find_row, if◌then◌else◌, contains,
}
use az_agent_platform_go.Journal.{Interaction, Kind, Question, AnswerOption, Answer, Reply}
use az_agent_platform_go.Journal.Operations.{is_approval}

-- The bytes of a UTF-8 white space character read so far; `word` for a text that is not blank.
pub data Space : Type 0 where
  between after_c2 after_e1 after_e19a after_e2 after_e280 after_e281 after_e3 after_e380 word :
      Space

-- unicode.IsSpace, byte by byte.
abbrev pub space_step : Space → ℕ → Space
space_step between c =
    if leb 9 c && leb c 13 || c == 32
    then between
    else if c == 194
    then after_c2
    else if c == 225
    then after_e1
    else if c == 226
    then after_e2
    else if c == 227
    then after_e3
    else word
space_step after_c2 c = if c == 133 || c == 160 then between else word
space_step after_e1 c = if c == 154 then after_e19a else word
space_step after_e19a c = if c == 128 then between else word
space_step after_e2 c = if c == 128 then after_e280 else if c == 129 then after_e281 else word
space_step after_e280 c =
    if leb 128 c && leb c 138 || c == 168 || c == 169 || c == 175 then between else word
space_step after_e281 c = if c == 159 then between else word
space_step after_e3 c = if c == 128 then after_e380 else word
space_step after_e380 c = if c == 128 then between else word
space_step word c = word

abbrev pub is_between : Space → Bool
is_between between = true
is_between _ = false

abbrev pub blank_from : Space → GoString → Bool
blank_from s [] = is_between s
blank_from s (c ∷ cs) = blank_from (space_step s c) cs

-- strings.TrimSpace(s) == ""
unfoldable pub is_blank : GoString → Bool
is_blank s = blank_from between s

-- len([]rune(s)) of a valid UTF-8 text: its bytes that continue no character.
abbrev pub rune_count : GoString → ℕ
rune_count s = length (filterb (λ c. ltb c 128 || leb 192 c) s)

-- The options of a question, after the labels seen.
unfoldable pub valid_options : List GoString → List AnswerOption → Bool
unfolding is_blank
valid_options seen [] = true
valid_options seen (o ∷ os) =
    not (is_blank o.label)
    && not (is_blank o.description)
    && not (contains seen o.label)
    && valid_options (o.label ∷ seen) os

unfoldable pub valid_question : List GoString → Question → Bool
unfolding is_blank valid_options
valid_question seen q =
    not (is_empty q.id)
    && not (contains seen q.id)
    && not (is_blank q.question)
    && not (is_empty q.header)
    && leb (rune_count q.header) 12
    && leb 2 (length q.options)
    && leb (length q.options) 3
    && valid_options [] q.options

unfoldable pub valid_questions : List GoString → List Question → Bool
unfolding valid_question
valid_questions seen [] = true
valid_questions seen (q ∷ qs) = valid_question seen q && valid_questions (q.id ∷ seen) qs

abbrev pub is_clarification : Kind → Bool
is_clarification Kind.clarification = true
is_clarification _ = false

-- Interaction.Validate: false for ErrState.
unfoldable pub validate : Interaction → Bool
unfolding valid_questions
validate i =
    not (
      is_empty i.id
      || is_empty i.call.call_id
      || is_empty i.call.provider_call_id
      || is_empty i.call.name)
    && not (is_empty i.call.binding)
    && (if is_approval i.kind
        then length i.questions == 0
        else is_clarification i.kind
          && leb 1 (length i.questions)
          && leb (length i.questions) 3
          && valid_questions [] i.questions)

abbrev pub answer_to : GoString → Reply → Option (GoString × Answer)
answer_to id r = find_row (λ (a : GoString × Answer). str_eq a.0 id) r.answers

-- An answer chooses an option, or is a text of at most 4096 bytes; never both, never neither.
unfoldable pub valid_answer : Question → Answer → Bool
unfolding is_blank
valid_answer q a =
    (if is_empty a.option then not (is_blank a.custom) else is_blank a.custom)
    && (if is_empty a.custom
        then anyb (λ (o : AnswerOption). str_eq a.option o.label) q.options
        else leb (length a.custom) 4096)

unfoldable pub valid_answers : Reply → List Question → Bool
unfolding valid_answer
valid_answers r [] = true
valid_answers r (q ∷ qs) =
    elim (answer_to q.id r) [ none ↦ false | some a ↦ valid_answer q a.1 ] && valid_answers r qs

-- Interaction.ValidateReply: false for ErrState. The answers are a map, so their keys are distinct.
unfoldable pub validate_reply : Interaction → Reply → Bool
unfolding valid_answers
validate_reply i r =
    if is_approval i.kind
    then length r.answers == 0
      && str_eq r.binding i.call.binding
      && (str_eq r.decision (codes "approve") || str_eq r.decision (codes "deny"))
    else is_empty r.decision
      && is_empty r.binding
      && length r.answers == length i.questions
      && valid_answers r i.questions
