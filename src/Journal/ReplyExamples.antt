-- ===== src/Journal/ReplyExamples.antt =====
-- An approval that is answered, and a question that is.
use az_agent_platform_go.Prelude.{
  ◌+◌, ◌≡◌, refl, true, [], ◌∷◌, none, some, GoString, codes, is_empty, length, ◌==◌, All, str_eq,
}
use az_agent_platform_go.Journal.{
  Journal, Command, Interaction, InteractionState, Kind, Marker, Reply, Answer, Question,
}
use az_agent_platform_go.Journal.Interactions.{
  validate_reply, valid_answers, valid_answer, is_blank, answer_to,
}
use az_agent_platform_go.Journal.Replies.{reply}
use az_agent_platform_go.Journal.Answers.{validate_reply_questions, IsAnswer}
use az_agent_platform_go.Journal.Examples.{outside, command, approval_row, idle}

abbrev asked : Journal
asked = record idle {
  interactions =
      record approval_row {
        state = InteractionState.pending;
        continuation_run_id = none;
        reply = none;
        marker = some Marker.requested;
      }
      ∷ [];
}

abbrev approve_command : Command
approve_command = record command {
  run_id = codes "s";
  communication_id = codes "d";
  text = [];
  interaction_id = codes "a";
  reply_kind = codes "approval";
  reply_json = codes "op";
}

abbrev deny_command : Command
deny_command = record approve_command { run_id = codes "u"; communication_id = codes "e" }

abbrev approved : Journal
approved = (reply outside approve_command asked).0

abbrev approved_later : Journal
approved_later = record approved { now = approved.now + 5 }

abbrev size_question : Question
size_question = record {
  id = codes "q";
  header = codes "Size";
  question = codes "Which size?";
  options =
      record { label = codes "small"; description = codes "one" }
      ∷ record { label = codes "large"; description = codes "two" }
      ∷ [];
}

abbrev size_interaction : Interaction
size_interaction = record approval_row.artifact {
  kind = Kind.clarification;
  questions = size_question ∷ [];
}

abbrev large : Reply
large = record {
  answers = (codes "q", record { option = codes "large"; custom = [] }) ∷ [];
  decision = [];
  binding = [];
}

valid_large : validate_reply size_interaction large ≡ true
unfolding validate_reply valid_answers valid_answer is_blank str_eq
valid_large = refl

validate_reply_questions_example :
    ((length large.answers == length size_interaction.questions) ≡ true)
    × (is_empty large.decision ≡ true)
    × (is_empty large.binding ≡ true)
    × All
        (λ (q : Question).
          (a : GoString × Answer) × (answer_to q.id large ≡ some a) × IsAnswer q a.1)
        size_interaction.questions
validate_reply_questions_example = validate_reply_questions size_interaction large refl valid_large

-- A label that is not offered, next to a text of one space.
abbrev unoffered : Reply
unoffered = record {
  answers = (codes "q", record { option = codes "medium"; custom = codes " " }) ∷ [];
  decision = [];
  binding = [];
}

accepts_unoffered : validate_reply size_interaction unoffered ≡ true
unfolding validate_reply valid_answers valid_answer is_blank str_eq
accepts_unoffered = refl
