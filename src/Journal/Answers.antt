-- ===== src/Journal/Answers.antt =====
-- internal/journal/interactions.go: what a reply that passes ValidateReply contains.
use native.Mathlib.Omega.{arith}
use az_agent_platform_go.Prelude.{
  ◌≡◌, refl, Bool, true, false, ◌&&◌, List, [], ◌∷◌, Option, none, some, GoString, str_eq, is_empty,
  length, leb, ◌==◌, anyb, All, ◌⊎◌, inl, inr, Bool-cases,
}
use az_agent_platform_go.Journal.{Interaction, Question, AnswerOption, Answer, Reply}
use az_agent_platform_go.Journal.Interactions.{
  validate_reply, valid_answers, valid_answer, answer_to, is_blank,
}
use az_agent_platform_go.Journal.Operations.{is_approval}

abbrev offers : Question → Answer → Bool
offers q a = anyb (λ (o : AnswerOption). str_eq a.option o.label) q.options

-- An answer with an option of the question, with a text of its own, or with some option and a text of
-- white space.
abbrev pub IsAnswer : Question → Answer → Type 0
IsAnswer q a =
    ((is_empty a.custom ≡ true)
      × (anyb (λ (o : AnswerOption). str_eq a.option o.label) q.options ≡ true)
      × (is_empty a.option ≡ false))
    ⊎ ((is_empty a.option ≡ true)
        × (is_blank a.custom ≡ false)
        × (leb (length a.custom) 4096 ≡ true))
    ⊎ ((is_empty a.option ≡ false)
        × (is_empty a.custom ≡ false)
        × (is_blank a.custom ≡ true)
        × (leb (length a.custom) 4096 ≡ true))

blank-is_empty : (s : GoString) → is_empty s ≡ true → is_blank s ≡ true
unfolding is_blank
blank-is_empty [] h = refl
blank-is_empty (c ∷ cs) h = cc

valid_answer-IsAnswer : (q : Question) (a : Answer) → valid_answer q a ≡ true → IsAnswer q a
unfolding valid_answer
valid_answer-IsAnswer q a h = elim (Bool-cases (is_empty a.custom)) [
  | inl t ↦
      let b = blank-is_empty a.custom t in inl (t, ground (arith, h, t), ground (arith, h, t, b))
  | inr t ↦ elim (Bool-cases (is_empty a.option)) [
    | inl u ↦ inr (inl (u, ground (arith, h, u), ground (arith, h, t)))
    | inr u ↦ inr (inr (u, t, ground (arith, h, u), ground (arith, h, t)))
  ]
]

valid_answers-All :
    (r : Reply) (qs : List Question)
    → valid_answers r qs ≡ true
    → All
        (λ (q : Question). (a : GoString × Answer) × (answer_to q.id r ≡ some a) × IsAnswer q a.1)
        qs
unfolding valid_answers
valid_answers-All r [] h = tt
valid_answers-All r (q ∷ qs) h = (first (answer_to q.id r) refl h, valid_answers-All r qs (rest h))
  where
    ok_at : Option (GoString × Answer) → Bool
    ok_at o = elim o [ none ↦ false | some a ↦ valid_answer q a.1 ]

    rest : (ok_at (answer_to q.id r) && valid_answers r qs) ≡ true → valid_answers r qs ≡ true
    rest e = ground (arith, e)

    first :
        (o : Option (GoString × Answer))
        → answer_to q.id r ≡ o
        → (ok_at o && valid_answers r qs) ≡ true
        → (a : GoString × Answer) × (answer_to q.id r ≡ some a) × IsAnswer q a.1
    first none e t = cc
    first (some a) e t = (a, e, valid_answer-IsAnswer q a.1 (ground (arith, t)))

-- A reply to questions that is accepted has as many answers as there are questions, no decision and
-- no binding, and answers each question: with one of its options, with a text of at most 4096 bytes
-- that is not white space, or with any option next to a text of white space.
pub validate_reply_questions :
    (i : Interaction) (r : Reply)
    → is_approval i.kind ≡ false
    → validate_reply i r ≡ true
    → ((length r.answers == length i.questions) ≡ true)
      × (is_empty r.decision ≡ true)
      × (is_empty r.binding ≡ true)
      × All
          (λ (q : Question). (a : GoString × Answer) × (answer_to q.id r ≡ some a) × IsAnswer q a.1)
          i.questions
unfolding validate_reply
validate_reply_questions i r kind h =
    let g = rw kind at h in
    (
      ground (arith, g),
      ground (arith, g),
      ground (arith, g),
      valid_answers-All r i.questions (ground (arith, g)),
    )
