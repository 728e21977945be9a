-- ===== src/Runtime/Trimming.antt =====
-- internal/runtime/history.go: trimHistory. The messages, their JSON and the kinds of their contents
-- are the message library's; arrays over turns are functions of the turn.
use az_agent_platform_go.Prelude.{
  ℕ, zero, suc, ◌+◌, ◌-◌, ◌/◌, Bool, true, false, ◌&&◌, List, [], ◌∷◌, Option, none, some, GoString,
  contains, lookup, insert, ltb, leb, ◌==◌, if◌then◌else◌, ℤ, pos, negsuc,
}

pub data Content : Type 0 where
  function_call function_result : GoString → Content
  other_content : Content

-- What the message library tells of a message; the length of the JSON of a history, if it encodes.
pub record Library (Message : Type 0) : Type 0 where
  pub is_user : Message → Bool
  pub contents : Message → List Content
  pub json_length : List Message → Option ℕ

abbrev pub tokens_of : Option ℕ → ℕ
tokens_of none = 0
tokens_of (some n) = (n + 3) / 4

-- A message with its turn.
pub record Entry (Message : Type 0) : Type 0 where
  pub turn : ℕ
  pub message : Message
  pub dropped : Bool

-- What the loop over the contents collects.
pub record Scan : Type 0 where
  pub call_turn : List (GoString × ℕ)
  pub kept : ℕ → Bool
  pub unit : ℕ → ℕ

abbrev pub join_turns : ℕ → ℕ → (ℕ → ℕ) → ℕ → ℕ
join_turns from to unit t = if ltb from t && leb t to then unit from else unit t

abbrev pub join_result : ℕ → Option ℕ → Scan → Scan
join_result turn none s = s
join_result turn (some from) s = record {
  call_turn = s.call_turn;
  kept = s.kept;
  unit = if ltb from turn then join_turns from turn s.unit else s.unit;
}

abbrev pub scan_content : List GoString → ℕ → Content → Scan → Scan
scan_content protected turn (function_call id) s = record {
  call_turn = insert id turn s.call_turn;
  kept = λ t. if contains protected id && (t == turn) then true else s.kept t;
  unit = s.unit;
}
scan_content protected turn (function_result id) s = join_result turn (lookup id s.call_turn) s
scan_content protected turn other_content s = s

abbrev pub scan_contents : List GoString → ℕ → List Content → Scan → Scan
scan_contents protected turn [] s = s
scan_contents protected turn (c ∷ cs) s =
    scan_contents protected turn cs (scan_content protected turn c s)

-- The variables of the loop that drops units.
pub record Dropping (Message : Type 0) : Type 0 where
  pub start : ℕ
  pub entries : List (Entry Message)
  pub current : List Message
  pub estimate : ℕ
  pub dropped_turns : ℕ
  pub dropped_messages : ℕ

-- All counts.
pub record Truncation : Type 0 where
  pub turns_dropped : ℕ
  pub messages_dropped : ℕ
  pub estimate_before : ℕ
  pub estimate_after : ℕ
  pub budget : ℕ

-- Is a turn below n, of the unit u, to be kept?
abbrev pub unit_kept : Scan → ℕ → ℕ → Bool
unit_kept s zero u = false
unit_kept s (suc n) u =
    let rest = unit_kept s n u in if s.kept n && (s.unit n == u) then true else rest

-- The end of the run of turns of one unit: `left` turns come after `end`.
abbrev pub run_end : Scan → ℕ → ℕ → ℕ → ℕ
run_end s u zero end = end
run_end s u (suc left) end =
    let further = run_end s u left (end + 1) in if s.unit (end + 1) == u then further else end

abbrev pub no_truncation : Truncation
no_truncation = record {
  turns_dropped = 0;
  messages_dropped = 0;
  estimate_before = 0;
  estimate_after = 0;
  budget = 0;
}

module _ {Message : Type 0} where
  abbrev pub entry : ℕ → Message → Entry Message
  entry t m = record { turn = t; message = m; dropped = false }

  -- The turn of the last message.
  abbrev pub last_turn : ℕ → List (Entry Message) → ℕ
  last_turn t [] = t
  last_turn t (e ∷ es) = last_turn e.turn es

  abbrev pub drop_turns : ℕ → ℕ → List (Entry Message) → List (Entry Message)
  drop_turns start end [] = []
  drop_turns start end (e ∷ es) =
      record {
        turn = e.turn;
        message = e.message;
        dropped = if leb start e.turn && leb e.turn end then true else e.dropped;
      }
      ∷ drop_turns start end es

  abbrev pub count_turns : ℕ → ℕ → List (Entry Message) → ℕ
  count_turns start end [] = 0
  count_turns start end (e ∷ es) =
      (if leb start e.turn && leb e.turn end then 1 else 0) + count_turns start end es

  abbrev pub remaining : List (Entry Message) → List Message
  remaining [] = []
  remaining (e ∷ es) = let rest = remaining es in if e.dropped then rest else e.message ∷ rest

  abbrev pub skip_unit : ℕ → Dropping Message → Dropping Message
  skip_unit end d = record {
    start = end + 1;
    entries = d.entries;
    current = d.current;
    estimate = d.estimate;
    dropped_turns = d.dropped_turns;
    dropped_messages = d.dropped_messages;
  }

  abbrev pub goes_on : ℕ → ℕ → Dropping Message → Bool
  goes_on turns budget d = ltb d.start turns && ltb budget d.estimate

  abbrev pub trimmed :
      List Message → ℕ → ℕ → Option (Dropping Message) → Option (List Message × Truncation)
  trimmed history before budget none = none
  trimmed history before budget (some d) = some (
      if d.dropped_turns == 0 then (history, no_truncation) else (
        d.current,
        record {
          turns_dropped = d.dropped_turns;
          messages_dropped = d.dropped_messages;
          estimate_before = before;
          estimate_after = d.estimate;
          budget = budget;
        },
      ))

module _ {Message : Type 0} (lib : Library Message) where
  -- estimateTokens
  unfoldable pub estimate_tokens : List Message → ℕ
  estimate_tokens history = tokens_of (lib.json_length history)

  -- turnOf, of the messages after the first.
  abbrev pub number_rest : ℕ → List Message → List (Entry Message)
  number_rest t [] = []
  number_rest t (m ∷ ms) =
      let next = if lib.is_user m then t + 1 else t in entry next m ∷ number_rest next ms

  abbrev pub number : List Message → List (Entry Message)
  number [] = []
  number (m ∷ ms) = entry zero m ∷ number_rest zero ms

  abbrev pub scan_all : List GoString → List (Entry Message) → Scan → Scan
  scan_all protected [] s = s
  scan_all protected (e ∷ es) s =
      scan_all protected es (scan_contents protected e.turn (lib.contents e.message) s)

  -- The scan of a history whose last turn is given.
  unfoldable pub scan_of : List GoString → ℕ → List (Entry Message) → Scan
  scan_of protected last es =
      scan_all protected es (record { call_turn = []; kept = λ t. t == last; unit = λ t. t })

  -- The body of the loop, for the unit from `start` to `end`.
  abbrev pub drop_unit : ℕ → ℕ → Dropping Message → Dropping Message
  drop_unit start end d =
      let entries = drop_turns start end d.entries in
      let current = remaining entries in
      record {
        start = end + 1;
        entries = entries;
        current = current;
        estimate = estimate_tokens current;
        dropped_turns = d.dropped_turns + (end - start + 1);
        dropped_messages = d.dropped_messages + count_turns start end d.entries;
      }

  -- `turns` is the number of turns.
  abbrev pub next_unit : Scan → ℕ → Dropping Message → Dropping Message
  next_unit s turns d =
      let end = run_end s (s.unit d.start) (turns - 1 - d.start) d.start in
      if unit_kept s turns (s.unit d.start) then skip_unit end d else drop_unit d.start end d

  -- The loop, for at most so many rounds; `none` if these are too few.
  unfoldable pub drop_loop : ℕ → Scan → ℕ → ℕ → Dropping Message → Option (Dropping Message)
  unfolding estimate_tokens
  drop_loop zero s turns budget d = if goes_on turns budget d then none else some d
  drop_loop (suc fuel) s turns budget d =
      let rest = drop_loop fuel s turns budget (next_unit s turns d) in
      if goes_on turns budget d then rest else some d

  abbrev pub start_of : List Message → ℕ → Dropping Message
  start_of history before = record {
    start = 0;
    entries = number history;
    current = history;
    estimate = before;
    dropped_turns = 0;
    dropped_messages = 0;
  }

  abbrev pub drop_units :
      List Message → ℕ → List GoString → ℕ → ℕ → Option (List Message × Truncation)
  drop_units history budget protected last before = trimmed history before budget (
      drop_loop (last + 1) (scan_of protected last (number history)) (last + 1) budget
        (start_of history before))

  abbrev pub fits_or_drops :
      List Message → ℕ → List GoString → ℕ → Option (List Message × Truncation)
  fits_or_drops history budget protected before =
      let trim = drop_units history budget protected (last_turn zero (number history)) before in
      if leb before budget then some (history, no_truncation) else trim

  -- trimHistory; the loop is given as many rounds as there are turns.
  unfoldable pub trim_history :
      List Message → ℤ → List GoString → Option (List Message × Truncation)
  unfolding drop_loop estimate_tokens scan_of
  trim_history [] budget protected = some ([], no_truncation)
  trim_history (m ∷ ms) (negsuc n) protected = some (m ∷ ms, no_truncation)
  trim_history (m ∷ ms) (pos zero) protected = some (m ∷ ms, no_truncation)
  trim_history (m ∷ ms) (pos (suc n)) protected =
      fits_or_drops (m ∷ ms) (suc n) protected (estimate_tokens (m ∷ ms))
