-- ===== src/Runtime/Units.antt =====
-- internal/runtime/history.go (trimHistory): the turns that belong together and those to be kept, as
-- the calls and the results of the history have them.
use native.Mathlib.Omega.{arith}
use az_agent_platform_go.Prelude.{
  ℕ, ◌≡◌, ◌≤◌, refl, ap, ◌∙◌, Bool, true, false, ◌&&◌, List, [], ◌∷◌, ◌++◌, Option, none, some,
  GoString, str_eq, contains, lookup, lookup-insert, ltb, ◌==◌, if◌then◌else◌, Bool-cases, inl, inr,
  All,
}
use az_agent_platform_go.Runtime.Trimming.{
  Content, function_call, function_result, other_content, Scan, join_turns, join_result,
  scan_content, scan_contents,
}

-- The contents of a history, each with its turn.
abbrev pub in_turn : ℕ → List Content → List (ℕ × Content) → List (ℕ × Content)
in_turn t [] rest = rest
in_turn t (c ∷ cs) rest = (t, c) ∷ in_turn t cs rest

abbrev pub is_call : GoString → Content → Bool
is_call id (function_call other) = str_eq other id
is_call id _ = false

abbrev pub latest_or : Option ℕ → Bool → ℕ → Option ℕ
latest_or (some t) b turn = some t
latest_or none b turn = if b then some turn else none

-- The turn of the last call with this id.
unfoldable pub latest_call : GoString → List (ℕ × Content) → Option ℕ
latest_call id [] = none
latest_call id ((t, c) ∷ xs) = latest_or (latest_call id xs) (is_call id c) t

abbrev pub scan_stream : List GoString → List (ℕ × Content) → Scan → Scan
scan_stream protected [] s = s
scan_stream protected ((t, c) ∷ xs) s = scan_stream protected xs (scan_content protected t c s)

pub scan_stream-append :
    (protected : List GoString) (xs ys : List (ℕ × Content)) (s : Scan)
    → scan_stream protected (xs ++ ys) s ≡ scan_stream protected ys (scan_stream protected xs s)
scan_stream-append protected [] ys s = refl
scan_stream-append protected ((t, c) ∷ xs) ys s =
    scan_stream-append protected xs ys (scan_content protected t c s)

pub scan_stream-in_turn :
    (protected : List GoString) (t : ℕ) (cs : List Content) (xs : List (ℕ × Content)) (s : Scan)
    → scan_stream protected (in_turn t cs xs) s
      ≡ scan_stream protected xs (scan_contents protected t cs s)
scan_stream-in_turn protected t [] xs s = refl
scan_stream-in_turn protected t (c ∷ cs) xs s =
    scan_stream-in_turn protected t cs xs (scan_content protected t c s)

abbrev pub either : Option ℕ → Option ℕ → Option ℕ
either none o = o
either (some t) o = some t

join_result-call_turn :
    (t : ℕ) (o : Option ℕ) (s : Scan) → (join_result t o s).call_turn ≡ s.call_turn
join_result-call_turn t none s = refl
join_result-call_turn t (some from) s = refl

-- The code's map of calls holds the last call of each id.
pub scan_stream-call_turn :
    (protected : List GoString) (xs : List (ℕ × Content)) (s : Scan) (id : GoString)
    → lookup id (scan_stream protected xs s).call_turn
      ≡ either (latest_call id xs) (lookup id s.call_turn)
unfolding latest_call
scan_stream-call_turn protected [] s id = refl
scan_stream-call_turn protected ((t, c) ∷ xs) s id =
    scan_stream-call_turn protected xs (scan_content protected t c s) id
    ∙ step c (latest_call id xs)
  where
    step :
        (c : Content) (o : Option ℕ)
        → either o (lookup id (scan_content protected t c s).call_turn)
          ≡ either (latest_or o (is_call id c) t) (lookup id s.call_turn)
    step c (some n) = refl
    step (function_call other) none = lookup-insert other id t s.call_turn ∙ by_id (str_eq other id)
      where
        by_id :
            (b : Bool)
            → (if b then some t else lookup id s.call_turn)
              ≡ either (if b then some t else none) (lookup id s.call_turn)
        by_id true = refl
        by_id false = refl
    step (function_result other) none =
        ap (lookup id) (join_result-call_turn t (lookup other s.call_turn) s)
    step other_content none = refl

-- What is to be kept stays so.
scan_content-kept :
    (protected : List GoString) (turn : ℕ) (c : Content) (s : Scan) (t : ℕ)
    → s.kept t ≡ true
    → (scan_content protected turn c s).kept t ≡ true
scan_content-kept protected turn (function_call id) s t h =
    elim (Bool-cases (contains protected id && (t == turn))) [ inl e ↦ rw e refl | inr e ↦ rw e h ]
scan_content-kept protected turn (function_result id) s t h = by_call (lookup id s.call_turn)
  where
    by_call : (o : Option ℕ) → (join_result turn o s).kept t ≡ true
    by_call none = h
    by_call (some from) = h
scan_content-kept protected turn other_content s t h = h

pub scan_stream-kept :
    (protected : List GoString) (xs : List (ℕ × Content)) (s : Scan) (t : ℕ)
    → s.kept t ≡ true
    → (scan_stream protected xs s).kept t ≡ true
scan_stream-kept protected [] s t h = h
scan_stream-kept protected ((turn, c) ∷ xs) s t h =
    scan_stream-kept protected xs (scan_content protected turn c s) t
      (scan_content-kept protected turn c s t h)

-- Turns of one unit.
abbrev pub AreJoined : (ℕ → ℕ) → ℕ → ℕ → Type 0
AreJoined unit from to = (t : ℕ) → from ≤ t → t ≤ to → unit t ≡ unit from

join_turns-AreJoined :
    (unit : ℕ → ℕ) (from to other turn : ℕ)
    → to ≤ turn
    → AreJoined unit from to
    → AreJoined (join_turns other turn unit) from to
join_turns-AreJoined unit from to other turn h j t low high = elim (Bool-cases (ltb other from)) [
  | inl before ↦ ground (arith, before, h, low, high)
  | inr after ↦ elim (Bool-cases (ltb other t)) [
    | inl across ↦ ground (arith, after, across, h, low, high, j other)
    | inr beyond ↦ ground (arith, after, beyond, h, low, high, j t)
  ]
]

scan_content-AreJoined :
    (protected : List GoString) (turn : ℕ) (c : Content) (s : Scan) (from to : ℕ)
    → to ≤ turn
    → AreJoined s.unit from to
    → AreJoined (scan_content protected turn c s).unit from to
scan_content-AreJoined protected turn (function_call id) s from to h j = j
scan_content-AreJoined protected turn other_content s from to h j = j
scan_content-AreJoined protected turn (function_result id) s from to h j =
    by_call (lookup id s.call_turn)
  where
    joined :
        (other : ℕ) (b : Bool)
        → AreJoined (if b then join_turns other turn s.unit else s.unit) from to
    joined other true = join_turns-AreJoined s.unit from to other turn h j
    joined other false = j

    by_call : (o : Option ℕ) → AreJoined (join_result turn o s).unit from to
    by_call none = j
    by_call (some other) = joined other (ltb other turn)

pub scan_stream-AreJoined :
    (protected : List GoString) (xs : List (ℕ × Content)) (s : Scan) (from to : ℕ)
    → All (λ (x : ℕ × Content). to ≤ x.0) xs
    → AreJoined s.unit from to
    → AreJoined (scan_stream protected xs s).unit from to
scan_stream-AreJoined protected [] s from to a j = j
scan_stream-AreJoined protected ((turn, c) ∷ xs) s from to a j =
    scan_stream-AreJoined protected xs (scan_content protected turn c s) from to a.1
      (scan_content-AreJoined protected turn c s from to a.0 j)

-- A result joins the turns from its call's on.
pub result-AreJoined :
    (s : Scan) (from to : ℕ) → AreJoined (join_result to (some from) s).unit from to
result-AreJoined s from to t low high = by_order (ltb from to) refl
  where
    by_order :
        (b : Bool)
        → ltb from to ≡ b
        → (if b then join_turns from to s.unit else s.unit) t
          ≡ (if b then join_turns from to s.unit else s.unit) from
    by_order true e = ground (arith, e, low, high)
    by_order false e = let same : t ≡ from = ground (arith, e, low, high) in ap s.unit same
