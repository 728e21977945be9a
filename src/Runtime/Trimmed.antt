-- ===== src/Runtime/Trimmed.antt =====
-- internal/runtime/history.go (trimHistory): what is left of a history.
use native.Mathlib.Omega.{arith}
use az_agent_platform_go.Prelude.{
  ℕ, zero, suc, ◌+◌, ◌-◌, ◌≡◌, ◌≤◌, ◌<◌, refl, sym, ap, subst, ◌∙◌, Bool, true, false, not, ◌&&◌,
  List, [], ◌∷◌, ◌++◌, Option, none, some, GoString, ltb, ◌==◌, if◌then◌else◌, Bool-cases, inl, inr,
  All, All-append_one, ==_iff,
}
use az_agent_platform_go.Runtime.Trimming.{
  Library, Content, function_call, function_result, other_content, Entry, Scan, Dropping, unit_kept,
  number, number_rest, last_turn, remaining, start_of, estimate_tokens,
}
use az_agent_platform_go.Runtime.Dropped.{kept_turn, kept_turn-later, select, IsMarked}
use az_agent_platform_go.Runtime.Steady.{IsSteady}
use az_agent_platform_go.Runtime.Units.{latest_call, latest_or, is_call, AreJoined}
use az_agent_platform_go.Runtime.Links.{link, links, keeps_call, Ascending, stream}

latest_call_le :
    (id : GoString) (before : List (ℕ × Content)) (from t : ℕ)
    → All (λ (y : ℕ × Content). y.0 ≤ t) before
    → latest_call id before ≡ some from
    → from ≤ t
unfolding latest_call
latest_call_le id [] from t a h = cc
latest_call_le id ((u, c) ∷ xs) from t a h =
    by_later (latest_call id xs) (latest_call_le id xs from t a.1) (is_call id c) h
  where
    by_later :
        (o : Option ℕ)
        → (o ≡ some from → from ≤ t)
        → (b : Bool) → latest_or o b u ≡ some from
        → from ≤ t
    by_later (some n) later b e = later e
    by_later none later true e = let same : u ≡ from = cc e in omega (arith, same, a.0)
    by_later none later false e = cc

-- Every turn before is at most every turn after.
abbrev pub IsBefore : List (ℕ × Content) → List (ℕ × Content) → Type 0
IsBefore before xs = All (λ (x : ℕ × Content). All (λ (y : ℕ × Content). y.0 ≤ x.0) before) xs

IsBefore-append :
    (before : List (ℕ × Content)) (x : ℕ × Content) (xs : List (ℕ × Content))
    → All (λ (z : ℕ × Content). x.0 ≤ z.0) xs
    → IsBefore before xs
    → IsBefore (before ++ x ∷ []) xs
IsBefore-append before x [] a b = tt
IsBefore-append before x (z ∷ xs) a b = (
  All-append_one (λ (y : ℕ × Content). y.0 ≤ z.0) before x b.0 a.0,
  IsBefore-append before x xs a.1 b.1,
)

abbrev pub IsOrdered : ℕ → ℕ × ℕ → Type 0
IsOrdered last l = (l.0 ≤ l.1) × (l.1 ≤ last)

pub links-IsOrdered :
    (last : ℕ) (before xs : List (ℕ × Content))
    → IsBefore before xs
    → Ascending xs
    → All (λ (x : ℕ × Content). x.0 ≤ last) xs
    → All (IsOrdered last) (links before xs)
links-IsOrdered last before [] b a h = tt
links-IsOrdered last before ((t, other_content) ∷ xs) b a h =
    links-IsOrdered last (before ++ (t, other_content) ∷ []) xs
      (IsBefore-append before (t, other_content) xs a.0 b.1) a.1 h.1
links-IsOrdered last before ((t, function_call id) ∷ xs) b a h =
    links-IsOrdered last (before ++ (t, function_call id) ∷ []) xs
      (IsBefore-append before (t, function_call id) xs a.0 b.1) a.1 h.1
links-IsOrdered last before ((t, function_result id) ∷ xs) b a h =
    linked (latest_call id before) (λ from e. latest_call_le id before from t b.0 e)
      (links-IsOrdered last (before ++ (t, function_result id) ∷ []) xs
        (IsBefore-append before (t, function_result id) xs a.0 b.1) a.1 h.1)
  where
    linked :
        (o : Option ℕ)
        → ((from : ℕ) → o ≡ some from → from ≤ t)
        → All (IsOrdered last) (links (before ++ (t, function_result id) ∷ []) xs)
        → All (IsOrdered last) (link o t (links (before ++ (t, function_result id) ∷ []) xs))
    linked none f rest = rest
    linked (some from) f rest = ((f from refl, h.0), rest)

unit_kept-true :
    (s : Scan) (n t u : ℕ) → t < n → s.kept t ≡ true → s.unit t ≡ u → unit_kept s n u ≡ true
unit_kept-true s zero t u h k e = let never : ⊥ = omega (arith, h) in elim never [ ]
unit_kept-true s (suc n) t u h k e = elim (Bool-cases (t == n)) [
  | inl q ↦
      let here : (s.kept n && (s.unit n == u)) ≡ true =
        subst (λ m. (s.kept m && (s.unit m == u)) ≡ true) ((==_iff t n).0 q)
          (ground (arith, k, e)) in
      rw here refl
  | inr q ↦
      further (s.kept n && (s.unit n == u)) (unit_kept-true s n t u (ground (arith, h, q)) k e)
]
  where
    further : (b : Bool) → unit_kept s n u ≡ true → (if b then true else unit_kept s n u) ≡ true
    further true q = refl
    further false q = q

-- A turn that is to be kept is kept.
pub kept_turn-true :
    (s : Scan) (turns stop t : ℕ) → t < turns → s.kept t ≡ true → kept_turn s turns stop t ≡ true
unfolding kept_turn
kept_turn-true s turns stop t h k = ground (arith, unit_kept-true s turns t (s.unit t) h k refl)

module _ {Message : Type 0} (lib : Library Message) where
  -- Turns of one unit are kept or dropped together.
  pub kept_turn-AreJoined :
      (s : Scan) (turns : ℕ) (whole : List (Entry Message)) (d : Dropping Message) (from to : ℕ)
      → IsSteady lib s turns whole d
      → AreJoined s.unit from to
      → from ≤ to
      → to < turns
      → kept_turn s turns d.start from ≡ kept_turn s turns d.start to
  unfolding kept_turn
  kept_turn-AreJoined s turns whole d from to v j h l = elim (Bool-cases (ltb from d.start)) [
    | inr after ↦ ground (arith, after, h)
    | inl before ↦ elim (Bool-cases (ltb to d.start)) [
      | inl both ↦ ground (arith, before, both, ap (unit_kept s turns) (j to h (omega arith)))
      | inr across ↦
          let p = d.start - 1 in
          let first : suc p ≡ d.start = ground (arith, before) in
          let never : ⊥ = ground (
            arith,
            v.apart p first (ground (arith, across, l)),
            j p (ground (arith, before)) (ground (arith, across)),
            j d.start (ground (arith, before)) (ground (arith, across)),
          ) in
          elim never [ ]
    ]
  ]

  -- What is left of a history: whole turns, the latest and those of protected calls among them, each
  -- result of a call together with the call.
  pub record IsTrimmed (protected : List GoString) (history out : List Message) (kept : ℕ → Bool)
      : Type 0 where
    pub whole_turns : out ≡ select kept (number lib history)
    pub latest : kept (last_turn zero (number lib history)) ≡ true
    pub safe :
        All
          (λ (x : ℕ × Content). keeps_call protected kept x ≡ true)
          (stream lib (number lib history))
    pub linked :
        All (λ (l : ℕ × ℕ). kept l.0 ≡ kept l.1) (links [] (stream lib (number lib history)))

  pub number-select : (history : List Message) → history ≡ select (λ t. true) (number lib history)
  number-select [] = refl
  number-select (m ∷ ms) = ap (λ l. m ∷ l) (rest zero ms)
    where
      rest : (t : ℕ) (ns : List Message) → ns ≡ select (λ t. true) (number_rest lib t ns)
      rest t [] = refl
      rest t (n ∷ ns) = ap (λ l. n ∷ l) (rest (if lib.is_user n then t + 1 else t) ns)

  -- A history of which nothing is dropped.
  pub untrimmed :
      (protected : List GoString) (history : List Message)
      → IsTrimmed protected history history (λ t. true)
  untrimmed protected history = record {
    whole_turns = number-select history;
    latest = refl;
    safe = safe_all (stream lib (number lib history));
    linked = linked_all (links [] (stream lib (number lib history)));
  }
    where
      safe_all :
          (xs : List (ℕ × Content))
          → All (λ (x : ℕ × Content). keeps_call protected (λ t. true) x ≡ true) xs
      safe_all [] = tt
      safe_all ((t, function_call id) ∷ xs) = (ground arith, safe_all xs)
      safe_all ((t, function_result id) ∷ xs) = (refl, safe_all xs)
      safe_all ((t, other_content) ∷ xs) = (refl, safe_all xs)

      linked_all : (ls : List (ℕ × ℕ)) → All (λ (l : ℕ × ℕ). ◌≡◌ {A = Bool} true true) ls
      linked_all [] = tt
      linked_all (l ∷ ls) = (refl, linked_all ls)

  unmarked :
      (history : List Message) → All (λ (e : Entry Message). e.dropped ≡ false) (number lib history)
  unmarked [] = tt
  unmarked (m ∷ ms) = (refl, rest zero ms)
    where
      rest :
          (t : ℕ) (ns : List Message)
          → All (λ (e : Entry Message). e.dropped ≡ false) (number_rest lib t ns)
      rest t [] = tt
      rest t (n ∷ ns) = (refl, rest (if lib.is_user n then t + 1 else t) ns)

  start-IsMarked :
      (s : Scan) (turns : ℕ) (es : List (Entry Message))
      → All (λ (e : Entry Message). e.dropped ≡ false) es
      → All (IsMarked s turns 0) es
  start-IsMarked s turns [] a = tt
  start-IsMarked s turns (e ∷ es) a = (
    a.0 ∙ ap (λ b. not b) (sym (kept_turn-later s turns 0 e.turn (omega arith))),
    start-IsMarked s turns es a.1,
  )

  unmarked-remaining :
      (es : List (Entry Message))
      → All (λ (e : Entry Message). e.dropped ≡ false) es
      → select (λ t. true) es ≡ remaining es
  unmarked-remaining [] a = refl
  unmarked-remaining (e ∷ es) a =
      ap (λ l. e.message ∷ l) (unmarked-remaining es a.1)
      ∙ ap (λ b. if b then remaining es else e.message ∷ remaining es) (sym a.0)

  pub start-IsSteady :
      (s : Scan) (turns : ℕ) (history : List Message)
      → IsSteady lib s turns
          (number lib history)
          (start_of lib history (estimate_tokens lib history))
  start-IsSteady s turns history = record {
    bounded = omega arith;
    marked = start-IsMarked s turns (number lib history) (unmarked history);
    apart = λ t e h. (let never : ⊥ = omega (arith, e) in elim never [ ]);
    current = number-select history ∙ unmarked-remaining (number lib history) (unmarked history);
    estimate = refl;
    same = λ keep. refl;
    none_dropped = λ z t h. (let never : ⊥ = omega (arith, h) in elim never [ ]);
  }
