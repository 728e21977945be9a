-- ===== src/Runtime/Links.antt =====
-- internal/runtime/history.go (trimHistory): each result of a history linked to its call, and the
-- turns of these two in one unit.
use native.Mathlib.Omega.{arith}
use az_agent_platform_go.Prelude.{
  ℕ, zero, ◌+◌, ◌≡◌, ◌≤◌, refl, sym, ap, subst, ◌∙◌, Bool, true, false, not, ◌||◌, List, [], ◌∷◌,
  ◌++◌, Option, none, some, GoString, contains, lookup, if◌then◌else◌, All,
}
use az_agent_platform_go.Runtime.Trimming.{
  Library, Content, function_call, function_result, other_content, Entry, Scan, join_result,
  scan_content, scan_contents, scan_all, number, number_rest,
}
use az_agent_platform_go.Runtime.Units.{
  in_turn, latest_call, scan_stream, scan_stream-append, scan_stream-in_turn, either,
  scan_stream-call_turn, scan_stream-kept, AreJoined, scan_stream-AreJoined, result-AreJoined,
}

-- The turns of the call and of the result, for each result that comes after a call with its id.
abbrev pub link : Option ℕ → ℕ → List (ℕ × ℕ) → List (ℕ × ℕ)
link none t rest = rest
link (some from) t rest = (from, t) ∷ rest

abbrev pub links : List (ℕ × Content) → List (ℕ × Content) → List (ℕ × ℕ)
links before [] = []
links before ((t, function_result id) ∷ xs) =
    link (latest_call id before) t (links (before ++ (t, function_result id) ∷ []) xs)
links before ((t, function_call id) ∷ xs) = links (before ++ (t, function_call id) ∷ []) xs
links before ((t, other_content) ∷ xs) = links (before ++ (t, other_content) ∷ []) xs

-- A call with a protected id stands in a turn that is kept.
abbrev pub keeps_call : List GoString → (ℕ → Bool) → ℕ × Content → Bool
keeps_call protected kept (t, function_call id) = not (contains protected id) || kept t
keeps_call protected kept (t, function_result id) = true
keeps_call protected kept (t, other_content) = true

abbrev pub Ascending : List (ℕ × Content) → Type 0
Ascending [] = Unit {0}
Ascending (x ∷ xs) = All (λ (y : ℕ × Content). x.0 ≤ y.0) xs × Ascending xs

scan_stream_one :
    (protected : List GoString) (before : List (ℕ × Content)) (x : ℕ × Content) (s : Scan)
    → scan_stream protected (before ++ x ∷ []) s
      ≡ scan_content protected x.0 x.1 (scan_stream protected before s)
scan_stream_one protected before (t, c) s = scan_stream-append protected before ((t, c) ∷ []) s

-- The turns of each link are of one unit once the whole history is scanned.
pub links-AreJoined :
    (protected : List GoString) (before xs : List (ℕ × Content)) (s : Scan)
    → ((id : GoString) → lookup id s.call_turn ≡ none)
    → Ascending xs
    → All
        (λ (l : ℕ × ℕ).
          AreJoined (scan_stream protected xs (scan_stream protected before s)).unit l.0 l.1)
        (links before xs)
links-AreJoined protected before [] s n a = tt
links-AreJoined protected before ((t, other_content) ∷ xs) s n a =
    subst
      (λ z.
        All (λ (l : ℕ × ℕ). AreJoined (scan_stream protected xs z).unit l.0 l.1)
          (links (before ++ (t, other_content) ∷ []) xs))
      (scan_stream_one protected before (t, other_content) s)
      (links-AreJoined protected (before ++ (t, other_content) ∷ []) xs s n a.1)
links-AreJoined protected before ((t, function_call id) ∷ xs) s n a =
    subst
      (λ z.
        All (λ (l : ℕ × ℕ). AreJoined (scan_stream protected xs z).unit l.0 l.1)
          (links (before ++ (t, function_call id) ∷ []) xs))
      (scan_stream_one protected before (t, function_call id) s)
      (links-AreJoined protected (before ++ (t, function_call id) ∷ []) xs s n a.1)
links-AreJoined protected before ((t, function_result id) ∷ xs) s n a =
    linked (latest_call id before) (found (latest_call id before) refl) (
      subst
        (λ z.
          All (λ (l : ℕ × ℕ). AreJoined (scan_stream protected xs z).unit l.0 l.1)
            (links (before ++ (t, function_result id) ∷ []) xs))
        (scan_stream_one protected before (t, function_result id) s)
        (links-AreJoined protected (before ++ (t, function_result id) ∷ []) xs s n a.1))
  where
    now : Scan
    now = scan_stream protected before s

    found : (o : Option ℕ) → latest_call id before ≡ o → lookup id now.call_turn ≡ o
    found o e =
        scan_stream-call_turn protected before s id
        ∙ ap (λ p. either p (lookup id s.call_turn)) e
        ∙ ap (either o) (n id)
        ∙ unit_of o
      where
        unit_of : (p : Option ℕ) → either p none ≡ p
        unit_of none = refl
        unit_of (some from) = refl

    linked :
        (o : Option ℕ)
        → lookup id now.call_turn ≡ o
        → All
            (λ (l : ℕ × ℕ).
              AreJoined
                (scan_stream protected xs (scan_content protected t (function_result id) now)).unit
                l.0
                l.1)
            (links (before ++ (t, function_result id) ∷ []) xs)
        → All
            (λ (l : ℕ × ℕ).
              AreJoined
                (scan_stream protected xs (scan_content protected t (function_result id) now)).unit
                l.0
                l.1)
            (link o t (links (before ++ (t, function_result id) ∷ []) xs))
    linked none e rest = rest
    linked (some from) e rest = (
      subst (λ o. AreJoined (scan_stream protected xs (join_result t o now)).unit from t) (sym e)
          (scan_stream-AreJoined protected xs (join_result t (some from) now) from t a.0
            (result-AreJoined now from t)),
      rest,
    )

-- The protected calls of a history stand in turns to be kept.
pub scan_stream-keeps_call :
    (protected : List GoString) (xs : List (ℕ × Content)) (s : Scan)
    → All (λ (x : ℕ × Content). keeps_call protected (scan_stream protected xs s).kept x ≡ true) xs
scan_stream-keeps_call protected [] s = tt
scan_stream-keeps_call protected ((t, other_content) ∷ xs) s =
    (refl, scan_stream-keeps_call protected xs s)
scan_stream-keeps_call protected ((t, function_result id) ∷ xs) s =
    (refl, scan_stream-keeps_call protected xs (scan_content protected t (function_result id) s))
scan_stream-keeps_call protected ((t, function_call id) ∷ xs) s = (
  by_id (contains protected id) refl,
  scan_stream-keeps_call protected xs (scan_content protected t (function_call id) s),
)
  where
    by_id :
        (b : Bool)
        → contains protected id ≡ b
        → (not b
            || (scan_stream protected xs (scan_content protected t (function_call id) s)).kept t)
          ≡ true
    by_id false e = refl
    by_id true e =
        scan_stream-kept protected xs (scan_content protected t (function_call id) s) t
          (ground (arith, e))

module _ {Message : Type 0} (lib : Library Message) where
  abbrev pub stream : List (Entry Message) → List (ℕ × Content)
  stream [] = []
  stream (e ∷ es) = in_turn e.turn (lib.contents e.message) (stream es)

  pub scan_all-stream :
      (protected : List GoString) (es : List (Entry Message)) (s : Scan)
      → scan_all lib protected es s ≡ scan_stream protected (stream es) s
  scan_all-stream protected [] s = refl
  scan_all-stream protected (e ∷ es) s =
      scan_all-stream protected es (scan_contents protected e.turn (lib.contents e.message) s)
      ∙ sym (scan_stream-in_turn protected e.turn (lib.contents e.message) (stream es) s)

  number_rest-from :
      (t : ℕ) (ms : List Message) (n : ℕ)
      → n ≤ t
      → All (λ (e : Entry Message). n ≤ e.turn) (number_rest lib t ms)
  number_rest-from t [] n h = tt
  number_rest-from t (m ∷ ms) n h =
      let next : n ≤ (if lib.is_user m then t + 1 else t) = ground (arith, h) in
      (next, number_rest-from (if lib.is_user m then t + 1 else t) ms n next)

  in_turn-from :
      (n t : ℕ) (cs : List Content) (xs : List (ℕ × Content))
      → n ≤ t
      → All (λ (x : ℕ × Content). n ≤ x.0) xs
      → All (λ (x : ℕ × Content). n ≤ x.0) (in_turn t cs xs)
  in_turn-from n t [] xs h a = a
  in_turn-from n t (c ∷ cs) xs h a = (h, in_turn-from n t cs xs h a)

  stream-from :
      (n : ℕ) (es : List (Entry Message))
      → All (λ (e : Entry Message). n ≤ e.turn) es
      → All (λ (x : ℕ × Content). n ≤ x.0) (stream es)
  stream-from n [] a = tt
  stream-from n (e ∷ es) a =
      in_turn-from n e.turn (lib.contents e.message) (stream es) a.0 (stream-from n es a.1)

  in_turn-Ascending :
      (t : ℕ) (cs : List Content) (xs : List (ℕ × Content))
      → All (λ (x : ℕ × Content). t ≤ x.0) xs
      → Ascending xs
      → Ascending (in_turn t cs xs)
  in_turn-Ascending t [] xs a v = v
  in_turn-Ascending t (c ∷ cs) xs a v =
      (in_turn-from t t cs xs (omega arith) a, in_turn-Ascending t cs xs a v)

  number_rest-Ascending : (t : ℕ) (ms : List Message) → Ascending (stream (number_rest lib t ms))
  number_rest-Ascending t [] = tt
  number_rest-Ascending t (m ∷ ms) =
      let next = if lib.is_user m then t + 1 else t in
      in_turn-Ascending next (lib.contents m) (stream (number_rest lib next ms))
        (stream-from next (number_rest lib next ms) (number_rest-from next ms next (omega arith)))
        (number_rest-Ascending next ms)

  pub number-Ascending : (ms : List Message) → Ascending (stream (number lib ms))
  number-Ascending [] = tt
  number-Ascending (m ∷ ms) =
      in_turn-Ascending zero (lib.contents m) (stream (number_rest lib zero ms))
        (stream-from zero (number_rest lib zero ms) (number_rest-from zero ms zero (omega arith)))
        (number_rest-Ascending zero ms)
