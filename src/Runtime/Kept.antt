-- ===== src/Runtime/Kept.antt =====
-- internal/runtime/history.go: what trimHistory promises.
use native.Mathlib.Omega.{arith}
use az_agent_platform_go.Prelude.{
  ℕ, zero, ◌+◌, ◌≡◌, ◌≤◌, refl, sym, subst, ◌∙◌, Bool, true, false, not, ◌||◌, List, [], ◌∷◌,
  GoString, contains, lookup-nil, ◌==◌, if◌then◌else◌, All,
}
use az_agent_platform_go.Runtime.Trimming.{
  Library, Content, Scan, Dropping, scan_of, number, number_rest, last_turn,
}
use az_agent_platform_go.Runtime.Dropped.{kept_turn, select, remaining-select}
use az_agent_platform_go.Runtime.Steady.{IsSteady}
use az_agent_platform_go.Runtime.Units.{in_turn, AreJoined, scan_stream, scan_stream-kept}
use az_agent_platform_go.Runtime.Links.{
  links, keeps_call, links-AreJoined, scan_stream-keeps_call, stream, scan_all-stream,
  number-Ascending,
}
use az_agent_platform_go.Runtime.Trimmed.{
  IsTrimmed, kept_turn-AreJoined, kept_turn-true, links-IsOrdered, IsOrdered, IsBefore,
}

abbrev scan_start : ℕ → Scan
scan_start last = record { call_turn = []; kept = λ t. t == last; unit = λ t. t }

module _ {Message : Type 0} (lib : Library Message) where
  abbrev pub history_stream : List Message → List (ℕ × Content)
  history_stream history = stream lib (number lib history)

  abbrev pub last_of : List Message → ℕ
  last_of history = last_turn zero (number lib history)

  in_turn_le :
      (t last : ℕ) (cs : List Content) (xs : List (ℕ × Content))
      → t ≤ last
      → All (λ (x : ℕ × Content). x.0 ≤ last) xs
      → All (λ (x : ℕ × Content). x.0 ≤ last) (in_turn t cs xs)
  in_turn_le t last [] xs h a = a
  in_turn_le t last (c ∷ cs) xs h a = (h, in_turn_le t last cs xs h a)

  rest_le :
      (t : ℕ) (ms : List Message)
      → (t ≤ last_turn t (number_rest lib t ms))
        × All
            (λ (x : ℕ × Content). x.0 ≤ last_turn t (number_rest lib t ms))
            (stream lib (number_rest lib t ms))
  rest_le t [] = (omega arith, tt)
  rest_le t (m ∷ ms) =
      let next = if lib.is_user m then t + 1 else t in
      let r = rest_le next ms in
      let low : t ≤ next = ground arith in
      (
        omega (arith, low, r.0),
        in_turn_le next (last_turn next (number_rest lib next ms)) (lib.contents m)
            (stream lib (number_rest lib next ms)) r.0 r.1,
      )

  -- No turn is after the last.
  stream_le :
      (history : List Message)
      → All (λ (x : ℕ × Content). x.0 ≤ last_of history) (history_stream history)
  stream_le [] = tt
  stream_le (m ∷ ms) =
      let r = rest_le zero ms in
      in_turn_le zero (last_turn zero (number_rest lib zero ms)) (lib.contents m)
        (stream lib (number_rest lib zero ms)) r.0 r.1

  abbrev pub scanned : List GoString → List Message → Scan
  scanned protected history = scan_of lib protected (last_of history) (number lib history)

  scanned-stream :
      (protected : List GoString) (history : List Message)
      → scanned protected history
        ≡ scan_stream protected (history_stream history) (scan_start (last_of history))
  unfolding scan_of
  scanned-stream protected history =
      scan_all-stream lib protected (number lib history) (scan_start (last_of history))

  kept_last :
      (protected : List GoString) (history : List Message)
      → (scanned protected history).kept (last_of history) ≡ true
  kept_last protected history =
      subst (λ s. s.kept (last_of history) ≡ true) (sym (scanned-stream protected history))
        (scan_stream-kept protected (history_stream history) (scan_start (last_of history))
          (last_of history) (ground arith))

  kept_safe :
      (protected : List GoString) (history : List Message)
      → All
          (λ (x : ℕ × Content). keeps_call protected (scanned protected history).kept x ≡ true)
          (history_stream history)
  kept_safe protected history =
      subst
        (λ s.
          All (λ (x : ℕ × Content). keeps_call protected s.kept x ≡ true) (history_stream history))
        (sym (scanned-stream protected history))
        (scan_stream-keeps_call protected (history_stream history) (scan_start (last_of history)))

  linked_units :
      (protected : List GoString) (history : List Message)
      → All
          (λ (l : ℕ × ℕ). AreJoined (scanned protected history).unit l.0 l.1)
          (links [] (history_stream history))
  linked_units protected history =
      subst (λ s. All (λ (l : ℕ × ℕ). AreJoined s.unit l.0 l.1) (links [] (history_stream history)))
        (sym (scanned-stream protected history))
        (links-AreJoined protected [] (history_stream history) (scan_start (last_of history))
          (λ id. lookup-nil id) (number-Ascending lib history))

  -- What the loop leaves.
  module _ (protected : List GoString) (history : List Message) (d : Dropping Message)
      (v : IsSteady lib
        (scanned protected history)
        (last_of history + 1)
        (number lib history)
        d) where
    abbrev pub kept_of : ℕ → Bool
    kept_of = kept_turn (scanned protected history) (last_of history + 1) d.start

    safe_of :
        (xs : List (ℕ × Content))
        → All (λ (x : ℕ × Content). x.0 ≤ last_of history) xs
        → All
            (λ (x : ℕ × Content). keeps_call protected (scanned protected history).kept x ≡ true)
            xs
        → All (λ (x : ℕ × Content). keeps_call protected kept_of x ≡ true) xs
    safe_of [] a b = tt
    safe_of ((t, Content.other_content) ∷ xs) a b = (refl, safe_of xs a.1 b.1)
    safe_of ((t, Content.function_result id) ∷ xs) a b = (refl, safe_of xs a.1 b.1)
    safe_of ((t, Content.function_call id) ∷ xs) a b =
        (by_id (contains protected id) b.0, safe_of xs a.1 b.1)
      where
        by_id :
            (c : Bool)
            → (not c || (scanned protected history).kept t) ≡ true
            → (not c || kept_of t) ≡ true
        by_id false e = refl
        by_id true e =
            kept_turn-true (scanned protected history) (last_of history + 1) d.start t
              (omega (arith, a.0)) e

    linked_of :
        (ls : List (ℕ × ℕ))
        → All (IsOrdered (last_of history)) ls
        → All (λ (l : ℕ × ℕ). AreJoined (scanned protected history).unit l.0 l.1) ls
        → All (λ (l : ℕ × ℕ). kept_of l.0 ≡ kept_of l.1) ls
    linked_of [] a b = tt
    linked_of (l ∷ ls) a b = (
      kept_turn-AreJoined lib (scanned protected history) (last_of history + 1) (number lib history)
          d l.0 l.1 v b.0 a.0.0 (omega (arith, a.0.1)),
      linked_of ls a.1 b.1,
    )

    IsBefore-all : (xs : List (ℕ × Content)) → IsBefore [] xs
    IsBefore-all [] = tt
    IsBefore-all (x ∷ xs) = (tt, IsBefore-all xs)

    pub current_of : d.current ≡ select kept_of (number lib history)
    current_of =
        v.current
        ∙ remaining-select (scanned protected history) (last_of history + 1) d.start d.entries
            v.marked
        ∙ v.same kept_of

    pub loop-IsTrimmed : IsTrimmed lib protected history d.current kept_of
    loop-IsTrimmed = record {
      whole_turns = current_of;
      latest =
          kept_turn-true (scanned protected history) (last_of history + 1) d.start (last_of history)
            (omega arith) (kept_last protected history);
      safe = safe_of (history_stream history) (stream_le history) (kept_safe protected history);
      linked =
          linked_of (links [] (history_stream history))
            (links-IsOrdered (last_of history) [] (history_stream history)
              (IsBefore-all (history_stream history)) (number-Ascending lib history)
              (stream_le history))
            (linked_units protected history);
    }
