-- ===== src/Runtime/Dropped.antt =====
-- internal/runtime/history.go (trimHistory): which turns the loop over the units drops.
use native.Mathlib.Omega.{arith}
use az_agent_platform_go.Prelude.{
  ℕ, zero, suc, ◌+◌, ◌≡◌, ◌≤◌, ◌<◌, ◌⊎◌, refl, sym, ap, subst, ◌∙◌, Bool, true, false, not, ◌&&◌,
  ◌||◌, List, [], ◌∷◌, ltb, leb, ◌==◌, if◌then◌else◌, Bool-cases, inl, inr, All, ==_iff, leb→le,
  leb→lt,
}
use az_agent_platform_go.Runtime.Trimming.{Entry, Scan, unit_kept, run_end, drop_turns, remaining}

-- The run of turns of one unit: it is of that unit, and the turn after it is not.
pub record IsRun (s : Scan) (u left end r : ℕ) : Type 0 where
  pub low : end ≤ r
  pub high : r ≤ end + left
  pub inside : (t : ℕ) → end < t → t ≤ r → s.unit t ≡ u
  pub outside : r < end + left → (s.unit (r + 1) == u) ≡ false

pub run_end-IsRun : (s : Scan) (u left end : ℕ) → IsRun s u left end (run_end s u left end)
run_end-IsRun s u zero end = record {
  low = omega arith;
  high = omega arith;
  inside = λ t a b. (let never : ⊥ = omega (arith, a, b) in elim never [ ]);
  outside = λ h. (let never : ⊥ = omega (arith, h) in elim never [ ]);
}
run_end-IsRun s u (suc left) end =
    further (s.unit (end + 1) == u) refl (run_end-IsRun s u left (end + 1))
  where
    further :
        (b : Bool)
        → (s.unit (end + 1) == u) ≡ b
        → IsRun s u left (end + 1) (run_end s u left (end + 1))
        → IsRun s u (suc left) end (if b then run_end s u left (end + 1) else end)
    further false e r = record {
      low = omega arith;
      high = omega arith;
      inside = λ t a b. (let never : ⊥ = omega (arith, a, b) in elim never [ ]);
      outside = λ h. e;
    }
    further true e r = record {
      low = omega (arith, r.low);
      high = omega (arith, r.high);
      inside = λ t a b. elim (Bool-cases (t == end + 1)) [
        | inl q ↦
            subst (λ n. s.unit n ≡ u) (sym ((==_iff t (end + 1)).0 q))
              ((==_iff (s.unit (end + 1)) u).0 e)
        | inr q ↦ r.inside t (ground (arith, a, q)) b
      ];
      outside = λ h. r.outside (omega (arith, h));
    }

-- The turns that are left when the loop has reached `stop`.
unfoldable pub kept_turn : Scan → ℕ → ℕ → ℕ → Bool
kept_turn s turns stop t = not (ltb t stop) || unit_kept s turns (s.unit t)

pub kept_turn-unit :
    (s : Scan) (turns stop t : ℕ) (b : Bool)
    → t < stop
    → unit_kept s turns (s.unit t) ≡ b
    → kept_turn s turns stop t ≡ b
unfolding kept_turn
kept_turn-unit s turns stop t b l e = ground (arith, l, e)

pub kept_turn-later : (s : Scan) (turns stop t : ℕ) → stop ≤ t → kept_turn s turns stop t ≡ true
unfolding kept_turn
kept_turn-later s turns stop t l = ground (arith, l)

-- What is kept of a turn that the next round does not reach stays the same.
kept_turn-same :
    (s : Scan) (turns start stop t : ℕ)
    → start ≤ stop
    → (t < start) ⊎ (stop ≤ t)
    → kept_turn s turns stop t ≡ kept_turn s turns start t
unfolding kept_turn
kept_turn-same s turns start stop t h (inl l) = ground (arith, h, l)
kept_turn-same s turns start stop t h (inr l) = ground (arith, h, l)

-- Every turn of a run is of the unit of its first.
pub run-unit :
    (s : Scan) (left start r t : ℕ)
    → IsRun s (s.unit start) left start r
    → start ≤ t
    → t ≤ r
    → s.unit t ≡ s.unit start
run-unit s left start r t run low high = elim (Bool-cases (t == start)) [
  | inl q ↦ ap s.unit ((==_iff t start).0 q)
  | inr q ↦ run.inside t (ground (arith, low, q)) high
]

-- One round decides the turns of its run.
pub kept_turn-next :
    (s : Scan) (turns left start r t : ℕ)
    → IsRun s (s.unit start) left start r
    → kept_turn s turns (r + 1) t ≡ (
        if leb start t && leb t r
        then unit_kept s turns (s.unit start)
        else kept_turn s turns start t)
kept_turn-next s turns left start r t run = elim (Bool-cases (leb start t)) [
  | inr before ↦ rw before (
      kept_turn-same s turns start (r + 1) t (omega (arith, run.low)) (inl (leb→lt start t before)))
  | inl low ↦ elim (Bool-cases (leb t r)) [
    | inr after ↦
        rw (low, after)
          (let past = leb→lt t r after in
            kept_turn-same s turns start (r + 1) t (omega (arith, run.low))
              (inr (omega (arith, past))))
    | inl high ↦
        rw (low, high)
          (kept_turn-unit s turns (r + 1) t _ (let h = leb→le t r high in omega (arith, h)) (
            ap (unit_kept s turns)
              (run-unit s left start r t run (leb→le start t low) (leb→le t r high))))
  ]
]

module _ {Message : Type 0} where
  abbrev pub IsMarked : Scan → ℕ → ℕ → Entry Message → Type 0
  IsMarked s turns stop e = e.dropped ≡ not (kept_turn s turns stop e.turn)

  -- The messages of the turns that pass a test.
  abbrev pub select : (ℕ → Bool) → List (Entry Message) → List Message
  select keep [] = []
  select keep (e ∷ es) = let rest = select keep es in if keep e.turn then e.message ∷ rest else rest

  pub select-drop_turns :
      (keep : ℕ → Bool) (start end : ℕ) (es : List (Entry Message))
      → select keep (drop_turns start end es) ≡ select keep es
  select-drop_turns keep start end [] = refl
  select-drop_turns keep start end (e ∷ es) =
      ap (λ ms. if keep e.turn then e.message ∷ ms else ms) (select-drop_turns keep start end es)

  -- What is not marked as dropped are the messages of the turns kept.
  pub remaining-select :
      (s : Scan) (turns stop : ℕ) (es : List (Entry Message))
      → All (IsMarked s turns stop) es
      → remaining es ≡ select (kept_turn s turns stop) es
  remaining-select s turns stop [] a = refl
  remaining-select s turns stop (e ∷ es) a =
      ap (λ b. if b then remaining es else e.message ∷ remaining es) a.0
      ∙ by_turn (kept_turn s turns stop e.turn) (remaining-select s turns stop es a.1)
    where
      by_turn :
          (b : Bool)
          → remaining es ≡ select (kept_turn s turns stop) es
          → (if not b then remaining es else e.message ∷ remaining es) ≡ (
              if b
              then e.message ∷ select (kept_turn s turns stop) es
              else select (kept_turn s turns stop) es)
      by_turn true q = ap (λ ms. e.message ∷ ms) q
      by_turn false q = q

  -- A round that keeps a unit marks nothing.
  pub skip-IsMarked :
      (s : Scan) (turns left start r : ℕ) (es : List (Entry Message))
      → IsRun s (s.unit start) left start r
      → unit_kept s turns (s.unit start) ≡ true
      → All (IsMarked s turns start) es
      → All (IsMarked s turns (r + 1)) es
  skip-IsMarked s turns left start r [] run k a = tt
  skip-IsMarked s turns left start r (e ∷ es) run k a = (
    a.0 ∙ ap (λ b. not b) (sym (kept_turn-next s turns left start r e.turn run ∙ same)),
    skip-IsMarked s turns left start r es run k a.1,
  )
    where
      same :
          (if leb start e.turn && leb e.turn r
            then unit_kept s turns (s.unit start)
            else kept_turn s turns start e.turn)
          ≡ kept_turn s turns start e.turn
      same = elim (Bool-cases (leb start e.turn)) [
        | inr before ↦ rw before refl
        | inl low ↦ elim (Bool-cases (leb e.turn r)) [
          | inr after ↦ rw (low, after) refl
          | inl high ↦
              rw (low, high)
                (k ∙ sym (kept_turn-later s turns start e.turn (leb→le start e.turn low)))
        ]
      ]

  -- A round that drops a unit marks its messages.
  pub drop_turns-IsMarked :
      (s : Scan) (turns left start r : ℕ) (es : List (Entry Message))
      → IsRun s (s.unit start) left start r
      → unit_kept s turns (s.unit start) ≡ false
      → All (IsMarked s turns start) es
      → All (IsMarked s turns (r + 1)) (drop_turns start r es)
  drop_turns-IsMarked s turns left start r [] run k a = tt
  drop_turns-IsMarked s turns left start r (e ∷ es) run k a = (
    marked (leb start e.turn && leb e.turn r) (kept_turn-next s turns left start r e.turn run),
    drop_turns-IsMarked s turns left start r es run k a.1,
  )
    where
      marked :
          (b : Bool)
          → kept_turn s turns (r + 1) e.turn
            ≡ (if b then unit_kept s turns (s.unit start) else kept_turn s turns start e.turn)
          → (if b then true else e.dropped) ≡ not (kept_turn s turns (r + 1) e.turn)
      marked true q = ap (λ c. not c) (sym (q ∙ k))
      marked false q = a.0 ∙ ap (λ c. not c) (sym q)
