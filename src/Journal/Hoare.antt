-- ===== src/Journal/Hoare.antt =====
-- What holds of the journal after a transaction that succeeds, step by step.
use az_agent_platform_go.Prelude.{
  ◌≡◌, Bool, true, false, Option, none, some, ok, ok-injective, ap, subst, sym, if◌then◌else◌,
}
use az_agent_platform_go.Journal.{Journal, Tx, JournalError}
use az_agent_platform_go.Journal.Transactions.{◌>>=◌, ◌>>◌, require, require_some, put, pure, throw}
use az_agent_platform_go.Journal.Inversion.{Then-ok, next_ok, require_ok}

module _ (P : Journal → Type 0) where
  -- Every success from this journal ends in one that satisfies P.
  abbrev pub Ends : {A : Type 0} → Journal → Tx A → Type 0
  Ends {A} j t = (a : A) (k : Journal) → t j ≡ ok (a, k) → P k

  pub Ends-pure : {A : Type 0} (a : A) (j : Journal) → P j → Ends j (pure a)
  Ends-pure a j p b k h = subst P (ap (λ q. q.1) (ok-injective h)) p

  pub Ends-put : (i j : Journal) → P i → Ends j (put i)
  Ends-put i j p b k h = subst P (ap (λ q. q.1) (ok-injective h)) p

  pub Ends-throw : (A : Type 0) (e : JournalError) (j : Journal) → Ends {A = A} j (throw e)
  Ends-throw A e j b k h = cc

  pub Ends-then :
      {A B : Type 0} (m : Tx A) (f : A → Tx B) (j : Journal)
      → Ends j m
      → ((a : A) (i : Journal) → P i → Ends i (f a))
      → Ends j (m >>= f)
  Ends-then m f j p q b k h =
      let t = Then-ok m f j h in q t.value t.middle (p t.value t.middle t.first) b k t.second

  pub Ends-next :
      {B : Type 0} (m : Tx (Unit {0})) (n : Tx B) (j : Journal)
      → Ends j m
      → ((i : Journal) → P i → Ends i n)
      → Ends j (m >> n)
  Ends-next m n j p q b k h = let t = next_ok m n j h in q t.0 (p tt t.0 t.1) b k t.2

  pub Ends-require :
      {B : Type 0} (b : Bool) (e : JournalError) (n : Tx B) (j : Journal)
      → Ends j n
      → Ends j (require b e >> n)
  Ends-require true e n j p a k h = p a k h
  Ends-require false e n j p a k h = cc

  pub Ends-check : (b : Bool) (e : JournalError) (j : Journal) → P j → Ends j (require b e)
  Ends-check b e j p a k h = subst P (sym (require_ok b e j h).1) p

  pub Ends-some :
      {A B : Type 0} (o : Option A) (e : JournalError) (f : A → Tx B) (j : Journal)
      → ((a : A) → Ends j (f a))
      → Ends j (require_some o e >>= f)
  Ends-some none e f j p b k h = cc
  Ends-some (some a) e f j p b k h = p a b k h

  pub Ends-if :
      {B : Type 0} (b : Bool) (m n : Tx B) (j : Journal)
      → Ends j m
      → Ends j n
      → Ends j (if b then m else n)
  Ends-if true m n j p q = p
  Ends-if false m n j p q = q

  -- Where the second part ends well from anywhere, so does the whole.
  pub Ends-skip :
      {B : Type 0} (m : Tx (Unit {0})) (n : Tx B) (j : Journal)
      → ((i : Journal) → Ends i n)
      → Ends j (m >> n)
  Ends-skip m n j q b k h = let t = next_ok m n j h in q t.0 b k t.2
