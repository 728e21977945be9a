-- ===== src/Definitions/Aliases.antt =====
-- internal/definitions/selectors.go: the model-facing names of tools.
use native.Mathlib.Omega.{arith}
use az_agent_platform_go.Prelude.{
  ℕ, suc, ◌≡◌, refl, ap, Bool, true, false, not, ◌&&◌, ◌||◌, [], ◌∷◌, GoString, length, leb, ◌==◌,
  str_eq, codes, if◌then◌else◌, Bool-cases, inl, inr,
}
use az_agent_platform_go.Definitions.Versions.{is_digit}

-- a-z, A-Z, _
abbrev pub is_letter : ℕ → Bool
is_letter c = leb 97 c && leb c 122 || leb 65 c && leb c 90 || c == 95

abbrev pub alias_byte : ℕ → ℕ
alias_byte c = if is_letter c || is_digit c then c else 95

unfoldable pub alias_bytes : GoString → GoString
alias_bytes [] = []
alias_bytes (c ∷ cs) = alias_byte c ∷ alias_bytes cs

abbrev pub all_alias_bytes : GoString → Bool
all_alias_bytes [] = true
all_alias_bytes (c ∷ cs) = (is_letter c || is_digit c) && all_alias_bytes cs

abbrev pub starts_well : GoString → Bool
starts_well [] = false
starts_well (c ∷ cs) = not (is_digit c)

-- ValidAlias; its loop tests every byte, and a digit only after the first.
unfoldable pub valid_alias : GoString → Bool
valid_alias s = leb 1 (length s) && leb (length s) 64 && starts_well s && all_alias_bytes s

-- AliasFor: the alias, and whether it is valid.
unfoldable pub alias_for : GoString → GoString × Bool
unfolding alias_bytes valid_alias
alias_for op = (alias_bytes op, valid_alias (alias_bytes op))

-- IsReservedToolName
unfoldable pub is_reserved : GoString → Bool
is_reserved s =
    str_eq s (codes "request_user_input")
    || str_eq s (codes "read_skill_resource")
    || str_eq s (codes "activate_journey")

length-alias_bytes : (op : GoString) → length (alias_bytes op) ≡ length op
unfolding alias_bytes
length-alias_bytes [] = refl
length-alias_bytes (c ∷ cs) = ap suc (length-alias_bytes cs)

alias_byte_ok : (c : ℕ) → (is_letter (alias_byte c) || is_digit (alias_byte c)) ≡ true
alias_byte_ok c = elim (Bool-cases (is_letter c || is_digit c)) [
  | inl t ↦ rw t t
  | inr t ↦ rw t refl
]

all-alias_bytes : (op : GoString) → all_alias_bytes (alias_bytes op) ≡ true
unfolding alias_bytes
all-alias_bytes [] = refl
all-alias_bytes (c ∷ cs) = rw (alias_byte_ok c, all-alias_bytes cs) refl

starts-alias_bytes : (op : GoString) → starts_well (alias_bytes op) ≡ starts_well op
unfolding alias_bytes
starts-alias_bytes [] = refl
starts-alias_bytes (c ∷ cs) = elim (Bool-cases (is_letter c || is_digit c)) [
  | inl t ↦ rw t refl
  | inr t ↦ rw t (ground (arith, t))
]

-- The alias of an operation key is as long as the key, and is valid exactly where the key has 1 to 64
-- bytes and does not begin with a digit.
pub alias_for_lem :
    (op : GoString)
    → (length (alias_for op).0 ≡ length op)
      × ((alias_for op).1 ≡ (leb 1 (length op) && leb (length op) 64 && starts_well op))
      × (valid_alias (alias_for op).0 ≡ (alias_for op).1)
unfolding alias_for valid_alias
alias_for_lem op = (
  length-alias_bytes op,
  rw (length-alias_bytes op, all-alias_bytes op, starts-alias_bytes op) (last (starts_well op)),
  refl,
)
  where
    last :
        (s : Bool)
        → (leb 1 (length op) && leb (length op) 64 && s && true)
          ≡ (leb 1 (length op) && leb (length op) 64 && s)
    last s = ground arith
