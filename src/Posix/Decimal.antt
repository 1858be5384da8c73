-- ===== src/Posix/Decimal.antt =====
-- The text of a number, as "%llu" prints it.
use sea.Prelude.{
  ℕ, zero, suc, ◌+◌, ◌-◌, ◌*◌, ◌/◌, ◌%◌, ◌^◌, ◌≤◌, ◌<◌, ◌≡◌, refl, ap, ◌∙◌, List, [], ◌∷◌, ◌++◌,
  length, arith, ◌==◌, if◌then◌else◌, ne→==, lt→ltb, le→ltb, lt_or_ge, inl, inr,
}
use sea.Posix.{decimal, digits_of}
use native.Mathlib.Nat.{pow-succ'}

abbrev pub Digits : List ℕ → Type 0
Digits [] = Unit
Digits (c ∷ cs) = (48 ≤ c) × (c ≤ 57) × Digits cs

digits_of-Digits : (fuel v : ℕ) (acc : List ℕ) → Digits acc → Digits (digits_of fuel v acc)
unfolding digits_of
digits_of-Digits zero v acc h = h
digits_of-Digits (suc fuel) v acc h = elim (lt_or_ge v 10) [
  | inl small ↦ rw (lt→ltb v 10 small) (omega arith, omega arith, h)
  | inr large ↦
      rw (le→ltb v 10 large)
        (digits_of-Digits fuel (v / 10) ((48 + v % 10) ∷ acc) (omega arith, omega arith, h))
]

pub decimal-Digits : (v : ℕ) → Digits (decimal v)
unfolding decimal
decimal-Digits v = digits_of-Digits 20 v [] tt

length-digits_of : (fuel v : ℕ) (acc : List ℕ) → length (digits_of fuel v acc) ≤ fuel + length acc
unfolding digits_of
length-digits_of zero v acc = omega arith
length-digits_of (suc fuel) v acc = elim (lt_or_ge v 10) [
  | inl small ↦ rw (lt→ltb v 10 small) (omega arith)
  | inr large ↦
      rw (le→ltb v 10 large) (omega (arith, length-digits_of fuel (v / 10) ((48 + v % 10) ∷ acc)))
]

pub length-decimal : (v : ℕ) → length (decimal v) ≤ 20
unfolding decimal
length-decimal v = omega (arith, length-digits_of 20 v [])

digits_of-append :
    (fuel v : ℕ) (acc t : List ℕ) → digits_of fuel v acc ++ t ≡ digits_of fuel v (acc ++ t)
unfolding digits_of
digits_of-append zero v acc t = refl
digits_of-append (suc fuel) v acc t = elim (lt_or_ge v 10) [
  | inl small ↦ rw (lt→ltb v 10 small) refl
  | inr large ↦ rw (le→ltb v 10 large) (digits_of-append fuel (v / 10) ((48 + v % 10) ∷ acc) t)
]

-- The number that a text begins with, up to a slash, and what stands behind the slash.
pub number_until : ℕ → List ℕ → ℕ
number_until acc [] = acc
number_until acc (c ∷ cs) =
    let rest = number_until (acc * 10 + (c - 48)) cs in if c == b'/' then acc else rest

pub behind : List ℕ → List ℕ
behind [] = []
behind (c ∷ cs) = let rest = behind cs in if c == b'/' then cs else rest

number_step :
    (a d : ℕ) (cs : List ℕ) → number_until a ((48 + d) ∷ cs) ≡ number_until (a * 10 + d) cs
unfolding number_until
number_step a d cs =
    rw (ne→== (48 + d) 47 (omega arith)) (ap (λ n. number_until n cs) (omega arith))

behind_step : (d : ℕ) (cs : List ℕ) → behind ((48 + d) ∷ cs) ≡ behind cs
unfolding behind
behind_step d cs = rw (ne→== (48 + d) 47 (omega arith)) refl

digits_of-number :
    (fuel v : ℕ) (acc : List ℕ)
    → v < 10 ^ suc fuel
    → number_until 0 (digits_of (suc fuel) v acc) ≡ number_until v acc
unfolding digits_of
digits_of-number zero v acc lt =
    rw (lt→ltb v 10 lt) (number_step 0 v acc ∙ ap (λ n. number_until n acc) (omega arith))
digits_of-number (suc fuel) v acc lt = elim (lt_or_ge v 10) [
  | inl small ↦
      rw (lt→ltb v 10 small) (number_step 0 v acc ∙ ap (λ n. number_until n acc) (omega arith))
  | inr large ↦ rw (le→ltb v 10 large) (
      digits_of-number fuel (v / 10) ((48 + v % 10) ∷ acc)
        (omega (arith, pow-succ' 10 (suc fuel), lt))
      ∙ number_step (v / 10) (v % 10) acc
      ∙ ap (λ n. number_until n acc) (omega arith))
]

digits_of-behind : (fuel v : ℕ) (acc : List ℕ) → behind (digits_of fuel v acc) ≡ behind acc
unfolding digits_of
digits_of-behind zero v acc = refl
digits_of-behind (suc fuel) v acc = elim (lt_or_ge v 10) [
  | inl small ↦ rw (lt→ltb v 10 small) (behind_step v acc)
  | inr large ↦
      rw (le→ltb v 10 large)
        (digits_of-behind fuel (v / 10) ((48 + v % 10) ∷ acc) ∙ behind_step (v % 10) acc)
]

pub decimal-number : (v : ℕ) (t : List ℕ) → v < 2 ^ 64 → number_until 0 (decimal v ++ b'/' ∷ t) ≡ v
unfolding decimal number_until
decimal-number v t lt =
    ap (number_until 0) (digits_of-append 20 v [] (b'/' ∷ t))
    ∙ digits_of-number 19 v (b'/' ∷ t) (omega arith)

pub decimal-behind : (v : ℕ) (t : List ℕ) → behind (decimal v ++ b'/' ∷ t) ≡ t
unfolding decimal behind
decimal-behind v t =
    ap behind (digits_of-append 20 v [] (b'/' ∷ t)) ∙ digits_of-behind 20 v (b'/' ∷ t)
