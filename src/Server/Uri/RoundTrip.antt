-- ===== src/Server/Uri/RoundTrip.antt =====
-- The numbers that the server prints are those that it reads back from a uri.
use sea.Prelude.{
  ℕ, zero, suc, ◌+◌, ◌*◌, ◌/◌, ◌%◌, ◌^◌, ◌<◌, ◌≡◌, ◌≢◌, refl, ap, ◌∙◌, some, List, [], ◌∷◌, ◌++◌,
  arith, ne→==, ==_refl, lt→ltb, le→ltb, le→leb, lt→leb, lt_or_ge, inl, inr, ◌⊎◌,
}
use sea.Posix.{Os, ran, decimal, digits_of}
use sea.Posix.Decimal.{Digits, decimal-Digits}
use sea.Server.Uri.{
  id_text, split_at, strtok, digits_value, atol, id_texts, get_block_id_and_record_id,
}
use native.Mathlib.Nat.{mod-eq_of_lt, pow-succ'}

abbrev pub Without : ℕ → List ℕ → Type 0
Without d [] = Unit
Without d (c ∷ cs) = (c ≢ d) × Without d cs

digit_step :
    (a d : ℕ) (cs : List ℕ) → d < 10 → digits_value a ((48 + d) ∷ cs) ≡ digits_value (a * 10 + d) cs
unfolding digits_value
digit_step a d cs lt =
    rw (le→leb 48 (48 + d) (omega arith), le→leb (48 + d) 57 (omega arith))
      (ap (λ n. digits_value n cs) (omega arith))

digits_of-value :
    (fuel v : ℕ) (acc : List ℕ)
    → v < 10 ^ suc fuel
    → digits_value 0 (digits_of (suc fuel) v acc) ≡ digits_value v acc
unfolding digits_of
digits_of-value zero v acc lt =
    rw (lt→ltb v 10 lt) (digit_step 0 v acc lt ∙ ap (λ n. digits_value n acc) (omega arith))
digits_of-value (suc fuel) v acc lt = elim (lt_or_ge v 10) [
  | inl small ↦
      rw (lt→ltb v 10 small) (digit_step 0 v acc small ∙ ap (λ n. digits_value n acc) (omega arith))
  | inr large ↦ rw (le→ltb v 10 large) (
      digits_of-value fuel (v / 10) ((48 + v % 10) ∷ acc)
        (omega (arith, pow-succ' 10 (suc fuel), lt))
      ∙ digit_step (v / 10) (v % 10) acc (omega arith)
      ∙ ap (λ n. digits_value n acc) (omega arith))
]

-- The text of a number of 64 bits.
decimal-value : (v : ℕ) → v < 2 ^ 64 → digits_value 0 (decimal v) ≡ v
unfolding decimal digits_value
decimal-value v lt = digits_of-value 19 v [] (omega arith)

digits_of-cons :
    (fuel v : ℕ) (acc : List ℕ) → (c : ℕ) × (cs : List ℕ) × (digits_of (suc fuel) v acc ≡ c ∷ cs)
unfolding digits_of
digits_of-cons zero v acc = elim (lt_or_ge v 10) [
  | inl small ↦ (48 + v, acc, rw (lt→ltb v 10 small) refl)
  | inr large ↦ (48 + v % 10, acc, rw (le→ltb v 10 large) refl)
]
digits_of-cons (suc fuel) v acc = elim (lt_or_ge v 10) [
  | inl small ↦ (48 + v, acc, rw (lt→ltb v 10 small) refl)
  | inr large ↦
      let (c, cs, e) = digits_of-cons fuel (v / 10) ((48 + v % 10) ∷ acc) in
      (c, cs, rw (le→ltb v 10 large) e)
]

decimal-cons : (v : ℕ) → (c : ℕ) × (cs : List ℕ) × (decimal v ≡ c ∷ cs)
unfolding decimal
decimal-cons v = digits_of-cons 19 v []

-- The only non-empty token of a text without the delimiter is the text.
split_at-Without : (d : ℕ) (w : List ℕ) → Without d w → split_at d w ≡ (w, [])
unfolding split_at
split_at-Without d [] h = refl
split_at-Without d (c ∷ w) (ne, h) = rw (ne→== c d ne, split_at-Without d w h) refl

split_at-append : (d : ℕ) (w rest : List ℕ) → Without d w → split_at d (w ++ d ∷ rest) ≡ (w, rest)
unfolding split_at
split_at-append d [] rest h = rw (==_refl d) refl
split_at-append d (c ∷ w) rest (ne, h) = rw (ne→== c d ne, split_at-append d w rest h) refl

Digits-Without : (d : ℕ) (w : List ℕ) → (d < 48) ⊎ (57 < d) → Digits w → Without d w
Digits-Without d [] out h = tt
Digits-Without d (c ∷ w) out (lo, hi, h) = (ground arith, Digits-Without d w out h)

Without-append : (d : ℕ) (v w : List ℕ) → Without d v → Without d w → Without d (v ++ w)
Without-append d [] w hv hw = hw
Without-append d (c ∷ v) w (ne, hv) hw = (ne, Without-append d v w hv hw)

strtok-append :
    (d c : ℕ) (cs w rest : List ℕ)
    → w ≡ c ∷ cs
    → Without d w
    → strtok d (w ++ d ∷ rest) ≡ some (w, rest)
unfolding strtok
strtok-append d c cs [] rest e h = absurd (cc)
strtok-append d c cs (x ∷ w) rest e (ne, h) =
    rw (ne→== x d ne, ne→== x d ne, split_at-append d w rest h) refl

strtok-last : (d c : ℕ) (cs w : List ℕ) → w ≡ c ∷ cs → Without d w → strtok d w ≡ some (w, [])
unfolding strtok
strtok-last d c cs [] e h = absurd (cc)
strtok-last d c cs (x ∷ w) e (ne, h) = rw (ne→== x d ne, ne→== x d ne, split_at-Without d w h) refl

atol-Digits :
    (c : ℕ) (cs w : List ℕ) (v : ℕ) (os : Os)
    → w ≡ c ∷ cs
    → Digits w
    → digits_value 0 w ≡ v
    → v < 2 ^ 63
    → atol w os ≡ ran v os
unfolding atol
atol-Digits c cs [] v os e h val lt = absurd (cc)
atol-Digits c cs (x ∷ w) v os e (lo, hi, h) val lt =
    rw
      (
        ne→== x 32 (omega arith),
        le→leb 9 x (omega arith),
        lt→leb x 13 (omega arith),
        ne→== x b'-' (omega arith),
        ne→== x b'+' (omega arith),
        val,
        lt→ltb v (2 ^ 63) lt,
      )
      refl

atol-decimal : (v : ℕ) (os : Os) → v < 2 ^ 63 → atol (decimal v) os ≡ ran v os
atol-decimal v os lt =
    let (c, cs, e) = decimal-cons v in
    atol-Digits c cs (decimal v) v os e (decimal-Digits v) (decimal-value v (omega arith)) lt

id_texts-uri :
    (c block_id record_id : ℕ) (cs path : List ℕ)
    → path ≡ c ∷ cs
    → Without b'=' path
    → id_texts (path ++ b'=' ∷ id_text block_id record_id)
      ≡ some (decimal block_id, decimal record_id)
unfolding id_texts
id_texts-uri c block_id record_id cs path e h =
    let (b, bs, eb) = decimal-cons block_id in
    let (r, rs, er) = decimal-cons record_id in
    let no_eq : Without b'=' (id_text block_id record_id) =
      Without-append b'=' (decimal block_id) (b'_' ∷ decimal record_id)
        (Digits-Without b'=' (decimal block_id) (inr (omega arith)) (decimal-Digits block_id))
        (
          omega arith,
          Digits-Without b'=' (decimal record_id) (inr (omega arith)) (decimal-Digits record_id),
        ) in
    rw
      (
        id_texts,
        strtok-append b'=' c cs path (id_text block_id record_id) e h,
        strtok-last b'=' b (bs ++ b'_' ∷ decimal record_id) (id_text block_id record_id)
            (ap (λ l. l ++ b'_' ∷ decimal record_id) eb) no_eq,
        strtok-append b'_' b bs (decimal block_id) (decimal record_id) eb
            (Digits-Without b'_' (decimal block_id) (inr (omega arith)) (decimal-Digits block_id)),
        strtok-last b'_' r rs (decimal record_id) er (
            Digits-Without b'_' (decimal record_id) (inr (omega arith)) (decimal-Digits record_id)),
      )
      refl

-- From a uri of a path that has no `=` in it, an `=`, and the two numbers as the server prints them,
-- the first below 2 ^ 63 and the second of 32 bits, these numbers are read.
pub get_ids-uri :
    (path : List ℕ) (block_id record_id : ℕ) (os : Os)
    → path ≢ []
    → Without b'=' path
    → block_id < 2 ^ 63
    → record_id < 2 ^ 32
    → get_block_id_and_record_id (path ++ b'=' ∷ id_text block_id record_id) os
      ≡ ran (0, some (block_id, record_id)) os
unfolding get_block_id_and_record_id
get_ids-uri [] block_id record_id os ne h lt lr = absurd (ne refl)
get_ids-uri (c ∷ path) block_id record_id os ne h lt lr =
    rw
      (
        get_block_id_and_record_id,
        id_texts-uri c block_id record_id path (c ∷ path) refl h,
        atol-decimal record_id os (omega arith),
        atol-decimal block_id os lt,
        mod-eq_of_lt {n = record_id} {m = 2 ^ 32} lr,
      )
      refl
