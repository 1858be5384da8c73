-- ===== src/Time/Block/Paths.antt =====
-- The files of different blocks have different names, and so have the two files of a block.
use sea.Prelude.{
  ℕ, ◌+◌, ◌^◌, ◌≤◌, ◌<◌, ◌≡◌, ◌≢◌, refl, sym, ap, subst, ◌∙◌, List, [], ◌∷◌, ◌++◌, length, take,
  drop, arith, length-append, append_assoc, take_all, drop-append_add, true, false, Bool-cases, inl,
  inr,
}
use sea.Posix.{decimal, path_eq}
use sea.Posix.Decimal.{
  Digits, decimal-Digits, length-decimal, number_until, behind, decimal-number, decimal-behind,
}
use sea.Time.Data
use sea.Time.Index

path_eq-eq : (p q : List ℕ) → path_eq p q ≡ true → p ≡ q
unfolding path_eq
path_eq-eq [] [] e = refl
path_eq-eq [] (y ∷ q) e = absurd (ground (arith, e))
path_eq-eq (x ∷ p) [] e = absurd (ground (arith, e))
path_eq-eq (x ∷ p) (y ∷ q) e = ground (arith, path_eq-eq p q)

pub path_eq_ne : (p q : List ℕ) → p ≢ q → path_eq p q ≡ false
path_eq_ne p q h = elim (Bool-cases (path_eq p q)) [
  | inl e ↦ absurd (h (path_eq-eq p q e))
  | inr e ↦ e
]

-- The part behind the directory and a slash.
inner : List ℕ → List ℕ → List ℕ
inner dir p = drop (length dir + 1) p

module _ (dir : List ℕ) (short : length dir ≤ 4000) where
  inner-path : (rest : List ℕ) → inner dir (dir ++ b'/' ∷ rest) ≡ rest
  unfolding inner
  inner-path rest = drop-append_add 1 dir (b'/' ∷ rest)

  -- A path that is not cut.
  inner-whole :
      (id : ℕ) (rest : List ℕ)
      → length rest ≤ 20
      → inner dir (take 4095 ((dir ++ (b'/' ∷ decimal id)) ++ b'/' ∷ rest))
        ≡ decimal id ++ b'/' ∷ rest
  inner-whole id rest le =
      ap (inner dir) (
        take_all 4095 ((dir ++ (b'/' ∷ decimal id)) ++ b'/' ∷ rest) (
          omega (
            arith,
            length-append (dir ++ (b'/' ∷ decimal id)) (b'/' ∷ rest),
            length-append dir (b'/' ∷ decimal id),
            length-decimal id,
          ))
        ∙ append_assoc dir (b'/' ∷ decimal id) (b'/' ∷ rest))
      ∙ inner-path (decimal id ++ b'/' ∷ rest)

  abbrev index_word : List ℕ
  index_word = b'i' ∷ b'n' ∷ b'd' ∷ b'e' ∷ b'x' ∷ []

  inner-data : (id : ℕ) → inner dir (Data.filename dir id) ≡ decimal id ++ b'/' ∷ decimal id
  unfolding Data.filename
  inner-data id = inner-whole id (decimal id) (length-decimal id)

  inner-index : (id : ℕ) → inner dir (Index.filename dir id) ≡ decimal id ++ b'/' ∷ index_word
  unfolding Index.filename
  inner-index id = inner-whole id index_word (omega arith)

  data-number : (id : ℕ) → id < 2 ^ 64 → number_until 0 (inner dir (Data.filename dir id)) ≡ id
  data-number id lt = ap (number_until 0) (inner-data id) ∙ decimal-number id (decimal id) lt

  index-number : (id : ℕ) → id < 2 ^ 64 → number_until 0 (inner dir (Index.filename dir id)) ≡ id
  index-number id lt = ap (number_until 0) (inner-index id) ∙ decimal-number id index_word lt

  module _ {a b : ℕ} (la : a < 2 ^ 64) (lb : b < 2 ^ 64) where
    pub data-data_ne : a ≢ b → Data.filename dir a ≢ Data.filename dir b
    data-data_ne ne e =
        ne (sym (data-number a la) ∙ ap (λ p. number_until 0 (inner dir p)) e ∙ data-number b lb)

    pub index-index_ne : a ≢ b → Index.filename dir a ≢ Index.filename dir b
    index-index_ne ne e =
        ne (sym (index-number a la) ∙ ap (λ p. number_until 0 (inner dir p)) e ∙ index-number b lb)

  word_not_number : (id : ℕ) → decimal id ≢ index_word
  word_not_number id e =
      let d : Digits index_word = subst Digits e (decimal-Digits id) in omega (arith, d)

  pub data-index_ne : (a b : ℕ) → Data.filename dir a ≢ Index.filename dir b
  data-index_ne a b e = word_not_number a (
      sym (decimal-behind a (decimal a))
      ∙ ap behind (sym (inner-data a))
      ∙ ap (λ p. behind (inner dir p)) e
      ∙ ap behind (inner-index b)
      ∙ decimal-behind b index_word)
