-- ===== src/Bytes/Laws.antt =====
-- Laws of stored integers, and of reads after writes.
use sea.Prelude.{
  ℕ, zero, suc, ◌+◌, ◌-◌, ◌/◌, ◌^◌, ◌≤◌, ◌<◌, ◌≡◌, refl, sym, ap, ◌∙◌, List, [], ◌∷◌, ◌++◌, length,
  take, drop, arith, append-nil,
}
use sea.Prelude.{
  take_all, drop_all, take-append_self, drop-append_self, length-append, length-drop,
  drop-append_le, drop-append_add, take-append_le,
}
use sea.Bytes.{le_bytes, of_le_bytes, write_at, read_at}
use native.Mathlib.Nat.{pow-suc}

pub length-le_bytes : (k v : ℕ) → length (le_bytes k v) ≡ k
unfolding le_bytes
length-le_bytes zero v = refl
length-le_bytes (suc k) v = ap suc (length-le_bytes k (v / 256))

-- An integer that fits its bytes is read back.
pub of_le_bytes-le_bytes : (k v : ℕ) → v < 256 ^ k → of_le_bytes (le_bytes k v) ≡ v
unfolding le_bytes of_le_bytes
of_le_bytes-le_bytes zero v h = omega arith
of_le_bytes-le_bytes (suc k) v h =
    omega (arith, of_le_bytes-le_bytes k (v / 256) (omega (arith, pow-suc 256 k)))

sub_self : (n : ℕ) → n - n ≡ 0
sub_self n = omega arith

-- A write at the end appends.
pub write_at-end : (b w : List ℕ) → write_at b (length b) w ≡ b ++ w
unfolding write_at
write_at-end b [] = sym (append-nil b)
write_at-end b (x ∷ w) =
    rw
      (
        take_all (length b) b (omega arith),
        sub_self (length b),
        drop_all (length b + suc (length w)) b (omega arith),
        append-nil,
      )
      refl

empty : (m : List ℕ) → 0 ≡ length m → m ≡ []
empty [] h = refl
empty (x ∷ m) h = absurd (omega arith)

no_gap : (a y : List ℕ) → length a - length (a ++ y) ≡ 0
no_gap a y = omega (arith, length-append a y)

-- A write inside the file replaces what is there.
pub write_at-inside :
    (a m z w : List ℕ) → length w ≡ length m → write_at (a ++ (m ++ z)) (length a) w ≡ a ++ (w ++ z)
unfolding write_at
write_at-inside a m z [] h = ap (λ l. a ++ (l ++ z)) (empty m h)
write_at-inside a m z (x ∷ w) h =
    rw
      (
        take-append_self a (m ++ z),
        no_gap a (m ++ z),
        h,
        drop-append_add (length m) a (m ++ z),
        drop-append_self m z,
      )
      refl

-- A read inside the front of a file does not see what stands behind.
pub read_at-append :
    (a z : List ℕ) (p n : ℕ) → p + n ≤ length a → read_at (a ++ z) p n ≡ read_at a p n
read_at-append a z p n h =
    ap (take n) (drop-append_le p a z (omega arith))
    ∙ take-append_le n (drop p a) z (omega (arith, length-drop p a))

-- A read of the part between two others.
pub read_at-middle : (a m z : List ℕ) → read_at (a ++ (m ++ z)) (length a) (length m) ≡ m
read_at-middle a m z = ap (take (length m)) (drop-append_self a (m ++ z)) ∙ take-append_self m z

-- Putting `w` in place of a part `m` of the same length does not show in a read of what stands
-- before or behind it.
module _ (a m z w : List ℕ) where
  pub read_at-splice_before :
      (p n : ℕ) → p + n ≤ length a → read_at (a ++ (w ++ z)) p n ≡ read_at (a ++ (m ++ z)) p n
  read_at-splice_before p n h =
      read_at-append a (w ++ z) p n h ∙ sym (read_at-append a (m ++ z) p n h)

  drop_behind : (v : List ℕ) (k : ℕ) → drop (length a + (length v + k)) (a ++ (v ++ z)) ≡ drop k z
  drop_behind v k = drop-append_add (length v + k) a (v ++ z) ∙ drop-append_add k v z

  pub read_at-splice_behind :
      (p n : ℕ)
      → length w ≡ length m
      → length a + length m ≤ p
      → read_at (a ++ (w ++ z)) p n ≡ read_at (a ++ (m ++ z)) p n
  read_at-splice_behind p n same h = ap (take n) (
      ap (λ q. drop q (a ++ (w ++ z))) at_w
      ∙ drop_behind w (p - (length a + length m))
      ∙ sym (drop_behind m (p - (length a + length m)))
      ∙ ap (λ q. drop q (a ++ (m ++ z))) (sym at_m))
    where
      at_w : p ≡ length a + (length w + (p - (length a + length m)))
      at_w = omega arith

      at_m : p ≡ length a + (length m + (p - (length a + length m)))
      at_m = omega arith

  pub length-splice : length w ≡ length m → length (a ++ (w ++ z)) ≡ length (a ++ (m ++ z))
  length-splice same = omega (
    arith,
    length-append a (w ++ z),
    length-append w z,
    length-append a (m ++ z),
    length-append m z,
  )
