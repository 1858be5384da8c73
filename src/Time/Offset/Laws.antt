-- ===== src/Time/Offset/Laws.antt =====
-- Appending to an array of offsets: what fits is kept in order, what does not is written outside.
use sea.Prelude.{
  ℕ, ◌+◌, ◌≤◌, ◌<◌, ◌≡◌, sym, ap, ◌∙◌, some, List, [], ◌∷◌, ◌++◌, length, get_or, arith, lt→ltb,
  le→ltb, lt→leb, lt_or_ge, inl, inr, length-append, append-nil, append_assoc,
}
use sea.Posix.{Os, ran, undefined}
use sea.Posix.Laws
use sea.Posix.Laws.{on_file}
use sea.Time.Offset
use sea.Time.Offset.{OffsetList, count, append, append_all, get, fresh}

-- The state in which every call of the program leaves an array that it has not overrun.
pub record HasRoom (h : OffsetList) : Type 0 where
  pub held : count h ≤ h.room
  pub bounded : h.room < h.size

pub fresh-HasRoom : HasRoom fresh
fresh-HasRoom = omega arith

abbrev pub extended : OffsetList → List ℕ → OffsetList
extended h xs = record h { offsets = h.offsets ++ xs }

pub append_fits :
    (h : OffsetList) (offset : ℕ) (s : Os)
    → HasRoom h
    → count h < h.room
    → append h offset s ≡ ran (0, extended h (offset ∷ [])) s
unfolding append
append_fits h offset s r lt =
    rw (lt→leb h.size (count h) (omega (arith, r.bounded)), lt→ltb (count h) h.room lt)

-- With the last slot taken, the next append writes outside the block.
pub append_overrun :
    (h : OffsetList) (offset : ℕ) (s : Os)
    → HasRoom h
    → h.room ≤ count h
    → append h offset s ≡ undefined
unfolding append
append_overrun h offset s r le =
    rw (lt→leb h.size (count h) (omega (arith, r.bounded, r.held)), le→ltb (count h) h.room le)

pub extended-HasRoom :
    (h : OffsetList) (x : ℕ) → HasRoom h → count h < h.room → HasRoom (extended h (x ∷ []))
extended-HasRoom h x r lt = record {
  held = omega (arith, length-append h.offsets (x ∷ []));
  bounded = r.bounded;
}

-- Offsets that fit are appended in order.
pub append_all_fits :
    (xs : List ℕ) (h : OffsetList) (s : Os)
    → HasRoom h
    → count h + length xs ≤ h.room
    → append_all (some h) xs s ≡ ran (some (extended h xs)) s
unfolding append_all
append_all_fits [] h s r le =
    ap (λ l. ran (some (record h { offsets = l })) s) (sym (append-nil h.offsets))
append_all_fits (x ∷ xs) h s r le = rw (append_fits h x s r (omega arith)) (
    append_all_fits xs (extended h (x ∷ [])) s (extended-HasRoom h x r (omega arith))
      (omega (arith, length-append h.offsets (x ∷ [])))
    ∙ ap (λ l. ran (some (record h { offsets = l })) s) (append_assoc h.offsets (x ∷ []) xs))

-- More offsets than there are slots left end outside the block.
pub append_all_overrun :
    (xs : List ℕ) (h : OffsetList) (s : Os)
    → HasRoom h
    → h.room < count h + length xs
    → append_all (some h) xs s ≡ undefined
unfolding append_all
append_all_overrun [] h s r lt = absurd (omega (arith, r.held))
append_all_overrun (x ∷ xs) h s r lt = elim (lt_or_ge (count h) h.room) [
  | inl fits ↦ rw (append_fits h x s r fits) (
      append_all_overrun xs (extended h (x ∷ [])) s (extended-HasRoom h x r fits)
        (omega (arith, length-append h.offsets (x ∷ []))))
  | inr full ↦ rw (append_overrun h x s r full)
]

pub get_lem :
    (h : OffsetList) (i : ℕ) (s : Os) → i < h.room → get h i s ≡ ran (get_or h.offsets i 0) s
unfolding get
get_lem h i s lt = rw (lt→ltb i h.room lt)

pub malloc-on_file :
    (os : Os) (fd inode : ℕ) (b : List ℕ) (p : ℕ)
    → Offset.malloc (on_file os fd inode b p) ≡ ran (some fresh) (on_file os fd inode b p)
unfolding Offset.malloc
malloc-on_file os fd inode b p = rw (Laws.malloc-on_file os fd inode b p 10256 (omega arith))
