-- ===== src/Time/Index/Layout.antt =====
-- The index file as a header followed by entries, and what is read back from it.
use sea.Prelude.{
  ℕ, zero, suc, ◌+◌, ◌*◌, ◌^◌, ◌<◌, ◌≡◌, refl, sym, ap, ◌∙◌, List, [], ◌∷◌, ◌++◌, length, take,
  drop, arith, length-append, drop-append_add, take-append_self, drop-append_self, append_assoc,
  ap₂, take-append_add,
}
use sea.Bytes.{le_bytes, read_at}
use sea.Bytes.Laws.{of_le_bytes-le_bytes}
use sea.Time.Index.{Header, Entry, header_bytes, header_of, entry_bytes, entry_of, entries_of}

-- What fits the fields of the structs.
pub record FitsHeader (h : Header) : Type 0 where
  pub block_id : h.block_id < 2 ^ 64
  pub max_count : h.max_count < 2 ^ 64
  pub start_timestamp : h.start_timestamp < 2 ^ 64
  pub stop_timestamp : h.stop_timestamp < 2 ^ 64
  pub count : h.count < 2 ^ 32
  pub unused : h.unused < 2 ^ 32

pub record FitsEntry (e : Entry) : Type 0 where
  pub timestamp : e.timestamp < 2 ^ 64
  pub offset : e.offset < 2 ^ 64

abbrev pub AllFit : List Entry → Type 0
AllFit [] = Unit
AllFit (e ∷ es) = FitsEntry e × AllFit es

-- The entries as they stand in the file.
abbrev pub flat : List Entry → List ℕ
flat [] = []
flat (e ∷ es) = entry_bytes e ++ flat es

abbrev pub index_bytes : Header → List Entry → List ℕ
index_bytes h es = header_bytes h ++ flat es

pub length-header_bytes : (h : Header) → length (header_bytes h) ≡ 40
unfolding header_bytes le_bytes
length-header_bytes h = refl

pub length-entry_bytes : (e : Entry) → length (entry_bytes e) ≡ 16
unfolding entry_bytes le_bytes
length-entry_bytes e = refl

-- A header that fits its fields is read back as it was written.
pub header_of-header_bytes : (h : Header) → FitsHeader h → header_of (header_bytes h) ≡ h
unfolding header_of header_bytes le_bytes
header_of-header_bytes h f i = record {
  block_id = of_le_bytes-le_bytes 8 h.block_id f.block_id i;
  max_count = of_le_bytes-le_bytes 8 h.max_count f.max_count i;
  start_timestamp = of_le_bytes-le_bytes 8 h.start_timestamp f.start_timestamp i;
  stop_timestamp = of_le_bytes-le_bytes 8 h.stop_timestamp f.stop_timestamp i;
  count = of_le_bytes-le_bytes 4 h.count f.count i;
  unused = of_le_bytes-le_bytes 4 h.unused f.unused i;
}

pub entry_of-entry_bytes : (e : Entry) → FitsEntry e → entry_of (entry_bytes e) ≡ e
unfolding entry_of entry_bytes le_bytes
entry_of-entry_bytes e f i = record {
  timestamp = of_le_bytes-le_bytes 8 e.timestamp f.timestamp i;
  offset = of_le_bytes-le_bytes 8 e.offset f.offset i;
}

pub length-flat : (es : List Entry) → length (flat es) ≡ 16 * length es
length-flat [] = refl
length-flat (e ∷ es) =
    omega (arith, length-append (entry_bytes e) (flat es), length-entry_bytes e, length-flat es)

pub flat-append : (es more : List Entry) → flat (es ++ more) ≡ flat es ++ flat more
flat-append [] more = refl
flat-append (e ∷ es) more =
    ap (λ l. entry_bytes e ++ l) (flat-append es more)
    ∙ sym (append_assoc (entry_bytes e) (flat es) (flat more))

skip_entry :
    (e : Entry) (k : ℕ) (l : List ℕ) → drop (16 * suc k) (entry_bytes e ++ l) ≡ drop (16 * k) l
skip_entry e k l =
    ap (λ n. drop n (entry_bytes e ++ l)) eq ∙ drop-append_add (16 * k) (entry_bytes e) l
  where
    eq : 16 * suc k ≡ length (entry_bytes e) + 16 * k
    eq = omega (arith, length-entry_bytes e)

drop_empty : (n : ℕ) → ◌≡◌ {A = List ℕ} (drop n []) []
drop_empty zero = refl
drop_empty (suc n) = refl

pub drop-flat : (k : ℕ) (es : List Entry) → drop (16 * k) (flat es) ≡ flat (drop k es)
drop-flat zero es = refl
drop-flat (suc k) [] = drop_empty (16 * suc k)
drop-flat (suc k) (e ∷ es) = skip_entry e k (flat es) ∙ drop-flat k es

take_empty : (n : ℕ) → ◌≡◌ {A = List ℕ} (take n []) []
take_empty zero = refl
take_empty (suc n) = refl

pub take-flat : (k : ℕ) (es : List Entry) → take (16 * k) (flat es) ≡ flat (take k es)
take-flat zero es = refl
take-flat (suc k) [] = take_empty (16 * suc k)
take-flat (suc k) (e ∷ es) =
    ap (λ n. take n (entry_bytes e ++ flat es)) eq
    ∙ take-append_add (16 * k) (entry_bytes e) (flat es)
    ∙ ap (λ l. entry_bytes e ++ l) (take-flat k es)
  where
    eq : 16 * suc k ≡ length (entry_bytes e) + 16 * k
    eq = omega (arith, length-entry_bytes e)

-- A read of `n` entries from the `k`-th on.
pub read_at-index_bytes :
    (h : Header) (es : List Entry) (k n : ℕ)
    → read_at (index_bytes h es) (40 + 16 * k) (16 * n) ≡ flat (take n (drop k es))
read_at-index_bytes h es k n =
    ap (λ m. take (16 * n) (drop (m + 16 * k) (index_bytes h es))) (sym (length-header_bytes h))
    ∙ ap (take (16 * n)) (drop-append_add (16 * k) (header_bytes h) (flat es) ∙ drop-flat k es)
    ∙ take-flat n (drop k es)

pub entries_of-flat : (es : List Entry) → AllFit es → entries_of (length es) (flat es) ≡ es
unfolding entries_of
entries_of-flat [] f = refl
entries_of-flat (e ∷ es) (fe, fes) =
    ap₂ (λ x y. entry_of x ∷ y)
      (ap (λ n. take n (entry_bytes e ++ flat es)) (sym (length-entry_bytes e))
        ∙ take-append_self (entry_bytes e) (flat es))
      (ap (entries_of (length es)) (
          ap (λ n. drop n (entry_bytes e ++ flat es)) (sym (length-entry_bytes e))
          ∙ drop-append_self (entry_bytes e) (flat es))
        ∙ entries_of-flat es fes)
    ∙ ap (λ x. x ∷ es) (entry_of-entry_bytes e fe)

pub AllFit-append : (es : List Entry) (e : Entry) → AllFit es → FitsEntry e → AllFit (es ++ e ∷ [])
AllFit-append [] e f fe = (fe, tt)
AllFit-append (x ∷ es) e (fx, f) fe = (fx, AllFit-append es e f fe)

pub AllFit-take : (n : ℕ) (es : List Entry) → AllFit es → AllFit (take n es)
AllFit-take zero es f = tt
AllFit-take (suc n) [] f = tt
AllFit-take (suc n) (e ∷ es) (fe, f) = (fe, AllFit-take n es f)

pub AllFit-drop : (n : ℕ) (es : List Entry) → AllFit es → AllFit (drop n es)
AllFit-drop zero es f = f
AllFit-drop (suc n) [] f = tt
AllFit-drop (suc n) (e ∷ es) (fe, f) = AllFit-drop n es f
