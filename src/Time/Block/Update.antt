-- ===== src/Time/Block/Update.antt =====
-- `sea_block_update` with a record of the same length replaces the record, and no other.
use sea.Prelude.{
  ℕ, zero, suc, ◌+◌, ◌*◌, ◌^◌, ◌≤◌, ◌<◌, ◌≡◌, refl, sym, ap, subst, ◌∙◌, some, List, [], ◌∷◌, ◌++◌,
  length, take, drop, set, get_elem?, get_elem?-lt, arith, length-take, length-drop,
  take-append-drop, take_all,
}
use mathlib.Core.Option.{some-injective}
use sea.Bytes.{read_at}
use sea.Bytes.Laws.{read_at-splice_before, read_at-splice_behind, length-splice, write_at-inside}
use sea.Posix.{Os, ran}
use sea.Posix.Laws.{
  Holds, Holds-on_file, Holds-on_file_ne, on_file, on_file-eq, lseek_set-on_file, write-on_file,
}
use sea.Time.Offset.Laws.{get_lem}
use sea.Time.Data
use sea.Time.Data.{header_length}
use sea.Time.Data.Append.{framed, length-framed, build-on_file, framed_size}
use sea.Time.Data.Frame.{RecordAt, RecordAt-inside}
use sea.Time.Index
use sea.Time.Index.{Entry}
use sea.Time.Index.Layout.{index_bytes}
use sea.Time.Index.Query.{found, query_by_record_id-on_file}
use sea.Time.Block.{Block, update}
use sea.Time.Block.Log.{Records, Stored, Placed, Records-nth, same_total}

-- A record that ends before the part that is replaced, or begins behind it, stays.
module _ (a m z w : List ℕ) (same : length w ≡ length m) where
  RecordAt-before :
      (offset : ℕ) (r : List ℕ)
      → offset + 16 + length r ≤ length a
      → RecordAt (a ++ (m ++ z)) offset r
      → RecordAt (a ++ (w ++ z)) offset r
  RecordAt-before offset r le at =
      let header : read_at (a ++ (w ++ z)) offset 8 ≡ read_at (a ++ (m ++ z)) offset 8 =
        read_at-splice_before a m z w offset 8 (omega arith) in
      record {
        whole = ap length header ∙ at.whole;
        sized = ap header_length header ∙ at.sized;
        body = read_at-splice_before a m z w (offset + 8) (length r) (omega arith) ∙ at.body;
        fits = omega (arith, at.fits, length-splice a m z w same);
        small = at.small;
      }

  RecordAt-behind :
      (offset : ℕ) (r : List ℕ)
      → length a + length m ≤ offset
      → RecordAt (a ++ (m ++ z)) offset r
      → RecordAt (a ++ (w ++ z)) offset r
  RecordAt-behind offset r le at =
      let header : read_at (a ++ (w ++ z)) offset 8 ≡ read_at (a ++ (m ++ z)) offset 8 =
        read_at-splice_behind a m z w offset 8 same le in
      record {
        whole = ap length header ∙ at.whole;
        sized = ap header_length header ∙ at.sized;
        body = read_at-splice_behind a m z w (offset + 8) (length r) same (omega arith) ∙ at.body;
        fits = omega (arith, at.fits, length-splice a m z w same);
        small = at.small;
      }

  Records-behind :
      (lo : ℕ) (es : List Entry) (rs : List (List ℕ))
      → length a + length m ≤ lo
      → Records (a ++ (m ++ z)) lo es rs
      → Records (a ++ (w ++ z)) lo es rs
  Records-behind lo [] [] le h = h
  Records-behind lo (e ∷ es) (r ∷ rs) le (lower, at, h) = (
    lower,
    RecordAt-behind e.offset r (omega arith) at,
    Records-behind (e.offset + 16 + length r) es rs (omega arith) h,
  )
  Records-behind lo [] (r ∷ rs) le h = absurd h
  Records-behind lo (e ∷ es) [] le h = absurd h

Records-ge :
    (b : List ℕ) (lo : ℕ) (es : List Entry) (rs : List (List ℕ)) (k : ℕ) (e : Entry)
    → Records b lo es rs
    → get_elem? es k ≡ some e
    → lo ≤ e.offset
Records-ge b lo [] rs k e h nth = ground arith
Records-ge b lo (x ∷ es) [] k e h nth = absurd h
Records-ge b lo (x ∷ es) (r ∷ rs) zero e (lower, at, h) nth =
    subst (λ y. lo ≤ y.offset) (some-injective x e nth) lower
Records-ge b lo (x ∷ es) (r ∷ rs) (suc k) e (lower, at, h) nth =
    omega (arith, Records-ge b (x.offset + 16 + length r) es rs k e h nth)

-- A frame of the same size in place of the `k`-th record.
Records-replace :
    (a m z : List ℕ) (os : Os) (payload : List ℕ) (e : Entry) (r : List ℕ) (lo : ℕ)
    (es : List Entry) (rs : List (List ℕ)) (k : ℕ)
    → length m ≡ 16 + length r
    → length payload ≡ length r
    → length payload < 2 ^ 32
    → e.offset ≡ length a
    → get_elem? es k ≡ some e
    → get_elem? rs k ≡ some r
    → Records (a ++ (m ++ z)) lo es rs
    → Records (a ++ (framed os (length payload) payload ++ z)) lo es (set rs k payload)
Records-replace a m z os payload e r lo [] rs k lm lp small eo ne nr h = ground arith
Records-replace a m z os payload e r lo (x ∷ es) [] k lm lp small eo ne nr h = absurd h
Records-replace a m z os payload e r lo (x ∷ es) (y ∷ rs) zero lm lp small eo ne nr (lower, at, h) =
    let same : length (framed os (length payload) payload) ≡ length m =
      omega (arith, length-framed os payload) in
    let xo : x.offset ≡ length a = ap Index.entry_offset (some-injective x e ne) ∙ eo in
    let ly : length y ≡ length payload = ap length (some-injective y r nr) ∙ sym lp in
    (
      lower,
      subst (λ o. RecordAt (a ++ (framed os (length payload) payload ++ z)) o payload) (sym xo)
          (RecordAt-inside a z os payload small),
      Records-behind a m z (framed os (length payload) payload) same
          (x.offset + 16 + length payload) es rs (omega arith)
          (subst (λ n. Records (a ++ (m ++ z)) (x.offset + 16 + n) es rs) ly h),
    )
Records-replace a m z os payload e r lo (x ∷ es) (y ∷ rs) (suc k) lm lp small eo ne nr
      (lower, at, h) =
    (
      lower,
      RecordAt-before a m z (framed os (length payload) payload)
          (omega (arith, length-framed os payload)) x.offset y
          (omega (arith, Records-ge (a ++ (m ++ z)) (x.offset + 16 + length y) es rs k e h ne)) at,
      Records-replace a m z os payload e r (x.offset + 16 + length y) es rs k lm lp small eo ne nr
          h,
    )

insert-on_file :
    (os : Os) (fd inode : ℕ) (a m z : List ℕ) (p : ℕ) (payload : List ℕ)
    → 16 + length payload < 2 ^ 31
    → length m ≡ 16 + length payload
    → length a < 2 ^ 63
    → Data.insert_by_offsets
        (record { fd = fd })
        (found (length a ∷ []))
        payload
        (length payload)
        (on_file os fd inode (a ++ (m ++ z)) p)
      ≡ ran 0 (
          on_file os fd inode
            (a ++ (framed os (length payload) payload ++ z))
            (length a + length (framed os (length payload) payload)))
unfolding Data.insert_by_offsets
insert-on_file os fd inode a m z p payload lt lm small =
    let w = framed os (length payload) payload in
    rw
      (
        build-on_file os fd inode (a ++ (m ++ z)) p payload (length payload) (omega arith) lt,
        take_all (length payload) payload (omega arith),
        get_lem (found (length a ∷ [])) 0 (on_file os fd inode (a ++ (m ++ z)) p) (omega arith),
        lseek_set-on_file os fd inode (a ++ (m ++ z)) p (length a) small,
        write-on_file os fd inode (a ++ (m ++ z)) (length a) w,
        framed_size os payload lt,
        write_at-inside a m z w (omega (arith, length-framed os payload)),
      )
      refl

module _ {os : Os} {block : Block} {rs : List (List ℕ)} (s : Stored os block rs) (k : ℕ)
    (r payload : List ℕ) (nth : get_elem? rs k ≡ some r) (few : length rs < 2 ^ 32)
    (same : length payload ≡ length r) (lt : 16 + length payload < 2 ^ 31)
    (bounded : length s.b < 2 ^ 63) where
  placed : Placed s.es s.b k r
  placed = Records-nth s.b 0 s.es rs k r s.log.entries s.log.records nth

  abbrev front : List ℕ
  front = take placed.entry.offset s.b

  abbrev middle : List ℕ
  middle = take (16 + length r) (drop placed.entry.offset s.b)

  abbrev rest : List ℕ
  rest = drop (16 + length r) (drop placed.entry.offset s.b)

  parts : front ++ (middle ++ rest) ≡ s.b
  parts =
      ap (λ l. front ++ l) (take-append-drop (16 + length r) (drop placed.entry.offset s.b))
      ∙ take-append-drop placed.entry.offset s.b

  length-front : length front ≡ placed.entry.offset
  length-front = omega (arith, length-take placed.entry.offset s.b, placed.at.fits)

  length-middle : length middle ≡ 16 + length r
  length-middle = omega (
    arith,
    length-take (16 + length r) (drop placed.entry.offset s.b),
    length-drop placed.entry.offset s.b,
    placed.at.fits,
  )

  abbrev after_index : Os
  after_index =
      on_file os block.index.fd s.index_inode (index_bytes block.index.header s.es)
        (40 + 16 * k + 16)

  abbrev after_update : Os
  after_update =
      on_file after_index block.handle.fd s.data_inode
        (front ++ (framed after_index (length payload) payload ++ rest))
        (length front + length (framed after_index (length payload) payload))

  index_answer :
      Index.query_by_record_id block.index k os ≡ ran (some (found (length front ∷ []))) after_index
  index_answer =
      ap (Index.query_by_record_id block.index k) (sym (on_file-eq s.index))
      ∙ query_by_record_id-on_file os block.index.fd s.index_inode s.index_pos block.index.header
          block.index.header s.es k placed.entry
          (omega (arith, get_elem?-lt rs k r nth, same_total s)) placed.nth placed.fits
          (omega (arith, get_elem?-lt rs k r nth))
      ∙ ap (λ o. ran (some (found (o ∷ []))) after_index) (sym length-front)

  data-Holds : Holds after_index block.handle.fd s.data_inode (front ++ (middle ++ rest)) s.data_pos
  data-Holds =
      subst (λ b. Holds after_index block.handle.fd s.data_inode b s.data_pos) (sym parts)
        (Holds-on_file_ne os _ _ _ _ (λ e. s.other_fd (sym e)) (λ e. s.other_inode (sym e))
          s.handle)

  update-eq : update block k payload (length payload) os ≡ ran 0 after_update
  unfolding update
  update-eq = rw index_answer (
      ap (Data.insert_by_offsets block.handle (found (length front ∷ [])) payload (length payload))
        (sym (on_file-eq data-Holds))
      ∙ insert-on_file after_index block.handle.fd s.data_inode front middle rest s.data_pos payload
          lt (omega (arith, length-middle)) (omega (arith, length-front, placed.at.fits)))

  update-Stored : Stored after_update block (set rs k payload)
  update-Stored = record {
    es = s.es;
    b = front ++ (framed after_index (length payload) payload ++ rest);
    index_inode = s.index_inode;
    data_inode = s.data_inode;
    index_pos = 40 + 16 * k + 16;
    data_pos = length front + length (framed after_index (length payload) payload);
    log = record {
      total = s.log.total;
      header = s.log.header;
      entries = s.log.entries;
      records =
          Records-replace front middle rest after_index payload placed.entry r 0 s.es rs k
            length-middle same (omega arith) (sym length-front) placed.nth nth
            (subst (λ b. Records b 0 s.es rs) (sym parts) s.log.records);
    };
    index = Holds-on_file_ne _ _ _ _ _ s.other_fd s.other_inode (Holds-on_file _ _ _ _ _);
    handle = Holds-on_file _ _ _ _ _;
    other_fd = s.other_fd;
    other_inode = s.other_inode;
  }

-- The environment letting every call succeed, an update with a payload as long as the record that
-- stands there returns 0 and leaves the log with that record replaced, and every other as it was.
pub update_refines :
    {os : Os} {block : Block} {rs : List (List ℕ)} (s : Stored os block rs) (k : ℕ)
    (r payload : List ℕ)
    → get_elem? rs k ≡ some r
    → length rs < 2 ^ 32
    → length payload ≡ length r
    → 16 + length payload < 2 ^ 31
    → length s.b < 2 ^ 63
    → (os' : Os) × (update block k payload (length payload) os ≡ ran 0 os')
      × Stored os' block (set rs k payload)
update_refines s k r payload nth few same lt bounded = (
  after_update s k r payload nth few same lt bounded,
  update-eq s k r payload nth few same lt bounded,
  update-Stored s k r payload nth few same lt bounded,
)
