-- ===== src/Time/Index/Range.antt =====
-- `sea_block_index_query_by_count` and `sea_block_index_query_by_time`: ranges of entries.
use sea.Prelude.{
  ℕ, suc, ◌+◌, ◌-◌, ◌*◌, ◌%◌, ◌^◌, ◌≤◌, ◌<◌, ◌≡◌, refl, sym, ap, ◌∙◌, Option, some, List, [], ◌∷◌,
  length, length-append, take, drop, min, if◌then◌else◌, ltb, ◌==◌, true, arith, append-nil, lt→leb,
  length-take, length-drop, drop-drop, Bool-cases, inl, inr, append_assoc,
}
use sea.Posix.{Os, Run, ran, undefined, then_run, pure}
use sea.Posix.Laws.{on_file, lseek_set-on_file, read-on_file, malloc-on_file}
use sea.Time.Offset
use sea.Time.Offset.{OffsetList, fresh, append_all}
use sea.Time.Offset.Laws
use sea.Time.Offset.Laws.{
  HasRoom, fresh-HasRoom, extended-HasRoom, extended, append_fits, append_all_fits,
  append_all_overrun,
}
use sea.Time.Index.{
  Header, Entry, query_by_count, query_by_time, read_count, time_loop, entry_bytes, entries_of,
}
use sea.Time.Index.Layout.{
  AllFit, AllFit-take, AllFit-drop, index_bytes, flat, read_at-index_bytes, length-flat,
  length-entry_bytes, entry_of-entry_bytes, entries_of-flat,
}
use sea.Time.Index.Query.{found, offsets_of}
use native.Mathlib.Nat.{mod-eq_of_lt}

length-map_offsets : (es : List Entry) → length (offsets_of es) ≡ length es
length-map_offsets [] = refl
length-map_offsets (e ∷ es) = ap suc (length-map_offsets es)

-- While the sum does not wrap, the number of entries read is what was asked for, or what is left.
pub read_count-eq-min :
    (total first count : ℕ)
    → first < total
    → first + count < 2 ^ 32
    → read_count total first count ≡ min count (total - first)
read_count-eq-min total first count lt small = ground arith

-- The entries that a query by count selects.
abbrev pub range : List Entry → ℕ → ℕ → List Entry
range es first n = take n (drop first es)

module _ (os : Os) (fd inode p : ℕ) (h h0 : Header) (es : List Entry) (first n : ℕ)
    (counted : first < h.count) (fit : AllFit es) (enough : first + n ≤ length es)
    (few : 40 + 16 * length es < 2 ^ 32) where
  length-range : length (range es first n) ≡ n
  length-range = omega (arith, length-take n (drop first es), length-drop first es)

  entries_of-range : entries_of n (flat (range es first n)) ≡ range es first n
  entries_of-range =
      ap (λ k. entries_of k (flat (range es first n))) (sym length-range)
      ∙ entries_of-flat (range es first n)
          (AllFit-take n (drop first es) (AllFit-drop first es fit))

  read_size : (length (flat (range es first n)) % 2 ^ 32 == 16 * n) ≡ true
  read_size = ground (arith, length-flat (range es first n), length-range)

  abbrev end : Os
  end = on_file os fd inode (index_bytes h0 es) (40 + 16 * first + length (flat (range es first n)))

  -- All calls before the appends to the array.
  query_by_count-reads :
      (count : ℕ)
      → read_count h.count first count ≡ n
      → query_by_count
          (record { fd = fd; header = h })
          first
          count
          (on_file os fd inode (index_bytes h0 es) p)
        ≡ then_run
            (append_all (some fresh) (offsets_of (range es first n)) end)
            (λ filled. pure (record { offsets = filled; real_count = some n }))
  unfolding query_by_count
  query_by_count-reads count e =
      rw
        (
          lseek_set-on_file os fd inode (index_bytes h0 es) p (40 + 16 * first) (omega arith),
          lt→leb h.count first counted,
          e,
          Laws.malloc-on_file os fd inode (index_bytes h0 es) (40 + 16 * first),
          malloc-on_file os fd inode (index_bytes h0 es) (40 + 16 * first) (16 * n) (omega arith),
          read-on_file os fd inode (index_bytes h0 es) (40 + 16 * first) (16 * n),
          read_at-index_bytes h0 es first n,
          e,
          read_size,
          entries_of-range,
        )
        refl

  query_by_count-filled :
      (count : ℕ)
      → read_count h.count first count ≡ n
      → n ≤ 1280
      → query_by_count
          (record { fd = fd; header = h })
          first
          count
          (on_file os fd inode (index_bytes h0 es) p)
        ≡ ran
            (record { offsets = some (found (offsets_of (range es first n))); real_count = some n })
            end
  query_by_count-filled count e le =
      query_by_count-reads count e
      ∙ ap (λ r. then_run r (λ filled. pure (record { offsets = filled; real_count = some n })))
          (append_all_fits (offsets_of (range es first n)) fresh end fresh-HasRoom
            (omega (arith, length-map_offsets (range es first n), length-range)))

  -- Where, the other conditions being the same, `n` is more than 1280, the query writes outside the
  -- array of offsets.
  pub query_by_count-overrun :
      (count : ℕ)
      → read_count h.count first count ≡ n
      → 1280 < n
      → query_by_count
          (record { fd = fd; header = h })
          first
          count
          (on_file os fd inode (index_bytes h0 es) p)
        ≡ undefined
  query_by_count-overrun count e lt =
      query_by_count-reads count e
      ∙ ap (λ r. then_run r (λ filled. pure (record { offsets = filled; real_count = some n })))
          (append_all_overrun (offsets_of (range es first n)) fresh end fresh-HasRoom
            (omega (arith, length-map_offsets (range es first n), length-range)))

-- Where the header counts the entries of the file, which are fewer than 2^28 - 2, the entry `first` is
-- one of them, `first + count` does not pass 2^32, and `n` is the smaller of `count` and of the
-- number of entries from `first` on, and at most 1280: the query returns the offsets of the `n`
-- entries from `first` on, in order, and the number `n`.
pub query_by_count-on_file :
    (os : Os) (fd inode p : ℕ) (h h0 : Header) (es : List Entry) (first count : ℕ)
    → h.count ≡ length es
    → first < length es
    → AllFit es
    → 40 + 16 * length es < 2 ^ 32
    → first + count < 2 ^ 32
    → min count (length es - first) ≤ 1280
    → query_by_count
        (record { fd = fd; header = h })
        first
        count
        (on_file os fd inode (index_bytes h0 es) p)
      ≡ ran
          (record {
            offsets =
                some (found (offsets_of (take (min count (length es - first)) (drop first es))));
            real_count = some (min count (length es - first));
          })
          (on_file os fd inode
            (index_bytes h0 es)
            (40 + 16 * first + 16 * min count (length es - first)))
query_by_count-on_file os fd inode p h h0 es first count total lt fit few small le =
    let n : ℕ = min count (length es - first) in
    let counted : first < h.count = omega (arith, total) in
    let enough : first + n ≤ length es = omega arith in
    let number : read_count h.count first count ≡ n =
      read_count-eq-min h.count first count counted small ∙ ap (λ t. min count (t - first)) total in
    let size : length (flat (range es first n)) ≡ 16 * n =
      length-flat (range es first n)
      ∙ ap (λ m. 16 * m) (length-range os fd inode p h h0 es first n counted fit enough few) in
    query_by_count-filled os fd inode p h h0 es first n counted fit enough few count number le
    ∙ ap
        (λ m.
          ran
            (record { offsets = some (found (offsets_of (range es first n))); real_count = some n })
            (on_file os fd inode (index_bytes h0 es) (40 + 16 * first + m)))
        size

-- The entries up to the first whose timestamp has reached `stop`.
pub before : ℕ → List Entry → List Entry
before stop [] = []
before stop (e ∷ es) = let rest = before stop es in if ltb e.timestamp stop then e ∷ rest else []

-- The number of entries read to find that out.
pub scanned : ℕ → List Entry → ℕ
scanned stop [] = 0
scanned stop (e ∷ es) = let rest = scanned stop es in if ltb e.timestamp stop then suc rest else 1

add_zero : (n : ℕ) → n + 0 ≡ n
add_zero n = omega arith

drop-step :
    (es rest : List Entry) (k : ℕ) (e : Entry) → drop k es ≡ e ∷ rest → drop (suc k) es ≡ rest
drop-step es rest k e h = ap (λ n. drop n es) eq ∙ sym (drop-drop 1 k es) ∙ ap (drop 1) h
  where
    eq : suc k ≡ k + 1
    eq = omega arith

read_next :
    (h : Header) (es rest : List Entry) (k : ℕ) (e : Entry)
    → drop k es ≡ e ∷ rest
    → take 16 (drop (40 + 16 * k) (index_bytes h es)) ≡ entry_bytes e
read_next h es rest k e here =
    read_at-index_bytes h es k 1 ∙ ap (λ l. flat (take 1 l)) here ∙ append-nil (entry_bytes e)

next_position : (k : ℕ) → 40 + 16 * k + 16 ≡ 40 + 16 * suc k
next_position k = omega arith

module _ (os : Os) (fd inode : ℕ) (h0 : Header) (es : List Entry) (stop : ℕ) where
  abbrev standing : ℕ → Os
  standing k = on_file os fd inode (index_bytes h0 es) (40 + 16 * k)

  result-eq :
      (list : OffsetList) {l l' : List ℕ} {n n' m m' : ℕ}
      → l ≡ l'
      → n ≡ n'
      → m ≡ m'
      → ◌≡◌ {A = Run (Option OffsetList × ℕ)}
          (ran (some (record list { offsets = l }), n) (standing m))
          (ran (some (record list { offsets = l' }), n') (standing m'))
  result-eq list p q r i = ran (some (record list { offsets = p i }), q i) (standing (r i))

  -- The loop from the `k`-th entry on, with every remaining entry a round.
  time_loop-standing :
      (rest : List Entry) (k real_count : ℕ) (list : OffsetList)
      → drop k es ≡ rest
      → AllFit rest
      → HasRoom list
      → Offset.count list + length rest ≤ list.room
      → real_count + length rest < 2 ^ 32
      → time_loop (length rest) fd stop (some list) real_count (standing k)
        ≡ ran
            (
              some (extended list (offsets_of (before stop rest))),
              real_count + length (before stop rest),
            )
            (standing (k + scanned stop rest))
  unfolding time_loop before scanned
  time_loop-standing [] k real_count list here fit r room small =
      rw (append-nil list.offsets, add_zero real_count, add_zero k) refl
  time_loop-standing (e ∷ rest) k real_count list here (fe, fit) r room small =
      elim (Bool-cases (ltb e.timestamp stop)) [
        | inl older ↦
            rw
              (
                read-on_file os fd inode (index_bytes h0 es) (40 + 16 * k) 16,
                read_next h0 es rest k e here,
                length-entry_bytes e,
                entry_of-entry_bytes e fe,
                older,
                append_fits list e.offset
                    (on_file os fd inode (index_bytes h0 es) (40 + 16 * k + 16)) r (omega arith),
                mod-eq_of_lt {n = real_count + 1} {m = 2 ^ 32} (omega arith),
                next_position k,
              )
              (time_loop-standing rest (suc k) (real_count + 1) (extended list (e.offset ∷ []))
                  (drop-step es rest k e here) fit (extended-HasRoom list e.offset r (omega arith))
                  (omega (arith, length-append list.offsets (e.offset ∷ []))) (omega arith)
                ∙ result-eq list
                    (append_assoc list.offsets (e.offset ∷ []) (offsets_of (before stop rest)))
                    (omega arith) (omega arith))
        | inr newer ↦
            rw
              (
                read-on_file os fd inode (index_bytes h0 es) (40 + 16 * k) 16,
                read_next h0 es rest k e here,
                length-entry_bytes e,
                entry_of-entry_bytes e fe,
                newer,
                next_position k,
              )
              (result-eq list (sym (append-nil list.offsets)) (omega arith) (omega arith))
      ]

  -- Where the header counts the entries of the file, and at most 1280 are there from the first asked
  -- for on, which is one of them,
  -- the query by time returns the offsets of the entries from the first asked for up to the first
  -- whose timestamp has reached `stop`, and adds their number to the caller's count (which does not
  -- wrap).
  pub query_by_time-on_file :
      (h : Header) (first real_count p : ℕ)
      → h.count ≡ length es
      → first < length es
      → length (drop first es) ≤ 1280
      → real_count + length (drop first es) < 2 ^ 32
      → AllFit es
      → 40 + 16 * length es < 2 ^ 63
      → query_by_time
          (record { fd = fd; header = h })
          stop
          first
          real_count
          (on_file os fd inode (index_bytes h0 es) p)
        ≡ ran
            (
              some (found (offsets_of (before stop (drop first es)))),
              real_count + length (before stop (drop first es)),
            )
            (on_file os fd inode
              (index_bytes h0 es)
              (40 + 16 * (first + scanned stop (drop first es))))
  unfolding query_by_time
  query_by_time-on_file h first real_count p counted lt few small fit bounded =
      rw
        (
          lt→leb h.count first (omega arith),
          lseek_set-on_file os fd inode (index_bytes h0 es) p (40 + 16 * first) (omega arith),
          Laws.malloc-on_file os fd inode (index_bytes h0 es) (40 + 16 * first),
          rounds,
        )
        (time_loop-standing (drop first es) first real_count fresh refl (AllFit-drop first es fit)
          fresh-HasRoom (omega arith) small)
    where
      rounds : h.count - first ≡ length (drop first es)
      rounds = omega (arith, length-drop first es)
