-- ===== src/Time/Block/Log.antt =====
-- What a block promises: it is a log of records, each kept as it was appended. `Stored` says which
-- log the two files of an open block hold.
use sea.Prelude.{
  ℕ, zero, suc, ◌+◌, ◌^◌, ◌≤◌, ◌<◌, ◌≡◌, ◌≢◌, refl, ap, subst, ◌∙◌, some, List, [], ◌∷◌, ◌++◌,
  length, get_elem?, arith, length-append,
}
use sea.Posix.{Os}
use sea.Posix.Laws.{Holds}
use sea.Time.Data.Frame.{RecordAt, RecordAt-append, RecordAt-framed}
use sea.Time.Data.Append.{framed}
use sea.Time.Index.{Header, Entry, counted}
use sea.Time.Index.Layout.{FitsHeader, FitsEntry, AllFit, AllFit-append, index_bytes}
use sea.Time.Index.Append.{new_entry}
use sea.Time.Block.{Block}

-- The entries point to the records, in order and without overlap, from the offset `lo` on.
abbrev pub Records : List ℕ → ℕ → List Entry → List (List ℕ) → Type 0
Records b lo [] [] = Unit
Records b lo (e ∷ es) (r ∷ rs) =
    (lo ≤ e.offset) × RecordAt b e.offset r × Records b (e.offset + 16 + length r) es rs
Records b lo _ _ = ⊥

pub record IsLog (h : Header) (es : List Entry) (b : List ℕ) (rs : List (List ℕ)) : Type 0 where
  pub total : h.count ≡ length es
  pub header : FitsHeader h
  pub entries : AllFit es
  pub records : Records b 0 es rs

pub record Stored (os : Os) (block : Block) (rs : List (List ℕ)) : Type 0 where
  pub es : List Entry
  pub b : List ℕ
  pub index_inode : ℕ
  pub data_inode : ℕ
  pub index_pos : ℕ
  pub data_pos : ℕ
  pub log : IsLog block.index.header es b rs
  pub index : Holds os block.index.fd index_inode (index_bytes block.index.header es) index_pos
  pub handle : Holds os block.handle.fd data_inode b data_pos
  pub other_fd : block.handle.fd ≢ block.index.fd
  pub other_inode : data_inode ≢ index_inode

pub Records-length :
    (b : List ℕ) (lo : ℕ) (es : List Entry) (rs : List (List ℕ))
    → Records b lo es rs
    → length es ≡ length rs
Records-length b lo [] [] h = refl
Records-length b lo (e ∷ es) (r ∷ rs) (_, _, h) =
    ap suc (Records-length b (e.offset + 16 + length r) es rs h)
Records-length b lo [] (r ∷ rs) h = absurd h
Records-length b lo (e ∷ es) [] h = absurd h

Records-extend :
    (b : List ℕ) (os : Os) (payload : List ℕ) (t lo : ℕ) (es : List Entry) (rs : List (List ℕ))
    → length payload < 2 ^ 32
    → lo ≤ length b
    → Records b lo es rs
    → Records
        (b ++ framed os (length payload) payload)
        lo
        (es ++ new_entry t (length b) ∷ [])
        (rs ++ payload ∷ [])
Records-extend b os payload t lo [] [] small le h = (le, RecordAt-framed b os payload small, tt)
Records-extend b os payload t lo (e ∷ es) (r ∷ rs) small le (lower, at, h) = (
  lower,
  RecordAt-append b _ e.offset r at,
  Records-extend b os payload t (e.offset + 16 + length r) es rs small at.fits h,
)
Records-extend b os payload t lo [] (r ∷ rs) small le h = absurd h
Records-extend b os payload t lo (e ∷ es) [] small le h = absurd h

-- A record appended to both files is one more record of the log.
pub IsLog-extend :
    {h : Header} {es : List Entry} {b : List ℕ} {rs : List (List ℕ)} (os : Os) (payload : List ℕ)
    (t : ℕ)
    → IsLog h es b rs
    → t < 2 ^ 64
    → length payload < 2 ^ 32
    → length b < 2 ^ 64
    → length rs + 1 < 2 ^ 32
    → IsLog
        (counted h t)
        (es ++ new_entry t (length b) ∷ [])
        (b ++ framed os (length payload) payload)
        (rs ++ payload ∷ [])
IsLog-extend {h} {es} {b} {rs} os payload t log fit small big room = record {
  total = omega (arith, log.total, same, length-append es (new_entry t (length b) ∷ []));
  header = record {
    block_id = log.header.block_id;
    max_count = log.header.max_count;
    start_timestamp = log.header.start_timestamp;
    stop_timestamp = fit;
    count = omega arith;
    unused = log.header.unused;
  };
  entries = AllFit-append es _ log.entries (record { timestamp = fit; offset = big });
  records = Records-extend b os payload t 0 es rs small (omega arith) log.records;
}
  where
    same : length es ≡ length rs
    same = Records-length b 0 es rs log.records

-- The entry and the place of the `k`-th record.
pub record Placed (es : List Entry) (b : List ℕ) (k : ℕ) (r : List ℕ) : Type 0 where
  pub entry : Entry
  pub nth : get_elem? es k ≡ some entry
  pub fits : FitsEntry entry
  pub at : RecordAt b entry.offset r

pub Records-nth :
    (b : List ℕ) (lo : ℕ) (es : List Entry) (rs : List (List ℕ)) (k : ℕ) (r : List ℕ)
    → AllFit es
    → Records b lo es rs
    → get_elem? rs k ≡ some r
    → Placed es b k r
Records-nth b lo [] [] k r f h e = ground arith
Records-nth b lo (x ∷ es) (y ∷ rs) zero r (fx, f) (lower, at, h) e = record {
  entry = x;
  nth = refl;
  fits = fx;
  at = subst (RecordAt b x.offset) (ground arith) at;
}
Records-nth b lo (x ∷ es) (y ∷ rs) (suc k) r (fx, f) (lower, at, h) e =
    let p = Records-nth b (x.offset + 16 + length y) es rs k r f h e in
    record { entry = p.entry; nth = p.nth; fits = p.fits; at = p.at }
Records-nth b lo [] (y ∷ rs) k r f h e = absurd h
Records-nth b lo (x ∷ es) [] k r f h e = absurd h

pub same_total :
    {os : Os} {block : Block} {rs : List (List ℕ)} (s : Stored os block rs)
    → block.index.header.count ≡ length rs
same_total s = s.log.total ∙ Records-length s.b 0 s.es _ s.log.records
