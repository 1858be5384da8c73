-- ===== src/Time/Index/Tests.antt =====
-- The theorems on the index at concrete inputs.
use sea.Prelude.{
  ℕ, zero, suc, ◌+◌, ◌*◌, ◌≡◌, refl, some, List, [], ◌∷◌, ◌++◌, length, take, drop, replicate,
  length-replicate, arith,
}
use sea.Bytes.{le_bytes}
use sea.Posix.{ran, undefined, fine, fail, short}
use sea.Posix.Laws.{on_file, tick}
use sea.Posix.Faulty.{queue, set_error}
use sea.Time.Index.{
  Header, Entry, append, counted, at_limit, query_by_count, query_by_time, entry_bytes,
}
use sea.Time.Index.Layout.{AllFit, FitsEntry, index_bytes}
use sea.Time.Index.Append.{now, new_entry}
use sea.Time.Index.Query.{found, offsets_of}
use sea.Time.Index.Range.{
  before, scanned, query_by_count-on_file, query_by_count-overrun, query_by_time-on_file,
}
use sea.Time.Index.Failure.{append_header_fails, append_entry_cut}
use sea.Time.Sample.{header, entries, system, sample-IsLog}

append_header_fails_example :
    append
      (record { fd = 4; header = header })
      37
      (queue
        (fine ∷ fail 28 ∷ fine ∷ [])
        (on_file (system 0 []) 4 11 (index_bytes header entries) 40))
    ≡ ran
        (record {
          ret = 255;
          index = record { fd = 4; header = record header { stop_timestamp = now (system 0 []) } };
          record_id = 2;
          over_limit = at_limit (counted header (now (system 0 [])));
        })
        (queue [] (on_file (set_error 28 (tick (system 0 []))) 4 11 (index_bytes header entries) 0))
append_header_fails_example =
    append_header_fails (system 0 []) [] 4 11 40 28 header header entries 37 refl (omega arith)

append_entry_cut_example :
    append
      (record { fd = 4; header = header })
      37
      (queue (short 5 ∷ []) (on_file (system 0 []) 4 11 (index_bytes header entries) 40))
    ≡ ran
        (record {
          ret = 22;
          index = record { fd = 4; header = counted header (now (system 0 [])) };
          record_id = 2;
          over_limit = at_limit (counted header (now (system 0 [])));
        })
        (queue [] (
          on_file
            (tick (system 0 []))
            4
            11
            (index_bytes header entries ++ take 5 (entry_bytes (new_entry (now (system 0 [])) 37)))
            (length (index_bytes header entries) + 5)))
append_entry_cut_example =
    append_entry_cut (system 0 []) [] 4 11 40 5 header header entries 37 (omega arith) (omega arith)

-- The first of the two entries.
query_by_count_example :
    query_by_count
      (record { fd = 4; header = header })
      0
      1
      (on_file (system 0 []) 4 11 (index_bytes header entries) 40)
    ≡ ran
        (record { offsets = some (found (0 ∷ [])); real_count = some 1 })
        (on_file (system 0 []) 4 11 (index_bytes header entries) 56)
unfolding entry_bytes le_bytes
query_by_count_example =
    query_by_count-on_file (system 0 []) 4 11 40 header header entries 0 1 refl (omega arith)
      sample-IsLog.entries (omega arith) (omega arith) (omega arith)

abbrev many : List Entry
many = replicate 1281 (record { timestamp = 7; offset = 0 })

abbrev many_header : Header
many_header = record header { count = 1281 }

same-AllFit : (n : ℕ) (e : Entry) → FitsEntry e → AllFit (replicate n e)
same-AllFit zero e f = tt
same-AllFit (suc n) e f = (f, same-AllFit n e f)

query_by_count-overrun_example :
    query_by_count
      (record { fd = 4; header = many_header })
      0
      1281
      (on_file (system 0 []) 4 11 (index_bytes many_header many) 40)
    ≡ undefined
query_by_count-overrun_example =
    query_by_count-overrun (system 0 []) 4 11 40 many_header many_header many 0 1281 (omega arith)
      (same-AllFit 1281 (record { timestamp = 7; offset = 0 }) (omega arith))
      (omega (arith, length-replicate {A = Entry} 1281 (record { timestamp = 7; offset = 0 })))
      (omega (arith, length-replicate {A = Entry} 1281 (record { timestamp = 7; offset = 0 }))) 1281
      refl (omega arith)

-- Of the two entries, one is older than 8.
query_by_time_example :
    query_by_time
      (record { fd = 4; header = header })
      8
      0
      3
      (on_file (system 0 []) 4 11 (index_bytes header entries) 40)
    ≡ ran
        (
          some (found (offsets_of (before 8 (drop 0 entries)))),
          3 + length (before 8 (drop 0 entries)),
        )
        (on_file
          (system 0 [])
          4
          11
          (index_bytes header entries)
          (40 + 16 * (0 + scanned 8 (drop 0 entries))))
query_by_time_example =
    query_by_time-on_file (system 0 []) 4 11 header entries 8 header 0 3 40 refl (omega arith)
      (omega arith) (omega arith) sample-IsLog.entries (omega arith)
