-- ===== src/Time/Sample.antt =====
-- A block with two records on a small system, for the tests.
use sea.Prelude.{
  ℕ, ◌+◌, refl, none, some, List, [], ◌∷◌, ◌++◌, false, length, arith, if◌then◌else◌, ◌==◌,
}
use sea.Bytes.{le_bytes, of_le_bytes}
use sea.Posix.{Os, Fault}
use sea.Time.Data.{frame}
use sea.Time.Data.Frame.{RecordAt}
use sea.Time.Index.{Header, Entry}
use sea.Time.Index.Layout.{index_bytes}
use sea.Time.Block.{Block}
use sea.Time.Block.Log.{Stored, IsLog}

abbrev pub abc : List ℕ
abc = b'a' ∷ b'b' ∷ b'c' ∷ []

abbrev pub xy : List ℕ
xy = b'x' ∷ b'y' ∷ []

abbrev pub header : Header
header = record {
  block_id = 9;
  max_count = 3;
  start_timestamp = 5;
  stop_timestamp = 8;
  count = 2;
  unused = 0;
}

abbrev pub entries : List Entry
entries = record { timestamp = 7; offset = 0 } ∷ record { timestamp = 8; offset = 19 } ∷ []

abbrev pub framed_sample : List ℕ → List ℕ
framed_sample r = frame (0 ∷ 0 ∷ []) (0 ∷ 0 ∷ 0 ∷ []) (length r) r

abbrev pub contents : List ℕ
contents = framed_sample abc ++ framed_sample xy

abbrev pub block : Block
block = record {
  dir = b'd' ∷ [];
  block_id = 9;
  handle = record { fd = 3 };
  index = record { fd = 4; header = header };
}

-- The data file at position `p`, and the outcomes of the coming calls.
abbrev pub system : ℕ → List Fault → Os
system p faults = record {
  names = λ _. none;
  dirs = λ _. false;
  bytes = λ i. if i == 10 then contents else if i == 11 then index_bytes header entries else [];
  fds = λ fd.
      if fd == 3
      then some (record { inode = 10; pos = p })
      else if fd == 4
      then some (record { inode = 11; pos = 40 })
      else none;
  next_inode = 12;
  next_fd = 5;
  errno = 0;
  faults = faults;
  clock = λ n. n + 100;
  ticks = 0;
  uninit = λ _. 0;
}

pub first_at : RecordAt contents 0 abc
unfolding le_bytes of_le_bytes
first_at = record {
  whole = refl;
  sized = refl;
  body = refl;
  fits = omega arith;
  small = omega arith;
}

pub second_at : RecordAt contents 19 xy
unfolding le_bytes of_le_bytes
second_at = record {
  whole = refl;
  sized = refl;
  body = refl;
  fits = omega arith;
  small = omega arith;
}

pub sample-IsLog : IsLog header entries contents (abc ∷ xy ∷ [])
sample-IsLog = record {
  total = refl;
  header = omega arith;
  entries = omega arith;
  records = (omega arith, first_at, (omega arith, second_at, tt));
}

unfoldable pub stored : (p : ℕ) → Stored (system p []) block (abc ∷ xy ∷ [])
stored p = record {
  es = entries;
  b = contents;
  index_inode = 11;
  data_inode = 10;
  index_pos = 40;
  data_pos = p;
  log = sample-IsLog;
  index = record { opened = refl; content = refl; quiet = refl };
  handle = record { opened = refl; content = refl; quiet = refl };
  other_fd = omega arith;
  other_inode = omega arith;
}
