-- ===== src/Controller/Store.antt =====
-- What the files of a node hold: blocks with the numbers from one on.
pub mod Get
pub mod Memory
pub mod Start
pub mod Reads
pub mod FirstWrite
mod Tests
use sea.Prelude.{ℕ, ◌+◌, ◌^◌, ◌≤◌, ◌<◌, ◌≡◌, ◌∙◌, some, none, List, [], length, arith, get_elem?}
use sea.Posix.{Os}
use sea.Posix.Kept.{Kept}
use sea.Time.Data
use sea.Time.Index
use sea.Time.Block.Open.{OnDisk}
use sea.Time.Block.Live.{Kept-OnDisk}
use sea.Controller.{data_dir}

-- A block on disk whose data file can be sought in.
pub record Held (os : Os) (id : ℕ) (rs : List (List ℕ)) : Type 0 where
  pub on_disk : OnDisk os data_dir id rs
  pub size : length on_disk.b < 2 ^ 63
  pub few : length rs < 2 ^ 32

-- No file has a name of that block.
pub record Absent (os : Os) (id : ℕ) : Type 0 where
  pub data_name : os.names (Data.filename data_dir id) ≡ none
  pub index_name : os.names (Index.filename data_dir id) ≡ none

-- The blocks have the numbers from `own_id` on, and there is none behind them.
pub record Shelf (os : Os) (own_id : ℕ) (blocks : List (List (List ℕ))) : Type 0 where
  pub quiet : os.faults ≡ []
  pub positive : 0 < os.next_fd
  pub held : (i : ℕ) (rs : List (List ℕ)) → get_elem? blocks i ≡ some rs → Held os (own_id + i) rs
  pub beyond : (id : ℕ) → own_id + length blocks ≤ id → id < 2 ^ 64 → Absent os id

pub Held-Kept :
    {os os' : Os} {id : ℕ} {rs : List (List ℕ)} → Kept os os' → Held os id rs → Held os' id rs
unfolding Kept-OnDisk
Held-Kept k h = record { on_disk = Kept-OnDisk k h.on_disk; size = h.size; few = h.few }

pub Absent-Kept : {os os' : Os} {id : ℕ} → Kept os os' → Absent os id → Absent os' id
Absent-Kept {id = id} k a = record {
  data_name = k.names (Data.filename data_dir id) ∙ a.data_name;
  index_name = k.names (Index.filename data_dir id) ∙ a.index_name;
}

pub Shelf-Kept :
    {os os' : Os} {own_id : ℕ} {blocks : List (List (List ℕ))}
    → Kept os os'
    → Shelf os own_id blocks
    → Shelf os' own_id blocks
Shelf-Kept k s = record {
  quiet = k.quiet;
  positive = omega (arith, s.positive, k.next);
  held = λ i rs e. Held-Kept k (s.held i rs e);
  beyond = λ id le lt. Absent-Kept k (s.beyond id le lt);
}
