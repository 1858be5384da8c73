-- ===== src/Controller/DhtList/Identity.antt =====
-- src/controller/dht_list.c: the identity with which a node joins the distributed hash table, which
-- __dht_list_init reads from a file of the working directory, or makes and writes there.
pub mod Loaded
pub mod Drawn
use Prim.Native.String.{String}
use sea.Prelude.{
  ℕ, ◌+◌, ◌-◌, Bool, true, false, Option, none, some, List, [], ◌∷◌, ◌++◌, ltb, ◌==◌, if◌then◌else◌,
  length, drop, update,
}
use sea.Posix
use sea.Posix.{Os, M, pure, ran, open_file, read, write, close, unlink, uninit_bytes, ◌>>=◌, ◌>>◌}
use sea.Controller.{codes}

abbrev pub id_file : List ℕ
id_file = codes "dht-example.id"

abbrev pub random_file : List ℕ
random_file = codes "/dev/urandom"

-- The identity, and the number that the random numbers begin with.
pub record Identity : Type 0 where
  pub id : List ℕ
  pub seed : List ℕ

-- The bytes that were read, over those that the buffer had.
abbrev pub read_over : List ℕ → Option (List ℕ) → List ℕ
read_over buf none = buf
read_over buf (some r) = r ++ drop (length r) buf

abbrev pub count_of : Option (List ℕ) → ℕ
count_of none = 0
count_of (some r) = length r

-- `open` with O_TRUNC.
truncate : ℕ → M (Unit {0})
truncate fd os = elim (os.fds fd) [
  | none ↦ ran tt os
  | some f ↦ ran tt (record os { bytes = update os.bytes f.inode [] })
]

open_truncated : List ℕ → M (Option ℕ)
unfolding truncate
open_truncated path = do
  fd ← open_file path true
  elim fd [ none ↦ pure none | some fd ↦ (do truncate fd; pure (some fd)) ]

load_id : List ℕ → M (Bool × List ℕ)
load_id myid = do
  fd ← open_file id_file false
  elim fd [
    | none ↦ pure (false, myid)
    | some fd ↦ (do r ← read fd 20; close fd; pure (count_of r == 20, read_over myid r))
  ]

abbrev cut_short : Option ℕ → Bool
cut_short none = true
cut_short (some n) = ltb n 20

removed_if : Bool → M (Unit {0})
removed_if true = do unlink id_file; pure tt
removed_if false = pure tt

save_id : List ℕ → M (Unit {0})
unfolding open_truncated removed_if
save_id myid = do
  fd ← open_truncated id_file
  elim fd [ none ↦ pure tt | some fd ↦ (do n ← write fd myid; removed_if (cut_short n); close fd) ]

-- `none` stands for the end of the process by `exit(1)`.
make_id : ℕ → List ℕ → M (Option (List ℕ))
unfolding save_id
make_id fd myid = do
  r ← read fd 20
  elim r [
    | none ↦ pure none
    | some r ↦ (do
      close fd
      save_id (read_over myid (some r))
      pure (some (read_over myid (some r))))
  ]

-- The file of random bytes is read once more, though it is closed if the identity was made.
seeded : ℕ → List ℕ → M (Option Identity)
seeded fd id = do
  seed ← uninit_bytes 20 4
  r ← read fd 4
  close fd
  pure (some (record { id = id; seed = read_over seed r }))

with_random : ℕ → Bool × List ℕ → M (Option Identity)
unfolding make_id seeded
with_random fd loaded = do
  id ← (if loaded.0 then pure (some loaded.1) else make_id fd loaded.1)
  elim id [ none ↦ pure none | some id ↦ seeded fd id ]

unfoldable pub identity : M (Option Identity)
unfolding load_id with_random
identity = do
  myid ← uninit_bytes 0 20
  loaded ← load_id myid
  fd ← open_file random_file false
  elim fd [ none ↦ pure none | some fd ↦ with_random fd loaded ]
