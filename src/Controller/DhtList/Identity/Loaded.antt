-- ===== src/Controller/DhtList/Identity/Loaded.antt =====
-- A start with an identity that is on file.
use sea.Prelude.{
  ℕ, ◌+◌, ◌≤◌, ◌≡◌, refl, ap, ◌∙◌, true, false, some, List, [], length, take, arith, append-nil,
  take_all, drop_all, ◌==◌,
}
use sea.Posix.{Os, ran, open_file, read, junk}
use sea.Posix.Laws.{Holds-with_fd, on_file, with_fd, open_file_lem, read_lem, length-junk}
use sea.Posix.Names.{closed, close_lem, uninit_bytes_lem}
use sea.Posix.Kept.{Kept, Kept-refl, Kept-trans, Kept-with_fd, Kept-on_file, Kept-closed}
use sea.Controller.DhtList.Identity.{
  identity, load_id, with_random, seeded, id_file, random_file, read_over,
}

-- The start of a file, read through a descriptor of its own.
module _ (os : Os) (path : List ℕ) (inode n : ℕ) (quiet : os.faults ≡ [])
    (there : os.names path ≡ some inode) where
  abbrev pub bytes_read : List ℕ
  bytes_read = take n (os.bytes inode)

  abbrev pub state_read : Os
  state_read = on_file (with_fd os inode) os.next_fd inode (os.bytes inode) (0 + length bytes_read)

  pub start_open : open_file path false os ≡ ran (some os.next_fd) (with_fd os inode)
  start_open = open_file_lem os path false inode quiet there

  pub start_read : read os.next_fd n (with_fd os inode) ≡ ran (some bytes_read) state_read
  start_read = read_lem (Holds-with_fd os inode quiet) n

  start_Kept : Kept os state_read
  start_Kept =
      Kept-on_file (Kept-with_fd (Kept-refl os quiet) inode) os.next_fd inode 0
        (0 + length bytes_read) (os.bytes inode) (omega arith) (Holds-with_fd os inode quiet)

  -- The descriptor is closed again.
  abbrev pub state_shut : Os
  state_shut = closed state_read os.next_fd

  pub shut_Kept : Kept os state_shut
  shut_Kept = Kept-closed start_Kept os.next_fd (omega arith)

pub read_over_full : (buf r : List ℕ) → length buf ≤ length r → read_over buf (some r) ≡ r
read_over_full buf r le = rw (drop_all (length r) buf le, append-nil r) refl

-- What is read of the file of random bytes for the seed.
unfoldable pub seed_from : Os → List ℕ → List ℕ
seed_from os rnd = read_over (junk os.uninit 20 4) (some (take 4 rnd))

-- An identity that is on file.
module _ (os : Os) (inode random : ℕ) (id : List ℕ) (quiet : os.faults ≡ [])
    (there : os.names id_file ≡ some inode) (file : os.bytes inode ≡ id) (whole : length id ≡ 20)
    (device : os.names random_file ≡ some random) where
  all_read : take 20 (os.bytes inode) ≡ id
  all_read = rw file (take_all 20 id (omega (arith, whole)))

  load-eq :
      load_id (junk os.uninit 0 20) os ≡ ran (true, id) (state_shut os id_file inode 20 quiet there)
  unfolding load_id
  load-eq =
      rw
        (
          start_open os id_file inode 20 quiet there,
          start_read os id_file inode 20 quiet there,
          close_lem (state_read os id_file inode 20 quiet there) os.next_fd,
        )
        (ap
            (λ r.
              ran (length r == 20, read_over (junk os.uninit 0 20) (some r))
                (state_shut os id_file inode 20 quiet there))
            all_read
          ∙ rw
              (
                read_over_full (junk os.uninit 0 20) id
                    (omega (arith, whole, length-junk os.uninit 0 20)),
                whole,
              )
              refl)

  module _ (rnd : List ℕ) (source : os.bytes random ≡ rnd) where
    abbrev loaded : Os
    loaded = state_shut os id_file inode 20 quiet there

    loaded-Kept : Kept os loaded
    loaded-Kept = shut_Kept os id_file inode 20 quiet there

    device_there : loaded.names random_file ≡ some random
    device_there = loaded-Kept.names random_file ∙ device

    pub identity_loaded :
        (os' : Os) × (identity os ≡ ran (some (record { id = id; seed = seed_from os rnd })) os')
        × Kept os os'
    unfolding identity with_random seeded seed_from with_fd on_file closed
    identity_loaded = (
      state_shut loaded random_file random 4 loaded-Kept.quiet device_there,
      rw
          (
            uninit_bytes_lem 0 20 os,
            load-eq,
            start_open loaded random_file random 4 loaded-Kept.quiet device_there,
            uninit_bytes_lem 20 4 (with_fd loaded random),
            start_read loaded random_file random 4 loaded-Kept.quiet device_there,
            close_lem (state_read loaded random_file random 4 loaded-Kept.quiet device_there)
                loaded.next_fd,
            loaded-Kept.bytes random,
            source,
          )
          refl,
      Kept-trans loaded-Kept (shut_Kept loaded random_file random 4 loaded-Kept.quiet device_there),
    )
