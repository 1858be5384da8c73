-- ===== src/Controller/DhtList/Identity/Drawn.antt =====
-- A start with no identity on file, and the start after it.
use sea.Prelude.{
  ℕ, ◌+◌, ◌≤◌, ◌<◌, ◌≡◌, ◌≢◌, refl, ap, ◌∙◌, false, some, none, List, [], length, take, update,
  update-ne, update_self, arith, length-take,
}
use sea.Bytes.Laws.{write_at-end}
use sea.Posix
use sea.Posix.{Os, ran, open_file, read, close, enoent, ebadf, uninit_bytes, junk}
use sea.Posix.Laws.{Holds, on_file, with_fd, write_lem, length-junk}
use sea.Posix.Names.{with_file, closed, close_lem, open_new_lem, Holds-with_file, uninit_bytes_lem}
use sea.Posix.Kept.{Kept}
use sea.Controller.DhtList.Identity.{
  identity, load_id, make_id, save_id, with_random, seeded, truncate, open_truncated, id_file,
  random_file, read_over,
}
use sea.Controller.DhtList.Identity.Loaded.{
  state_read, state_shut, start_open, start_read, shut_Kept, read_over_full, seed_from,
  identity_loaded,
}

open_absent :
    (os : Os) (path : List ℕ)
    → os.faults ≡ []
    → os.names path ≡ none
    → open_file path false os ≡ ran none (record os { errno = enoent })
unfolding open_file
open_absent os path quiet absent = rw (quiet, absent) refl

read_closed :
    (os : Os) (fd n : ℕ) → os.fds fd ≡ none → read fd n os ≡ ran none (record os { errno = ebadf })
unfolding read
read_closed os fd n shut = rw shut refl

truncate_lem :
    {os : Os} {fd inode p : ℕ} {b : List ℕ}
    → Holds os fd inode b p
    → truncate fd os ≡ ran tt (record os { bytes = update os.bytes inode [] })
unfolding truncate
truncate_lem h = rw (truncate, h.opened) refl

-- What a file of the identity holds that was written.
record Saved (os os' : Os) (id : List ℕ) : Type 0 where
  name : os'.names id_file ≡ some os.next_inode
  file : os'.bytes os.next_inode ≡ id
  quiet : os'.faults ≡ []
  fds : (fd : ℕ) → fd < os.next_fd → os'.fds fd ≡ os.fds fd
  device : os'.names random_file ≡ os.names random_file
  uninit : os'.uninit ≡ os.uninit

module _ (os : Os) (id : List ℕ) (quiet : os.faults ≡ []) (absent : os.names id_file ≡ none)
    (whole : length id ≡ 20) where
  abbrev file_made : Os
  file_made = with_fd (with_file os id_file) os.next_inode

  abbrev file_cut : Os
  file_cut = record file_made { bytes = update file_made.bytes os.next_inode [] }

  cut_Holds : Holds file_cut os.next_fd os.next_inode [] 0
  unfolding with_fd with_file
  cut_Holds = record {
    opened = update_self os.fds os.next_fd _;
    content = update_self file_made.bytes os.next_inode [];
    quiet = quiet;
  }

  abbrev state_saved : Os
  state_saved = closed (on_file file_cut os.next_fd os.next_inode id (0 + length id)) os.next_fd

  save-eq : save_id id os ≡ ran tt state_saved
  unfolding save_id open_truncated
  save-eq =
      rw
        (
          open_new_lem os id_file quiet absent,
          truncate_lem (Holds-with_file os id_file quiet),
          write_lem cut_Holds id,
          write_at-end [] id,
          whole,
          close_lem (on_file file_cut os.next_fd os.next_inode id (0 + 20)) os.next_fd,
        )
        refl

  save-Saved : Saved os state_saved id
  unfolding with_fd with_file on_file closed Posix.path_eq
  save-Saved = record {
    name = refl;
    file = update_self file_cut.bytes os.next_inode id;
    quiet = refl;
    fds = λ fd lt. ground arith;
    device = refl;
    uninit = refl;
  }

-- No identity on file.
module _ (os : Os) (random : ℕ) (quiet : os.faults ≡ []) (absent : os.names id_file ≡ none)
    (device : os.names random_file ≡ some random) (plenty : 20 ≤ length (os.bytes random)) where
  abbrev missed : Os
  missed = record os { errno = enoent }

  abbrev drawn : Os
  drawn = state_shut missed random_file random 20 quiet device

  drawn-Kept : Kept missed drawn
  drawn-Kept = shut_Kept missed random_file random 20 quiet device

  abbrev id_drawn : List ℕ
  id_drawn = take 20 (os.bytes random)

  drawn_whole : length id_drawn ≡ 20
  drawn_whole = omega (arith, length-take 20 (os.bytes random), plenty)

  drawn_absent : drawn.names id_file ≡ none
  drawn_absent = drawn-Kept.names id_file ∙ absent

  abbrev kept_on_file : Os
  kept_on_file = state_saved drawn id_drawn drawn-Kept.quiet drawn_absent drawn_whole

  drawn-Saved : Saved drawn kept_on_file id_drawn
  drawn-Saved = save-Saved drawn id_drawn drawn-Kept.quiet drawn_absent drawn_whole

  all_over : read_over (junk os.uninit 0 20) (some id_drawn) ≡ id_drawn
  all_over =
      read_over_full (junk os.uninit 0 20) id_drawn
        (omega (arith, drawn_whole, length-junk os.uninit 0 20))

  make-eq :
      make_id os.next_fd (junk os.uninit 0 20) (with_fd missed random)
      ≡ ran (some id_drawn) kept_on_file
  unfolding make_id
  make-eq =
      rw
        (
          start_read missed random_file random 20 quiet device,
          close_lem (state_read missed random_file random 20 quiet device) os.next_fd,
          ap (λ i. save_id i drawn) all_over
              ∙ save-eq drawn id_drawn drawn-Kept.quiet drawn_absent drawn_whole,
          all_over,
        )
        refl

  -- The file of random bytes was closed.
  drawn_shut : kept_on_file.fds os.next_fd ≡ none
  unfolding closed on_file with_fd
  drawn_shut =
      drawn-Saved.fds os.next_fd (omega arith)
      ∙ update_self (state_read missed random_file random 20 quiet device).fds os.next_fd none

  identity_drawn :
      (os' : Os) × (identity os
        ≡ ran (some (record { id = id_drawn; seed = junk os.uninit 20 4 })) os')
      × (os'.names id_file ≡ some drawn.next_inode)
      × (os'.bytes drawn.next_inode ≡ id_drawn)
      × (os'.names random_file ≡ some random)
      × (os'.faults ≡ [])
  unfolding identity load_id with_random seeded closed with_fd with_file on_file
  identity_drawn = (
    closed (record kept_on_file { errno = ebadf }) os.next_fd,
    rw
        (
          uninit_bytes_lem 0 20 os,
          open_absent os id_file quiet absent,
          start_open missed random_file random 20 quiet device,
          make-eq,
          uninit_bytes_lem 20 4 kept_on_file,
          read_closed kept_on_file os.next_fd 4 drawn_shut,
          close_lem (record kept_on_file { errno = ebadf }) os.next_fd,
        )
        refl,
    drawn-Saved.name,
    drawn-Saved.file,
    drawn-Saved.device ∙ drawn-Kept.names random_file ∙ device,
    drawn-Saved.quiet,
  )

-- The environment letting every call succeed, with no identity on file and the file of random bytes, which
-- has 20 of them, being an older file: a start draws the first 20 of them as the identity, and takes
-- for the seed what memory held; and a start after it, with whatever bytes that file has then, has the
-- identity of the first, and takes the first 4 of the bytes for the seed.
pub identity_kept :
    (os : Os) (random : ℕ) (rnd : List ℕ)
    → os.faults ≡ []
    → os.names id_file ≡ none
    → os.names random_file ≡ some random
    → 20 ≤ length (os.bytes random)
    → random < os.next_inode
    → 4 ≤ length rnd
    → (os' : Os) × (os'' : Os) × (identity os
        ≡ ran (some (record { id = take 20 (os.bytes random); seed = junk os.uninit 20 4 })) os')
      × (identity (record os' { bytes = update os'.bytes random rnd })
          ≡ ran (some (record { id = take 20 (os.bytes random); seed = take 4 rnd })) os'')
unfolding seed_from
identity_kept os random rnd quiet absent device plenty older more =
    let (os', first, name, file, device', quiet') =
      identity_drawn os random quiet absent device plenty in
    let os1 : Os = record os' { bytes = update os'.bytes random rnd } in
    let inode : ℕ = (drawn os random quiet absent device plenty).next_inode in
    let apart : random ≢ inode =
      omega (arith, older, (drawn-Kept os random quiet absent device plenty).inodes) in
    let (os'', second, kept) =
      identity_loaded os1 inode random (take 20 (os.bytes random)) quiet' name
        (update-ne os'.bytes random inode rnd apart ∙ file)
        (drawn_whole os random quiet absent device plenty) device' rnd
        (update_self os'.bytes random rnd) in
    (
      os',
      os'',
      first,
      second
          ∙ ap (λ s. ran (some (record { id = take 20 (os.bytes random); seed = s })) os'')
              (read_over_full (junk os'.uninit 20 4) (take 4 rnd)
                (omega (arith, length-junk os'.uninit 20 4, length-take 4 rnd, more))),
    )
