-- ===== src/Time/Block/Create.antt =====
-- `sea_block_create` where no file of the block is there, and every call succeeds.
use sea.Prelude.{
  ℕ, ◌+◌, ◌%◌, ◌^◌, ◌≤◌, ◌<◌, ◌≡◌, ◌≢◌, refl, sym, ◌∙◌, Bool, some, none, Option, List, [], length,
  arith, append-nil, update-ne, update_self, Bool-cases, true, inl, inr, ne→==,
}
use sea.Posix.{Os, ran, mkdir, at_path, eexist, gettimeofday}
use sea.Posix.Laws.{Holds-tick, on_file, tick, with_fd, write_lem}
use sea.Posix.Names.{with_file, closed, close_lem, open_new_lem, Holds-with_file, path_eq_refl}
use sea.Time.Utils.{snprintf, sub_dir, path_max, make_sub_dir, get_current_mills}
use sea.Bytes.Laws.{write_at-end}
use sea.Time.Data
use sea.Time.Index
use sea.Time.Index.{Header, header_bytes}
use sea.Time.Index.Layout.{FitsHeader, index_bytes, length-header_bytes}
use sea.Time.Block.{create}
use sea.Time.Block.Open.{OnDisk}
use sea.Time.Block.Paths.{path_eq_ne, data-index_ne}

-- What is kept while the two files of a block are made, under the next two inodes.
pub record Made (os os' : Os) (dir : List ℕ) (id : ℕ) : Type 0 where
  pub bytes : (i : ℕ) → i < os.next_inode → os'.bytes i ≡ os.bytes i
  pub names :
      (p : List ℕ) → p ≢ Data.filename dir id → p ≢ Index.filename dir id → os'.names p ≡ os.names p
  pub fds : (fd : ℕ) → fd < os.next_fd → os'.fds fd ≡ os.fds fd
  pub next : os.next_fd ≤ os'.next_fd
  pub inodes : os'.next_inode ≡ os.next_inode + 2
  pub quiet : os'.faults ≡ []

mkdir_lem :
    (path : List ℕ) (os : Os)
    → os.faults ≡ []
    → (r : Option ℕ) × (errno : ℕ) × (dirs : List ℕ → Bool) × (mkdir path os
        ≡ ran r (record os { errno = errno; dirs = dirs }))
unfolding mkdir
mkdir_lem path os quiet = elim (Bool-cases (os.dirs path)) [
  | inl there ↦ (none, eexist, os.dirs, rw (quiet, there) refl)
  | inr absent ↦ (some 0, os.errno, at_path os.dirs path true, rw (quiet, absent) refl)
]

module _ (os : Os) (dir : List ℕ) (id max_count errno : ℕ) (dirs : List ℕ → Bool) where
  abbrev made : Os
  made = record os { errno = errno; dirs = dirs }

  abbrev header : Header
  header = Index.new_header id max_count ((os.clock os.ticks) % 2 ^ 64)

  abbrev index_made : Os
  index_made =
      closed
        (on_file (tick (with_fd (with_file made (Index.filename dir id)) os.next_inode)) os.next_fd
          os.next_inode (header_bytes header) 40)
        os.next_fd

  -- The state with both files, which are closed.
  pub created : Os
  created =
      closed (with_fd (with_file index_made (Data.filename dir id)) (os.next_inode + 1))
        (os.next_fd + 1)

  -- What was there before.
  created-bytes : (i : ℕ) → i < os.next_inode → created.bytes i ≡ os.bytes i
  unfolding created with_fd with_file closed on_file tick
  created-bytes i lt = ground arith

  created-names :
      (p : List ℕ)
      → p ≢ Data.filename dir id
      → p ≢ Index.filename dir id
      → created.names p ≡ os.names p
  unfolding created with_fd with_file closed on_file tick
  created-names p nd ni =
      rw
        (
          path_eq_ne (Data.filename dir id) p (λ e. nd (sym e)),
          path_eq_ne (Index.filename dir id) p (λ e. ni (sym e)),
        )
        refl

  created-fds : (fd : ℕ) → fd < os.next_fd → created.fds fd ≡ os.fds fd
  unfolding created with_fd with_file closed on_file tick
  created-fds fd lt = ground arith

  created-next : created.next_fd ≡ os.next_fd + 2
  unfolding created with_fd with_file closed on_file tick
  created-next = omega arith

  created-inodes : created.next_inode ≡ os.next_inode + 2
  unfolding created with_fd with_file closed on_file tick
  created-inodes = omega arith

  module _ (small : length dir ≤ 4000) (quiet : os.faults ≡ [])
      (data_absent : os.names (Data.filename dir id) ≡ none)
      (index_absent : os.names (Index.filename dir id) ≡ none) where
    created-quiet : created.faults ≡ []
    unfolding created with_fd with_file closed on_file tick
    created-quiet = refl

    index_names : index_made.names (Data.filename dir id) ≡ none
    unfolding with_fd with_file closed on_file tick
    index_names =
        rw
          (path_eq_ne (Index.filename dir id) (Data.filename dir id)
            (λ e. data-index_ne dir small id id (sym e)))
          data_absent

    create-eq :
        (max_size : ℕ) (r : Option ℕ)
        → max_count ≢ 0
        → mkdir (snprintf path_max (sub_dir dir id)) os ≡ ran r made
        → create dir id max_size max_count os ≡ ran 0 created
    unfolding create Index.create make_sub_dir Data.create get_current_mills gettimeofday created
        tick with_fd with_file on_file closed
    create-eq max_size r ne e =
        rw
          (
            e,
            open_new_lem made (Index.filename dir id) quiet index_absent,
            ne→== max_count 0 ne,
            write_lem (Holds-tick (Holds-with_file made (Index.filename dir id) quiet))
                (header_bytes header),
            write_at-end [] (header_bytes header),
            length-header_bytes header,
            close_lem
                (on_file (tick (with_fd (with_file made (Index.filename dir id)) os.next_inode))
                  os.next_fd os.next_inode (header_bytes header) 40)
                os.next_fd,
            open_new_lem index_made (Data.filename dir id) refl index_names,
            close_lem (with_fd (with_file index_made (Data.filename dir id)) (os.next_inode + 1))
                (os.next_fd + 1),
          )
          refl

    header_small : max_count < 2 ^ 64 → id < 2 ^ 64 → FitsHeader header
    header_small lm li = record {
      block_id = li;
      max_count = lm;
      start_timestamp = omega arith;
      stop_timestamp = omega arith;
      count = omega arith;
      unused = omega arith;
    }

    created-index_name : created.names (Index.filename dir id) ≡ some os.next_inode
    unfolding created with_fd with_file closed on_file tick
    created-index_name =
        rw
          (
            path_eq_ne (Data.filename dir id) (Index.filename dir id)
                (data-index_ne dir small id id),
            path_eq_refl (Index.filename dir id),
          )
          refl

    created-data_name : created.names (Data.filename dir id) ≡ some (os.next_inode + 1)
    unfolding created with_fd with_file closed on_file tick
    created-data_name = rw (path_eq_refl (Data.filename dir id)) refl

    created-index_file : created.bytes os.next_inode ≡ index_bytes header []
    unfolding created with_fd with_file closed on_file tick
    created-index_file =
        update-ne index_made.bytes (os.next_inode + 1) os.next_inode [] (omega arith)
        ∙ update_self (with_file made (Index.filename dir id)).bytes os.next_inode
            (header_bytes header)
        ∙ sym (append-nil (header_bytes header))

    created-data_file : created.bytes (os.next_inode + 1) ≡ []
    unfolding created with_fd with_file closed on_file tick
    created-data_file = update_self index_made.bytes (os.next_inode + 1) []

    created-OnDisk : max_count < 2 ^ 64 → id < 2 ^ 64 → OnDisk created dir id []
    created-OnDisk lm li = record {
      header = header;
      es = [];
      b = [];
      index_inode = os.next_inode;
      data_inode = os.next_inode + 1;
      log = record { total = refl; header = header_small lm li; entries = tt; records = tt };
      quiet = created-quiet;
      index_name = created-index_name;
      data_name = created-data_name;
      index_file = created-index_file;
      data_file = created-data_file;
      other_inode = omega arith;
    }

-- The environment letting every call succeed and neither file of the block being there, in a
-- directory with a name of at most 4000 characters, the number and the limit fitting 64 bits and the limit not
-- being 0: `create` returns 0, the two files hold an
-- empty log with that limit, and every other file, name and open descriptor is as before.
pub create_empty :
    (os : Os) (dir : List ℕ) (id max_size max_count : ℕ)
    → length dir ≤ 4000
    → os.faults ≡ []
    → os.names (Data.filename dir id) ≡ none
    → os.names (Index.filename dir id) ≡ none
    → max_count ≢ 0
    → max_count < 2 ^ 64
    → id < 2 ^ 64
    → (os' : Os) × (create dir id max_size max_count os ≡ ran 0 os')
      × Made os os' dir id
      × (d : OnDisk os' dir id []) × (d.index_inode ≡ os.next_inode)
      × (d.data_inode ≡ os.next_inode + 1)
      × (d.b ≡ [])
      × (d.header.max_count ≡ max_count)
unfolding created-OnDisk
create_empty os dir id max_size max_count small quiet data_absent index_absent ne lm li =
    let (r, errno, dirs, e) = mkdir_lem (snprintf path_max (sub_dir dir id)) os quiet in
    (
      created os dir id max_count errno dirs,
      create-eq os dir id max_count errno dirs small quiet data_absent index_absent max_size r ne e,
      record {
        bytes = created-bytes os dir id max_count errno dirs;
        names = created-names os dir id max_count errno dirs;
        fds = created-fds os dir id max_count errno dirs;
        next = omega (arith, created-next os dir id max_count errno dirs);
        inodes = created-inodes os dir id max_count errno dirs;
        quiet = created-quiet os dir id max_count errno dirs small quiet data_absent index_absent;
      },
      created-OnDisk os dir id max_count errno dirs small quiet data_absent index_absent lm li,
      refl,
      refl,
      refl,
      refl,
    )
