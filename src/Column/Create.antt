-- ===== src/Column/Create.antt =====
-- `col_array_create`, and `col_array_open` of what it has left.
use sea.Prelude.{
  ℕ, ◌+◌, ◌-◌, ◌^◌, ◌≤◌, ◌<◌, ◌≡◌, refl, sym, ◌∙◌, subst, none, some, List, [], ◌++◌, false, length,
  take, arith, length-append, length-take, take_all, take-take_le, take-append_self, lt→ltb,
  append-nil,
}
use sea.Bytes.{le_bytes, write_at}
use sea.Bytes.Laws.{of_le_bytes-le_bytes, write_at-end}
use sea.Posix.{Os, ran, junk}
use sea.Posix.Laws.{
  Holds, Holds-on_file, on_file, with_fd, Holds-with_fd, write_lem, read_lem, malloc_lem,
  open_file_lem, length-junk,
}
use sea.Posix.Names.{
  with_file, open_new_lem, Holds-with_file, close_lem, uninit_bytes_lem, left, left-names,
  left-bytes, left-faults,
}
use sea.Column.{
  Info, Header, Column, header_bytes, header_of, string_of, strlen, create, open_column, valid,
}
use sea.Column.Append.{Stored, length-header_bytes}

-- A header whose fields fit is read back as it was written.
pub header_of-header_bytes :
    (h : Header)
    → h.count < 2 ^ 32
    → h.record_type < 256
    → length h.col_name ≡ 32
    → header_of (header_bytes h) ≡ h
unfolding header_of header_bytes le_bytes
header_of-header_bytes h count type named i = record {
  count = of_le_bytes-le_bytes 4 h.count count i;
  record_type = of_le_bytes-le_bytes 1 h.record_type type i;
  col_name = take_all 32 h.col_name (omega (arith, named)) i;
}

pub strlen_lem :
    (cs name : List ℕ) (os : Os) → string_of cs ≡ some name → strlen cs os ≡ ran name os
unfolding strlen
strlen_lem cs name os found = rw (strlen, found) refl

module _ (os : Os) (path : List ℕ) (info : Info) (name : List ℕ) (quiet : os.faults ≡ [])
    (absent : os.names path ≡ none) (found : string_of info.col_name ≡ some name)
    (fits : length name ≤ 32) (type : info.record_type < 256) (positive : 0 < os.next_fd) where
  abbrev opened : Os
  opened = with_fd (with_file os path) os.next_inode

  -- What of the name was never set comes behind its characters.
  abbrev pub new_header : Header
  new_header = record {
    count = 0;
    record_type = info.record_type;
    col_name = take 32 (name ++ junk opened.uninit (5 + length name) (32 - length name));
  }

  named : length new_header.col_name ≡ 32
  named = omega (
    arith,
    length-take 32 (name ++ junk opened.uninit (5 + length name) (32 - length name)),
    length-append name (junk opened.uninit (5 + length name) (32 - length name)),
    length-junk opened.uninit (5 + length name) (32 - length name),
  )

  abbrev created : Os
  created =
      left os path (write_at [] 0 (header_bytes new_header)) (0 + length (header_bytes new_header))

  create-eq : create path (some info) os ≡ ran 37 created
  unfolding create
  create-eq =
      rw
        (
          open_new_lem os path quiet absent,
          strlen_lem info.col_name name opened found,
          uninit_bytes_lem (5 + length name) (32 - length name) opened,
          write_lem (Holds-with_file os path quiet) (header_bytes new_header),
          length-header_bytes new_header named,
          lt→ltb 0 os.next_fd positive,
          close_lem
              (on_file opened os.next_fd os.next_inode (write_at [] 0 (header_bytes new_header)) 37)
              os.next_fd,
        )
        refl

  created-faults : created.faults ≡ []
  created-faults =
      left-faults os path (write_at [] 0 (header_bytes new_header))
        (0 + length (header_bytes new_header))

  contents : created.bytes os.next_inode ≡ header_bytes new_header
  contents =
      left-bytes os path (write_at [] 0 (header_bytes new_header))
        (0 + length (header_bytes new_header))
      ∙ write_at-end [] (header_bytes new_header)

  abbrev reopened : Os
  reopened = with_fd created os.next_inode

  abbrev column : Column
  column = record { fd = created.next_fd; header = new_header }

  here : Holds reopened created.next_fd os.next_inode (header_bytes new_header) 0
  here =
      subst (λ b. Holds reopened created.next_fd os.next_inode b 0) contents
        (Holds-with_fd created os.next_inode created-faults)

  whole : take 37 (header_bytes new_header) ≡ header_bytes new_header
  whole =
      take_all 37 (header_bytes new_header) (omega (arith, length-header_bytes new_header named))

  abbrev read_state : Os
  read_state = on_file reopened created.next_fd os.next_inode (header_bytes new_header) 37

  open-eq : open_column path created ≡ ran (0, valid column) read_state
  unfolding open_column
  open-eq =
      rw
        (
          malloc_lem 44 created created-faults (omega arith),
          open_file_lem created path false os.next_inode created-faults (
              left-names os path (write_at [] 0 (header_bytes new_header))
                (0 + length (header_bytes new_header))),
          read_lem here 37,
          whole,
          length-header_bytes new_header named,
          header_of-header_bytes new_header (omega arith) type named,
        )
        refl

  column-Stored : Stored read_state column []
  column-Stored = record {
    inode = os.next_inode;
    pos = 37;
    file =
        subst (λ b. Holds read_state created.next_fd os.next_inode b 37)
          (sym (append-nil (header_bytes new_header))) (Holds-on_file _ _ _ _ _);
    named = named;
    total = omega arith;
  }

-- The environment letting every call succeed, no file being there, and the name of at most 32
-- characters ending inside the buffer: `create` answers 37, the bytes that it wrote, and `open` then
-- gives a column of that type with no values, whose name begins with the characters given.
pub create_then_open :
    (os : Os) (path : List ℕ) (info : Info) (name : List ℕ)
    → os.faults ≡ []
    → os.names path ≡ none
    → string_of info.col_name ≡ some name
    → length name ≤ 32
    → info.record_type < 256
    → 0 < os.next_fd
    → (c : Column) × (os' : Os) × (os'' : Os) × (create path (some info) os ≡ ran 37 os')
      × (os'.faults ≡ [])
      × (open_column path os' ≡ ran (0, valid c) os'')
      × Stored os'' c []
      × (c.header.record_type ≡ info.record_type)
      × (take (length name) c.header.col_name ≡ name)
create_then_open os path info name quiet absent found fits type positive =
    let unset =
      junk (opened os path info name quiet absent found fits type positive).uninit (5 + length name)
        (32 - length name) in
    (
      column os path info name quiet absent found fits type positive,
      created os path info name quiet absent found fits type positive,
      read_state os path info name quiet absent found fits type positive,
      create-eq os path info name quiet absent found fits type positive,
      created-faults os path info name quiet absent found fits type positive,
      open-eq os path info name quiet absent found fits type positive,
      column-Stored os path info name quiet absent found fits type positive,
      refl,
      take-take_le (length name) 32 (name ++ unset) fits ∙ take-append_self name unset,
    )
