-- ===== src/Posix/Laws.antt =====
-- What the calls do when the environment lets them succeed, on one open file.
use sea.Prelude.{
  ℕ, zero, suc, ◌+◌, ◌%◌, ◌^◌, ◌≤◌, ◌<◌, ◌≡◌, ◌≢◌, refl, sym, ap, ◌∙◌, fun_ext, Bool, true, Option,
  some, List, [], update, length, take, arith, lt→ltb, le→leb, update_self, update-ne,
  update-update,
}
use sea.Bytes.{write_at, read_at}
use sea.Posix.{
  Os, OpenFile, Run, ran, malloc, memcpy, junk, uninit_bytes, lseek_set, lseek_cur, lseek_end,
  write, read, gettimeofday, take_fault, open_file,
}
use native.Mathlib.Nat.{mod-eq_of_lt}

-- `fd` is open on the file `inode` at position `p`, and the file's bytes are `b`.
pub record Holds (os : Os) (fd inode : ℕ) (b : List ℕ) (p : ℕ) : Type 0 where
  pub opened : os.fds fd ≡ some (record { inode = inode; pos = p })
  pub content : os.bytes inode ≡ b
  pub quiet : os.faults ≡ []

-- The state in which that holds, whatever `os` says of the descriptor, the file and the faults.
unfoldable pub on_file : Os → ℕ → ℕ → List ℕ → ℕ → Os
on_file os fd inode b p = record os {
  bytes = update os.bytes inode b;
  fds = update os.fds fd (some (record { inode = inode; pos = p }));
  faults = [];
}

unfoldable pub tick : Os → Os
tick os = record os { ticks = os.ticks + 1 }

abbrev at_pos : ℕ → ℕ → Option OpenFile
at_pos inode p = some (record { inode = inode; pos = p })

module _ {ℓ} {A : Type ℓ} where
  update_same : (f : ℕ → A) (k : ℕ) (v : A) → f k ≡ v → update f k v ≡ f
  update_same f k v h = fun_ext λ j. ground arith

module _ {os : Os} {fd inode p : ℕ} {b : List ℕ} where
  pub on_file-eq : Holds os fd inode b p → on_file os fd inode b p ≡ os
  unfolding on_file
  on_file-eq h i = record os {
    bytes = update_same os.bytes inode b h.content i;
    fds = update_same os.fds fd (some (record { inode = inode; pos = p })) h.opened i;
    faults = sym h.quiet i;
  }

module _ (os : Os) (fd inode : ℕ) (b : List ℕ) (p : ℕ) where
  pub Holds-on_file : Holds (on_file os fd inode b p) fd inode b p
  unfolding on_file
  Holds-on_file = record {
    opened = update_self os.fds fd _;
    content = update_self os.bytes inode b;
    quiet = refl;
  }

  pub on_file-on_file :
      (b' : List ℕ) (p' : ℕ)
      → on_file (on_file os fd inode b p) fd inode b' p' ≡ on_file os fd inode b' p'
  unfolding on_file
  on_file-on_file b' p' i = record os {
    bytes = update-update os.bytes inode b b' i;
    fds =
        update-update os.fds fd (some (record { inode = inode; pos = p }))
          (some (record { inode = inode; pos = p' })) i;
    faults = [];
  }

  pub Holds-on_file_ne :
      {fd' inode' p' : ℕ} {b' : List ℕ}
      → fd ≢ fd'
      → inode ≢ inode'
      → Holds os fd' inode' b' p'
      → Holds (on_file os fd inode b p) fd' inode' b' p'
  unfolding on_file
  Holds-on_file_ne {fd'} {inode'} nf ni h = record {
    opened = update-ne os.fds fd fd' _ nf ∙ h.opened;
    content = update-ne os.bytes inode inode' b ni ∙ h.content;
    quiet = refl;
  }

module _ {os : Os} {fd inode p : ℕ} {b : List ℕ} (h : Holds os fd inode b p) where
  moved :
      (p' : ℕ) → record os { fds = update os.fds fd (at_pos inode p') } ≡ on_file os fd inode b p'
  unfolding on_file
  moved p' i = record os {
    bytes = sym (update_same os.bytes inode b h.content) i;
    fds = update os.fds fd (at_pos inode p');
    faults = h.quiet i;
  }

  moved_quiet :
      (p' : ℕ)
      → record os { fds = update os.fds fd (at_pos inode p'); faults = [] }
        ≡ on_file os fd inode b p'
  unfolding on_file
  moved_quiet p' i = record os {
    bytes = sym (update_same os.bytes inode b h.content) i;
    fds = update os.fds fd (at_pos inode p');
    faults = [];
  }

  pub lseek_set_lem :
      (off : ℕ) → off < 2 ^ 63 → lseek_set fd off os ≡ ran (some off) (on_file os fd inode b off)
  unfolding lseek_set
  lseek_set_lem off lt = rw h.opened (
      rw (mod-eq_of_lt {n = off} {m = 2 ^ 64} (omega arith))
        (rw (lt→ltb off (2 ^ 63) lt) (ap (ran (some off)) (moved off))))

  pub write_lem :
      (w : List ℕ)
      → write fd w os ≡ ran (some (length w)) (on_file os fd inode (write_at b p w) (p + length w))
  unfolding write take_fault on_file
  write_lem w = simp (h.opened, h.quiet, h.content)

  pub read_lem :
      (n : ℕ)
      → read fd n os
        ≡ ran (some (read_at b p n)) (on_file os fd inode b (p + length (read_at b p n)))
  unfolding read take_fault
  read_lem n =
      simp (h.opened, h.quiet, h.content)
        (ap (ran (some (read_at b p n))) (moved_quiet (p + length (read_at b p n))))

  pub lseek_end_lem :
      length b < 2 ^ 63
      → lseek_end fd 0 os ≡ ran (some (length b)) (on_file os fd inode b (length b))
  unfolding lseek_end
  lseek_end_lem lt =
      rw (h.opened, h.content)
        (rw end_mod
          (rw (lt→ltb (length b) (2 ^ 63) lt) (ap (ran (some (length b))) (moved (length b)))))
    where
      end_mod : (length b + 0) % 2 ^ 64 ≡ length b
      end_mod = omega arith

  pub lseek_cur_lem :
      (off : ℕ)
      → p + off < 2 ^ 63
      → lseek_cur fd off os ≡ ran (some (p + off)) (on_file os fd inode b (p + off))
  unfolding lseek_cur
  lseek_cur_lem off lt = rw h.opened (
      rw (mod-eq_of_lt {n = p + off} {m = 2 ^ 64} (omega arith))
        (rw (lt→ltb (p + off) (2 ^ 63) lt) (ap (ran (some (p + off))) (moved (p + off)))))

-- A block of fewer than 2 ^ 63 bytes is had while the environment makes no call fail.
pub malloc_lem : (n : ℕ) (os : Os) → os.faults ≡ [] → n < 2 ^ 63 → malloc n os ≡ ran true os
unfolding malloc
malloc_lem n os q lt = rw q (rw (lt→ltb n (2 ^ 63) lt))

pub memcpy_lem : (w : List ℕ) (n : ℕ) (os : Os) → n ≤ length w → memcpy w n os ≡ ran (take n w) os
unfolding memcpy
memcpy_lem w n os le = rw (le→leb n (length w) le)

-- The same in a state that earlier calls have left: these rewrite a block of calls step by step.
module _ (os : Os) (fd inode : ℕ) (b : List ℕ) (p : ℕ) where
  again {ℓ} :
      {A : Type ℓ} (r : Run A) (a : A) (b' : List ℕ) (p' : ℕ)
      → r ≡ ran a (on_file (on_file os fd inode b p) fd inode b' p')
      → r ≡ ran a (on_file os fd inode b' p')
  again r a b' p' e = e ∙ ap (ran a) (on_file-on_file os fd inode b p b' p')

  pub lseek_set-on_file :
      (off : ℕ)
      → off < 2 ^ 63
      → lseek_set fd off (on_file os fd inode b p) ≡ ran (some off) (on_file os fd inode b off)
  lseek_set-on_file off lt = again _ _ _ _ (lseek_set_lem (Holds-on_file os fd inode b p) off lt)

  pub lseek_end-on_file :
      length b < 2 ^ 63
      → lseek_end fd 0 (on_file os fd inode b p)
        ≡ ran (some (length b)) (on_file os fd inode b (length b))
  lseek_end-on_file lt = again _ _ _ _ (lseek_end_lem (Holds-on_file os fd inode b p) lt)

  pub lseek_cur-on_file :
      (off : ℕ)
      → p + off < 2 ^ 63
      → lseek_cur fd off (on_file os fd inode b p)
        ≡ ran (some (p + off)) (on_file os fd inode b (p + off))
  lseek_cur-on_file off lt = again _ _ _ _ (lseek_cur_lem (Holds-on_file os fd inode b p) off lt)

  pub write-on_file :
      (w : List ℕ)
      → write fd w (on_file os fd inode b p)
        ≡ ran (some (length w)) (on_file os fd inode (write_at b p w) (p + length w))
  write-on_file w = again _ _ _ _ (write_lem (Holds-on_file os fd inode b p) w)

  pub read-on_file :
      (n : ℕ)
      → read fd n (on_file os fd inode b p)
        ≡ ran (some (read_at b p n)) (on_file os fd inode b (p + length (read_at b p n)))
  read-on_file n = again _ _ _ _ (read_lem (Holds-on_file os fd inode b p) n)

  pub malloc-on_file :
      (n : ℕ) → n < 2 ^ 63 → malloc n (on_file os fd inode b p) ≡ ran true (on_file os fd inode b p)
  malloc-on_file n lt = malloc_lem n _ (Holds-on_file os fd inode b p).quiet lt

  pub uninit_bytes-on_file :
      (i n : ℕ)
      → uninit_bytes i n (on_file os fd inode b p)
        ≡ ran (junk os.uninit i n) (on_file os fd inode b p)
  unfolding uninit_bytes on_file
  uninit_bytes-on_file i n = refl

  pub gettimeofday-on_file :
      gettimeofday (on_file os fd inode b p)
      ≡ ran (os.clock os.ticks) (on_file (tick os) fd inode b p)
  unfolding gettimeofday on_file tick
  gettimeofday-on_file = refl

pub length-junk : (u : ℕ → ℕ) (i n : ℕ) → length (junk u i n) ≡ n
unfolding junk
length-junk u i zero = refl
length-junk u i (suc n) = ap suc (length-junk u (suc i) n)

pub Holds-tick :
    {os : Os} {fd inode p : ℕ} {b : List ℕ} → Holds os fd inode b p → Holds (tick os) fd inode b p
unfolding tick
Holds-tick h = record { opened = h.opened; content = h.content; quiet = h.quiet }

pub reading-on_file :
    (os : Os) (fd inode : ℕ) (b : List ℕ) (p : ℕ)
    → (on_file os fd inode b p).clock (on_file os fd inode b p).ticks ≡ os.clock os.ticks
unfolding on_file
reading-on_file os fd inode b p = refl

-- The state after `open` gave a new descriptor for a file.
unfoldable pub with_fd : Os → ℕ → Os
with_fd os inode = record os {
  fds = update os.fds os.next_fd (some (record { inode = inode; pos = 0 }));
  next_fd = os.next_fd + 1;
}

pub open_file_lem :
    (os : Os) (path : List ℕ) (creat : Bool) (inode : ℕ)
    → os.faults ≡ []
    → os.names path ≡ some inode
    → open_file path creat os ≡ ran (some os.next_fd) (with_fd os inode)
unfolding open_file with_fd
open_file_lem os path creat inode quiet there = simp (quiet, there)

module _ (os : Os) (inode : ℕ) where
  pub Holds-with_fd : os.faults ≡ [] → Holds (with_fd os inode) os.next_fd inode (os.bytes inode) 0
  unfolding with_fd
  Holds-with_fd quiet = record {
    opened = update_self os.fds os.next_fd _;
    content = refl;
    quiet = quiet;
  }

  pub with_fd-names : (path : List ℕ) → (with_fd os inode).names path ≡ os.names path
  unfolding with_fd
  with_fd-names path = refl

  pub with_fd-bytes : (i : ℕ) → (with_fd os inode).bytes i ≡ os.bytes i
  unfolding with_fd
  with_fd-bytes i = refl

  pub with_fd-faults : (with_fd os inode).faults ≡ os.faults
  unfolding with_fd
  with_fd-faults = refl

  pub with_fd-next : (with_fd os inode).next_fd ≡ os.next_fd + 1
  unfolding with_fd
  with_fd-next = refl

  pub Holds-with_fd_ne :
      {fd i p : ℕ} {b : List ℕ}
      → os.next_fd ≢ fd
      → Holds os fd i b p
      → Holds (with_fd os inode) fd i b p
  unfolding with_fd
  Holds-with_fd_ne {fd} ne h = record {
    opened = update-ne os.fds os.next_fd fd _ ne ∙ h.opened;
    content = h.content;
    quiet = h.quiet;
  }
