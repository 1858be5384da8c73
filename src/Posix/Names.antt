-- ===== src/Posix/Names.antt =====
-- What `open` with O_CREAT and `close` do when the environment lets every call succeed.
use sea.Prelude.{ℕ, ◌+◌, ◌≡◌, refl, true, none, some, List, [], ◌∷◌, update, ==_refl, update_self}
use sea.Posix.{Os, ran, path_eq, at_path, open_file, close, uninit_bytes, junk}
use sea.Posix.Laws.{Holds, on_file, with_fd}

pub path_eq_refl : (p : List ℕ) → path_eq p p ≡ true
unfolding path_eq
path_eq_refl [] = refl
path_eq_refl (x ∷ p) = rw (==_refl x, path_eq_refl p) refl

-- The state with a new, empty file.
unfoldable pub with_file : Os → List ℕ → Os
with_file os path = record os {
  names = at_path os.names path (some os.next_inode);
  bytes = update os.bytes os.next_inode [];
  next_inode = os.next_inode + 1;
}

unfoldable pub closed : Os → ℕ → Os
closed os fd = record os { fds = update os.fds fd none }

pub open_new_lem :
    (os : Os) (path : List ℕ)
    → os.faults ≡ []
    → os.names path ≡ none
    → open_file path true os ≡ ran (some os.next_fd) (with_fd (with_file os path) os.next_inode)
unfolding open_file with_fd with_file
open_new_lem os path quiet absent = simp (quiet, absent)

pub Holds-with_file :
    (os : Os) (path : List ℕ)
    → os.faults ≡ []
    → Holds (with_fd (with_file os path) os.next_inode) os.next_fd os.next_inode [] 0
unfolding with_fd with_file
Holds-with_file os path quiet = record {
  opened = update_self os.fds os.next_fd _;
  content = update_self os.bytes os.next_inode [];
  quiet = quiet;
}

pub close_lem : (os : Os) (fd : ℕ) → close fd os ≡ ran tt (closed os fd)
unfolding close closed
close_lem os fd = refl

pub uninit_bytes_lem : (i n : ℕ) (os : Os) → uninit_bytes i n os ≡ ran (junk os.uninit i n) os
unfolding uninit_bytes
uninit_bytes_lem i n os = refl

-- The file under its name, after it was written through the descriptor and that was closed.
module _ (os : Os) (path b : List ℕ) (p : ℕ) where
  abbrev pub left : Os
  left =
      closed (on_file (with_fd (with_file os path) os.next_inode) os.next_fd os.next_inode b p)
        os.next_fd

  pub left-names : left.names path ≡ some os.next_inode
  unfolding with_fd with_file closed on_file
  left-names = rw (path_eq_refl path) refl

  pub left-bytes : left.bytes os.next_inode ≡ b
  unfolding with_fd with_file closed on_file
  left-bytes = update_self (with_file os path).bytes os.next_inode b

  pub left-faults : left.faults ≡ []
  unfolding with_fd with_file closed on_file
  left-faults = refl
