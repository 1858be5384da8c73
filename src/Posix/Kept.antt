-- ===== src/Posix/Kept.antt =====
-- What the files and the descriptors that are open at one time keep, while others are opened, read
-- and closed.
use sea.Prelude.{ℕ, ◌≤◌, ◌<◌, ◌≡◌, refl, ◌∙◌, List, [], arith, update, update-ne}
use sea.Posix.{Os}
use sea.Posix.Laws.{Holds, on_file, with_fd}
use sea.Posix.Names.{closed}

pub record Kept (os os' : Os) : Type 0 where
  pub bytes : (i : ℕ) → os'.bytes i ≡ os.bytes i
  pub names : (p : List ℕ) → os'.names p ≡ os.names p
  pub fds : (fd : ℕ) → fd < os.next_fd → os'.fds fd ≡ os.fds fd
  pub next : os.next_fd ≤ os'.next_fd
  pub inodes : os.next_inode ≤ os'.next_inode
  pub quiet : os'.faults ≡ []

pub Kept-refl : (os : Os) → os.faults ≡ [] → Kept os os
Kept-refl os quiet = record {
  bytes = λ i. refl;
  names = λ p. refl;
  fds = λ fd lt. refl;
  next = omega arith;
  inodes = omega arith;
  quiet = quiet;
}

pub Kept-trans : {a b c : Os} → Kept a b → Kept b c → Kept a c
Kept-trans h k = record {
  bytes = λ i. k.bytes i ∙ h.bytes i;
  names = λ p. k.names p ∙ h.names p;
  fds = λ fd lt. k.fds fd (omega (arith, h.next)) ∙ h.fds fd lt;
  next = omega (arith, h.next, k.next);
  inodes = omega (arith, h.inodes, k.inodes);
  quiet = k.quiet;
}

pub Holds-Kept :
    {os os' : Os} {fd inode p : ℕ} {b : List ℕ}
    → Kept os os'
    → fd < os.next_fd
    → Holds os fd inode b p
    → Holds os' fd inode b p
Holds-Kept {fd = fd} {inode = inode} k lt h = record {
  opened = k.fds fd lt ∙ h.opened;
  content = k.bytes inode ∙ h.content;
  quiet = k.quiet;
}

module _ {base os : Os} (k : Kept base os) where
  pub Kept-with_fd : (inode : ℕ) → Kept base (with_fd os inode)
  unfolding with_fd
  Kept-with_fd inode = record {
    bytes = k.bytes;
    names = k.names;
    fds = λ fd lt. update-ne os.fds os.next_fd fd _ (omega (arith, k.next)) ∙ k.fds fd lt;
    next = omega (arith, k.next);
    inodes = k.inodes;
    quiet = k.quiet;
  }

  -- A file that was not changed, read through a newer descriptor.
  pub Kept-on_file :
      (fd inode p p' : ℕ) (b : List ℕ)
      → base.next_fd ≤ fd
      → Holds os fd inode b p
      → Kept base (on_file os fd inode b p')
  unfolding on_file
  Kept-on_file fd inode p p' b le h = record {
    bytes = λ i. same i ∙ k.bytes i;
    names = k.names;
    fds = λ j lt. update-ne os.fds fd j _ (omega arith) ∙ k.fds j lt;
    next = k.next;
    inodes = k.inodes;
    quiet = refl;
  }
    where
      same : (i : ℕ) → update os.bytes inode b i ≡ os.bytes i
      same i = ground (arith, h.content)

  pub Kept-closed : (fd : ℕ) → base.next_fd ≤ fd → Kept base (closed os fd)
  unfolding closed
  Kept-closed fd le = record {
    bytes = k.bytes;
    names = k.names;
    fds = λ j lt. update-ne os.fds fd j _ (omega arith) ∙ k.fds j lt;
    next = k.next;
    inodes = k.inodes;
    quiet = k.quiet;
  }

  pub Kept-errno : (e : ℕ) → Kept base (record os { errno = e })
  Kept-errno e = record {
    bytes = k.bytes;
    names = k.names;
    fds = k.fds;
    next = k.next;
    inodes = k.inodes;
    quiet = k.quiet;
  }
