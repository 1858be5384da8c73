-- ===== src/Posix/Faulty.antt =====
-- What the calls do on an open file while the environment still holds outcomes for coming calls.
use sea.Prelude.{
  ℕ, ◌+◌, ◌-◌, ◌%◌, ◌^◌, ◌<◌, ◌≡◌, refl, ap, true, none, some, List, [], ◌∷◌, ◌++◌, update, length,
  take, replicate, arith, lt→ltb, update_self, update-update,
}
use sea.Bytes.{write_at}
use sea.Posix.{
  Os, Fault, fine, fail, short, ran, malloc, junk, uninit_bytes, lseek_set, lseek_end, write,
  ftruncate, gettimeofday, get_errno,
}
use sea.Posix.Laws.{on_file, tick}
use native.Mathlib.Nat.{mod-eq_of_lt}

-- The state with these outcomes to come.
pub queue : List Fault → Os → Os
queue fs os = record os { faults = fs }

pub set_error : ℕ → Os → Os
set_error e os = record os { errno = e }

pub queue-nil :
    (os : Os) (fd inode : ℕ) (b : List ℕ) (p : ℕ)
    → queue [] (on_file os fd inode b p) ≡ on_file os fd inode b p
unfolding queue on_file
queue-nil os fd inode b p = refl

module _ (fs : List Fault) (os : Os) (fd inode : ℕ) (b : List ℕ) (p : ℕ) where
  abbrev here : Os
  here = queue fs (on_file os fd inode b p)

  seek_to :
      (p' : ℕ)
      → record here { fds = update here.fds fd (some (record { inode = inode; pos = p' })) }
        ≡ queue fs (on_file os fd inode b p')
  unfolding queue on_file
  seek_to p' i = record os {
    bytes = update os.bytes inode b;
    fds =
        update-update os.fds fd (some (record { inode = inode; pos = p }))
          (some (record { inode = inode; pos = p' })) i;
    faults = fs;
  }

  written_to :
      (b' : List ℕ) (p' : ℕ)
      → record here {
        bytes = update here.bytes inode b';
        fds = update here.fds fd (some (record { inode = inode; pos = p' }));
      }
        ≡ queue fs (on_file os fd inode b' p')
  unfolding queue on_file
  written_to b' p' i = record os {
    bytes = update-update os.bytes inode b b' i;
    fds =
        update-update os.fds fd (some (record { inode = inode; pos = p }))
          (some (record { inode = inode; pos = p' })) i;
    faults = fs;
  }

  opened_here : here.fds fd ≡ some (record { inode = inode; pos = p })
  unfolding queue on_file
  opened_here = update_self os.fds fd _

  content_here : here.bytes inode ≡ b
  unfolding queue on_file
  content_here = update_self os.bytes inode b

  pub lseek_set-queue :
      (off : ℕ)
      → off < 2 ^ 63
      → lseek_set fd off (queue fs (on_file os fd inode b p))
        ≡ ran (some off) (queue fs (on_file os fd inode b off))
  unfolding lseek_set
  lseek_set-queue off lt = rw opened_here (
      rw (mod-eq_of_lt {n = off} {m = 2 ^ 64} (omega arith))
        (rw (lt→ltb off (2 ^ 63) lt) (ap (ran (some off)) (seek_to off))))

  pub lseek_end-queue :
      length b < 2 ^ 63
      → lseek_end fd 0 (queue fs (on_file os fd inode b p))
        ≡ ran (some (length b)) (queue fs (on_file os fd inode b (length b)))
  unfolding lseek_end
  lseek_end-queue lt =
      rw (opened_here, content_here)
        (rw end_mod
          (rw (lt→ltb (length b) (2 ^ 63) lt) (ap (ran (some (length b))) (seek_to (length b)))))
    where
      end_mod : (length b + 0) % 2 ^ 64 ≡ length b
      end_mod = omega arith

  pub gettimeofday-queue :
      gettimeofday (queue fs (on_file os fd inode b p))
      ≡ ran (os.clock os.ticks) (queue fs (on_file (tick os) fd inode b p))
  unfolding gettimeofday queue on_file tick
  gettimeofday-queue = refl

  pub get_errno-queue :
      get_errno (queue fs (on_file os fd inode b p))
      ≡ ran os.errno (queue fs (on_file os fd inode b p))
  unfolding get_errno queue on_file
  get_errno-queue = refl

  pub uninit_bytes-queue :
      (i n : ℕ)
      → uninit_bytes i n (queue fs (on_file os fd inode b p))
        ≡ ran (junk os.uninit i n) (queue fs (on_file os fd inode b p))
  unfolding uninit_bytes queue on_file
  uninit_bytes-queue i n = refl

  pub malloc-queue :
      (n : ℕ)
      → n < 2 ^ 63
      → malloc n (queue (fine ∷ fs) (on_file os fd inode b p))
        ≡ ran true (queue fs (on_file os fd inode b p))
  unfolding malloc queue
  malloc-queue n lt = rw (lt→ltb n (2 ^ 63) lt)

  pub write_fine-queue :
      (w : List ℕ)
      → write fd w (queue (fine ∷ fs) (on_file os fd inode b p))
        ≡ ran (some (length w)) (queue fs (on_file os fd inode (write_at b p w) (p + length w)))
  unfolding write queue on_file
  write_fine-queue w =
      rw
        (
          update_self os.fds fd (some (record { inode = inode; pos = p })),
          update_self os.bytes inode b,
        )
        (ap (ran (some (length w))) (written_to (write_at b p w) (p + length w)))

  pub write_short-queue :
      (n : ℕ) (w : List ℕ)
      → write fd w (queue (short n ∷ fs) (on_file os fd inode b p))
        ≡ ran
            (some (length (take n w)))
            (queue fs (on_file os fd inode (write_at b p (take n w)) (p + length (take n w))))
  unfolding write queue on_file
  write_short-queue n w =
      rw
        (
          update_self os.fds fd (some (record { inode = inode; pos = p })),
          update_self os.bytes inode b,
        )
        (ap (ran (some (length (take n w))))
          (written_to (write_at b p (take n w)) (p + length (take n w))))

  pub write_fail-queue :
      (e : ℕ) (w : List ℕ)
      → write fd w (queue (fail e ∷ fs) (on_file os fd inode b p))
        ≡ ran none (queue fs (on_file (set_error e os) fd inode b p))
  unfolding write queue on_file set_error
  write_fail-queue e w = rw (update_self os.fds fd (some (record { inode = inode; pos = p }))) refl

  pub ftruncate-queue :
      (n : ℕ)
      → ftruncate fd n (queue (fine ∷ fs) (on_file os fd inode b p))
        ≡ ran (some 0) (queue fs (on_file os fd inode (take n b ++ replicate (n - length b) 0) p))
  unfolding ftruncate queue on_file
  ftruncate-queue n =
      rw
        (
          update_self os.fds fd (some (record { inode = inode; pos = p })),
          update_self os.bytes inode b,
        )
        (ap (ran (some 0)) (cut (take n b ++ replicate (n - length b) 0)))
    where
      cut :
          (b' : List ℕ)
          → record here { bytes = update here.bytes inode b' } ≡ queue fs (on_file os fd inode b' p)
      cut b' i = record os {
        bytes = update-update os.bytes inode b b' i;
        fds = update os.fds fd (some (record { inode = inode; pos = p }));
        faults = fs;
      }
