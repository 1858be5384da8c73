-- ===== src/Posix.antt =====
-- The part of the C library and of POSIX that the program calls: files, descriptors, memory and
-- the clock. The environment chooses how each fallible call ends: `faults` lists its choices for
-- the coming calls, and a call beyond the list succeeds. A step that C leaves undefined, such as
-- an access outside an object or through a null pointer, ends the run in `undefined`.
pub mod Laws
pub mod Faulty
pub mod Names
pub mod Kept
pub mod Decimal
pub mod Returns
use sea.Prelude.{
  ℕ, zero, suc, ◌+◌, ◌-◌, ◌/◌, ◌%◌, ◌^◌, Bool, true, false, Option, none, some, List, [], ◌∷◌, ◌++◌,
  ltb, leb, ◌==◌, if◌then◌else◌, update, length, take, drop, replicate, min, ◌&&◌,
}
use sea.Bytes.{write_at}

-- How one call ends: as asked, with an error number, or after `n` bytes at most.
pub data Fault : Type 0 where
  fine : Fault
  fail : ℕ → Fault
  short : ℕ → Fault

-- An open file description: its file (an inode number) and its position.
pub record OpenFile : Type 0 where
  pub inode : ℕ
  pub pos : ℕ

pub record Os : Type 0 where
  pub names : List ℕ → Option ℕ
  pub dirs : List ℕ → Bool
  pub bytes : ℕ → List ℕ
  pub fds : ℕ → Option OpenFile
  pub next_inode : ℕ
  pub next_fd : ℕ
  pub errno : ℕ
  pub faults : List Fault
  -- The n-th reading of the clock, in microseconds, and the number of readings so far.
  pub clock : ℕ → ℕ
  pub ticks : ℕ
  -- The byte at each position of an object that nothing has initialised.
  pub uninit : ℕ → ℕ

pub data Run {ℓ} (A : Type ℓ) : Type ℓ where
  ran : A → Os → Run A
  undefined : Run A

abbrev pub M {ℓ} : Type ℓ → Type ℓ
M A = Os → Run A

abbrev pub pure {ℓ} : {A : Type ℓ} → A → M A
pure a os = ran a os

abbrev pub undef {ℓ} : {A : Type ℓ} → M A
undef os = undefined

abbrev pub then_run {ℓ κ} : {A : Type ℓ} {B : Type κ} → Run A → (A → M B) → Run B
then_run (ran a os) f = f a os
then_run undefined f = undefined

infixl 5 ◌>>=◌ ◌>>◌
abbrev pub ◌>>=◌ {ℓ κ} : {A : Type ℓ} {B : Type κ} → M A → (A → M B) → M B
◌>>=◌ m f os = then_run (m os) f

abbrev pub ◌>>◌ {ℓ κ} : {A : Type ℓ} {B : Type κ} → M A → M B → M B
◌>>◌ m k os = then_run (m os) (λ _. k)

abbrev pub einval : ℕ
einval = 22

abbrev pub enoent : ℕ
enoent = 2

abbrev pub enomem : ℕ
enomem = 12

abbrev pub ebadf : ℕ
ebadf = 9

abbrev pub eexist : ℕ
eexist = 17

pop_fault : List Fault → M Fault
pop_fault [] os = ran fine os
pop_fault (f ∷ fs) os = ran f (record os { faults = fs })

-- The environment's choice for the call that is made now.
unfoldable pub take_fault : M Fault
unfolding pop_fault
take_fault os = pop_fault os.faults os

-- `none` stands for a return of -1 with `errno` set.
pub fail_with {ℓ} : {A : Type ℓ} → ℕ → M (Option A)
fail_with e os = ran none (record os { errno = e })

malloc_outcome : ℕ → Fault → M Bool
malloc_outcome n (fail e) os = ran false (record os { errno = enomem })
malloc_outcome n _ os =
    if ltb n (2 ^ 63) then ran true os else ran false (record os { errno = enomem })

-- Whether a block of `n` bytes was had: a null pointer is `false`. No block has 2 ^ 63 bytes.
unfoldable pub malloc : ℕ → M Bool
unfolding malloc_outcome take_fault
malloc n = do f ← take_fault; malloc_outcome n f

-- The bytes that `memcpy` reads: reading past the object is undefined.
unfoldable pub memcpy : List ℕ → ℕ → M (List ℕ)
memcpy buf n os = if leb n (length buf) then ran (take n buf) os else undefined

-- `n` bytes of an object that nothing has initialised, from position `i` of it.
unfoldable pub junk : (ℕ → ℕ) → ℕ → ℕ → List ℕ
junk u i zero = []
junk u i (suc n) = u i ∷ junk u (suc i) n

unfoldable pub uninit_bytes : ℕ → ℕ → M (List ℕ)
unfolding junk
uninit_bytes i n os = ran (junk os.uninit i n) os

unfoldable pub get_errno : M ℕ
get_errno os = ran os.errno os

unfoldable pub set_errno : ℕ → M (Unit {0})
set_errno e os = ran tt (record os { errno = e })

on_fd {ℓ} : {A : Type ℓ} → Option OpenFile → (OpenFile → M (Option A)) → M (Option A)
on_fd none k = fail_with ebadf
on_fd (some f) k = k f

move : ℕ → ℕ → ℕ → M (Option ℕ)
move fd inode target os =
    if ltb (target % 2 ^ 64) (2 ^ 63)
    then ran (some (target % 2 ^ 64)) (record os {
      fds = update os.fds fd (some (record { inode = inode; pos = target % 2 ^ 64 }));
    })
    else ran none (record os { errno = einval })

-- `lseek`. An offset is the bit pattern of a signed 64-bit number, and so is the new position,
-- which may not be negative.
unfoldable pub lseek_set : ℕ → ℕ → M (Option ℕ)
unfolding on_fd move fail_with
lseek_set fd off os = on_fd (os.fds fd) (λ f. move fd f.inode off) os

unfoldable pub lseek_cur : ℕ → ℕ → M (Option ℕ)
unfolding on_fd move fail_with
lseek_cur fd off os = on_fd (os.fds fd) (λ f. move fd f.inode (f.pos + off)) os

unfoldable pub lseek_end : ℕ → ℕ → M (Option ℕ)
unfolding on_fd move fail_with
lseek_end fd off os = on_fd (os.fds fd) (λ f. move fd f.inode (length (os.bytes f.inode) + off)) os

put_bytes : ℕ → OpenFile → List ℕ → M (Option ℕ)
put_bytes fd f w os = ran (some (length w)) (record os {
  bytes = update os.bytes f.inode (write_at (os.bytes f.inode) f.pos w);
  fds = update os.fds fd (some (record { inode = f.inode; pos = f.pos + length w }));
})

write_outcome : ℕ → List ℕ → OpenFile → Fault → M (Option ℕ)
write_outcome fd w f fine = put_bytes fd f w
write_outcome fd w f (fail e) = fail_with e
write_outcome fd w f (short n) = put_bytes fd f (take n w)

unfoldable pub write : ℕ → List ℕ → M (Option ℕ)
unfolding on_fd put_bytes write_outcome fail_with take_fault
write fd w os = on_fd (os.fds fd) (λ f. ◌>>=◌ take_fault (λ o. write_outcome fd w f o)) os

get_bytes : ℕ → OpenFile → ℕ → M (Option (List ℕ))
get_bytes fd f n os =
    let r = take n (drop f.pos (os.bytes f.inode)) in
    ran (some r) (record os {
      fds = update os.fds fd (some (record { inode = f.inode; pos = f.pos + length r }));
    })

read_outcome : ℕ → ℕ → OpenFile → Fault → M (Option (List ℕ))
read_outcome fd n f fine = get_bytes fd f n
read_outcome fd n f (fail e) = fail_with e
read_outcome fd n f (short k) = get_bytes fd f (min k n)

-- The bytes that were read: their number is what the C call returns.
unfoldable pub read : ℕ → ℕ → M (Option (List ℕ))
unfolding on_fd get_bytes read_outcome fail_with take_fault
read fd n os = on_fd (os.fds fd) (λ f. ◌>>=◌ take_fault (λ o. read_outcome fd n f o)) os

set_length : OpenFile → ℕ → Fault → M (Option ℕ)
set_length f n (fail e) os = ran none (record os { errno = e })
set_length f n _ os =
    let b = os.bytes f.inode in
    ran (some 0)
      (record os { bytes = update os.bytes f.inode (take n b ++ replicate (n - length b) 0) })

unfoldable pub ftruncate : ℕ → ℕ → M (Option ℕ)
unfolding on_fd set_length fail_with take_fault
ftruncate fd n os = on_fd (os.fds fd) (λ f. ◌>>=◌ take_fault (λ o. set_length f n o)) os

unfoldable pub close : ℕ → M (Unit {0})
close fd os = ran tt (record os { fds = update os.fds fd none })

unfoldable pub path_eq : List ℕ → List ℕ → Bool
path_eq [] [] = true
path_eq (x ∷ xs) (y ∷ ys) = x == y && path_eq xs ys
path_eq _ _ = false

abbrev pub at_path {ℓ} : {A : Type ℓ} → (List ℕ → A) → List ℕ → A → List ℕ → A
at_path f p v q = if path_eq p q then v else f q

new_fd : ℕ → M (Option ℕ)
new_fd inode os = ran (some os.next_fd) (record os {
  fds = update os.fds os.next_fd (some (record { inode = inode; pos = 0 }));
  next_fd = os.next_fd + 1;
})

new_file : List ℕ → M (Option ℕ)
unfolding new_fd
new_file path os = new_fd os.next_inode (record os {
  names = at_path os.names path (some os.next_inode);
  bytes = update os.bytes os.next_inode [];
  next_inode = os.next_inode + 1;
})

open_found : List ℕ → Bool → Option ℕ → M (Option ℕ)
open_found path creat (some inode) = new_fd inode
open_found path true none = new_file path
open_found path false none = fail_with enoent

open_outcome : List ℕ → Bool → Fault → M (Option ℕ)
open_outcome path creat (fail e) os = ran none (record os { errno = e })
open_outcome path creat _ os = open_found path creat (os.names path) os

-- `open` for reading and writing, at position 0; with O_CREAT an absent file is made, empty. A
-- directory that is not there is one of the environment's failures.
unfoldable pub open_file : List ℕ → Bool → M (Option ℕ)
unfolding new_fd new_file open_found open_outcome fail_with take_fault path_eq
open_file path creat = do o ← take_fault; open_outcome path creat o

-- `access(path, F_OK)`.
unfoldable pub file_exists : List ℕ → M Bool
file_exists path os = elim (os.names path) [ none ↦ ran false os | some i ↦ ran true os ]

unlink_outcome : List ℕ → Fault → Option ℕ → M (Option ℕ)
unlink_outcome path (fail e) _ = fail_with e
unlink_outcome path _ none = fail_with enoent
unlink_outcome path _ (some i) =
    λ os. ran (some 0) (record os { names = at_path os.names path none })

unfoldable pub unlink : List ℕ → M (Option ℕ)
unfolding unlink_outcome fail_with take_fault path_eq
unlink path os = then_run (take_fault os) (λ o os'. unlink_outcome path o (os'.names path) os')

mkdir_outcome : List ℕ → Fault → M (Option ℕ)
mkdir_outcome path (fail e) os = ran none (record os { errno = e })
mkdir_outcome path _ os =
    if os.dirs path
    then ran none (record os { errno = eexist })
    else ran (some 0) (record os { dirs = at_path os.dirs path true })

unfoldable pub mkdir : List ℕ → M (Option ℕ)
unfolding mkdir_outcome take_fault path_eq
mkdir path = do o ← take_fault; mkdir_outcome path o

-- `gettimeofday`, in microseconds.
unfoldable pub gettimeofday : M ℕ
gettimeofday os = ran (os.clock os.ticks) (record os { ticks = os.ticks + 1 })

-- The digits of a number below 10 ^ fuel, as "%llu" prints them.
unfoldable pub digits_of : ℕ → ℕ → List ℕ → List ℕ
digits_of zero v acc = acc
digits_of (suc fuel) v acc =
    let more = digits_of fuel (v / 10) ((48 + v % 10) ∷ acc) in
    if ltb v 10 then (48 + v) ∷ acc else more

unfoldable pub decimal : ℕ → List ℕ
unfolding digits_of
decimal v = digits_of 20 v []
