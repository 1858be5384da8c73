-- ===== src/Time/Utils.antt =====
-- src/block/time/utils.c, and conversions that C makes between the integer types.
use sea.Prelude.{
  ℕ, ◌+◌, ◌-◌, ◌%◌, ◌^◌, Option, none, some, List, ◌∷◌, ◌++◌, ltb, if◌then◌else◌, length, take,
}
use sea.Posix.{M, mkdir, gettimeofday, decimal, ◌>>=◌, pure}

-- PATH_MAX of the platform.
abbrev pub path_max : ℕ
path_max = 4096

-- What `snprintf` leaves in a buffer of `n` bytes: the text, cut to leave room for its end.
abbrev pub snprintf : ℕ → List ℕ → List ℕ
snprintf n text = take (n - 1) text

-- "%s/%llu"
abbrev pub sub_dir : List ℕ → ℕ → List ℕ
sub_dir dir block_id = dir ++ (b'/' ∷ decimal block_id)

unfoldable pub make_sub_dir : List ℕ → ℕ → M (Option ℕ)
make_sub_dir dir block_id = mkdir (snprintf path_max (sub_dir dir block_id))

-- Microseconds since the epoch, in 64 bits.
unfoldable pub get_current_mills : M ℕ
get_current_mills = do t ← gettimeofday; pure (t % 2 ^ 64)

-- The 32-bit pattern of what `read` and `write` return: -1 is all ones.
abbrev pub size_of_write : Option ℕ → ℕ
size_of_write none = 2 ^ 32 - 1
size_of_write (some n) = n % 2 ^ 32

abbrev pub size_of_read : Option (List ℕ) → ℕ
size_of_read none = 2 ^ 32 - 1
size_of_read (some bs) = length bs % 2 ^ 32

-- The 64-bit pattern of what `lseek` returns.
abbrev pub offset_of : Option ℕ → ℕ
offset_of none = 2 ^ 64 - 1
offset_of (some n) = n

-- An `int`, given by its 32-bit pattern, where a `size_t` is wanted.
abbrev pub sign_extend : ℕ → ℕ
sign_extend v = if ltb v (2 ^ 31) then v else v + (2 ^ 64 - 2 ^ 32)
