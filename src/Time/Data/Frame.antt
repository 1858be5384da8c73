-- ===== src/Time/Data/Frame.antt =====
-- A framed record at an offset of a data file, independently of how the file came about.
use sea.Prelude.{
  ℕ, ◌+◌, ◌^◌, ◌≤◌, ◌<◌, ◌≡◌, ap, subst, ◌∙◌, List, ◌++◌, length, take, arith, length-append,
  take-append_self, drop-append_self, drop-append_add, append_assoc,
}
use sea.Bytes.{le_bytes, read_at}
use sea.Bytes.Laws.{of_le_bytes-le_bytes, read_at-append}
use sea.Posix.{Os, junk}
use sea.Time.Data.{header_bytes, tail_bytes, header_length}
use sea.Time.Data.Append.{framed, length-framed}

pub record RecordAt (b : List ℕ) (offset : ℕ) (payload : List ℕ) : Type 0 where
  pub whole : length (read_at b offset 8) ≡ 8
  pub sized : header_length (read_at b offset 8) ≡ length payload
  pub body : read_at b (offset + 8) (length payload) ≡ payload
  pub fits : offset + 16 + length payload ≤ length b
  pub small : length payload < 2 ^ 32

-- More bytes behind the file leave its records where they are.
pub RecordAt-append :
    (b more : List ℕ) (offset : ℕ) (payload : List ℕ)
    → RecordAt b offset payload
    → RecordAt (b ++ more) offset payload
RecordAt-append b more offset payload r =
    let same : read_at (b ++ more) offset 8 ≡ read_at b offset 8 =
      read_at-append b more offset 8 (omega (arith, r.fits)) in
    record {
      whole = ap length same ∙ r.whole;
      sized = ap header_length same ∙ r.sized;
      body = read_at-append b more (offset + 8) (length payload) (omega (arith, r.fits)) ∙ r.body;
      fits = omega (arith, r.fits, length-append b more);
      small = r.small;
    }

header_of_frame :
    (b : List ℕ) (os : Os) (payload : List ℕ)
    → read_at (b ++ framed os (length payload) payload) (length b) 8
      ≡ header_bytes (junk os.uninit 2 2) (length payload)
unfolding le_bytes junk
header_of_frame b os payload = ap (take 8) (drop-append_self b (framed os (length payload) payload))

-- The frame that is written behind a file holds its payload.
pub RecordAt-framed :
    (b : List ℕ) (os : Os) (payload : List ℕ)
    → length payload < 2 ^ 32
    → RecordAt (b ++ framed os (length payload) payload) (length b) payload
unfolding le_bytes junk
RecordAt-framed b os payload lt = record {
  whole = ap length (header_of_frame b os payload);
  sized =
      ap header_length (header_of_frame b os payload)
      ∙ of_le_bytes-le_bytes 4 (length payload) (omega arith);
  body =
      ap (take (length payload)) (drop-append_add 8 b (framed os (length payload) payload))
      ∙ take-append_self payload (tail_bytes (junk os.uninit 12 3) (length payload));
  fits =
      omega (arith, length-append b (framed os (length payload) payload), length-framed os payload);
  small = lt;
}

-- So does the frame that stands between two other parts.
pub RecordAt-inside :
    (a z : List ℕ) (os : Os) (payload : List ℕ)
    → length payload < 2 ^ 32
    → RecordAt (a ++ (framed os (length payload) payload ++ z)) (length a) payload
RecordAt-inside a z os payload lt =
    subst (λ b. RecordAt b (length a) payload)
      (append_assoc a (framed os (length payload) payload) z)
      (RecordAt-append (a ++ framed os (length payload) payload) z (length a) payload
        (RecordAt-framed a os payload lt))
