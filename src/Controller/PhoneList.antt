-- ===== src/Controller/PhoneList.antt =====
-- src/controller/phone_list.c: which nodes hold a block. The hash table of khash.h is a parameter,
-- with its macros as operations.
pub mod Table
use sea.Prelude.{
  ℕ, ◌+◌, ◌*◌, ◌%◌, ◌^◌, Option, none, some, List, [], ◌∷◌, ◌++◌, ltb, ◌==◌, if◌then◌else◌, length,
  take, map,
}
use sea.Bytes.{le_bytes}
use sea.Posix
use sea.Posix.{M, pure, undef, einval, enoent, memcpy, ◌>>=◌, ◌>>◌}

-- struct phone_entry, with the bytes of its array.
pub record PhoneEntry : Type 0 where
  pub block_id : ℕ
  pub node_len : ℕ
  pub entry : ℕ
  pub node : List ℕ

-- What a place of the table holds: no place of the table, one that nothing has filled, a pointer.
pub data Slot : Type 0 where
  outside unset : Slot
  holds : PhoneEntry → Slot

-- `put` gives the place, the value of its last argument and the table.
pub record Khash (T : Type 0) : Type 0 where
  pub init : T
  pub put : T → ℕ → ℕ × ℕ × T
  pub get : T → ℕ → ℕ
  pub value : T → ℕ → Slot
  pub set_value : T → ℕ → PhoneEntry → T

-- The function `min` of the source.
unfoldable pub min_of_source : ℕ → ℕ → ℕ
min_of_source a b = if ltb b a then a else b

-- The bytes of an array of numbers of 32 bits.
unfoldable pub words : List ℕ → List ℕ
words [] = []
words (n ∷ ns) = le_bytes 4 n ++ words ns

pub record PhoneList (T : Type 0) : Type 0 where
  pub node_cap : ℕ
  pub header : T

module _ {T : Type 0} (kh : Khash T) where
  -- `none` is a null pointer.
  unfoldable pub create : ℕ → M (Option (PhoneList T))
  create node_cap = do
    got ← Posix.malloc 16
    pure (if got then some (record { node_cap = node_cap; header = kh.init }) else none)

  put_entry : PhoneList T → ℕ → ℕ → List ℕ → M (ℕ × PhoneList T)
  put_entry list block_id node_count node = do
    let r : ℕ × ℕ × T = kh.put list.header block_id
    let entry : PhoneEntry = record {
      block_id = block_id;
      node_len = node_count;
      entry = r.0;
      node = node;
    }
    pure (
        if r.1 == 0
        then (0, record list { header = kh.set_value r.2 r.0 entry })
        else (r.1, record list { header = r.2 }))

  abbrev pub node_count : ℕ → ℕ → ℕ
  node_count cap node_len = if ltb 0 node_len then min_of_source cap node_len else cap

  unfoldable pub put : PhoneList T → ℕ → List ℕ → ℕ → M (ℕ × PhoneList T)
  unfolding put_entry
  put list block_id node node_len = do
    got ← Posix.malloc (16 + 4 * node_count list.node_cap node_len)
    if got
        then (do
          bytes ← memcpy (words node) (4 * node_count list.node_cap node_len)
          put_entry list block_id (node_count list.node_cap node_len) bytes)
        else pure (einval, list)

  -- The bytes copied to the caller's array, and the number returned with them.
  copy_nodes : ℕ → ℕ → Slot → M (ℕ × Option (List ℕ × ℕ))
  copy_nodes count node_len outside = undef
  copy_nodes count node_len unset = undef
  copy_nodes count node_len (holds e) = do
    bytes ← memcpy e.node count
    if ltb (4 * node_len) count then undef else pure (0, some (bytes, count))

  unfoldable pub get : PhoneList T → ℕ → ℕ → M (ℕ × Option (List ℕ × ℕ))
  unfolding copy_nodes
  get list block_id node_len =
      if node_len == 0
      then pure (enoent, none)
      else copy_nodes (min_of_source list.node_cap node_len) node_len
          (kh.value list.header (kh.get list.header block_id))
