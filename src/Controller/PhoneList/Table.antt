-- ===== src/Controller/PhoneList/Table.antt =====
-- What becomes of a block's nodes: laws of the table, and the list above it.
use sea.Prelude.{
  ℕ, ◌+◌, ◌*◌, ◌^◌, ◌≤◌, ◌<◌, ◌≡◌, refl, List, [], ◌∷◌, length, arith, lt→ltb, lt→leb,
  length-append, take_all, ◌==◌, if◌then◌else◌,
}
use sea.Bytes.{le_bytes}
use sea.Bytes.Laws.{length-le_bytes}
use sea.Posix.{Os, ran, undefined, memcpy}
use sea.Posix.Laws.{malloc_lem, memcpy_lem}
use sea.Controller.PhoneList
use sea.Controller.PhoneList.{PhoneEntry, Slot, holds, Khash, words, min_of_source, node_count}

-- The documented results of kh_put: 1 for a key that was absent, 0 for one that is there; and what a
-- place holds after its value was set. The place of a new key is one that nothing has filled.
pub record KhashLaws {T : Type 0} (kh : Khash T) : Type 0 where
  pub put_absent : (t : T) (k : ℕ) → kh.value t (kh.get t k) ≡ Slot.outside → (kh.put t k).1 ≡ 1
  pub put_unset :
      (t : T) (k : ℕ)
      → kh.value t (kh.get t k) ≡ Slot.outside
      → kh.value (kh.put t k).2 (kh.put t k).0 ≡ Slot.unset
  pub put_present : (t : T) (k : ℕ) → (kh.put (kh.put t k).2 k).1 ≡ 0
  pub put_place : (t : T) (k : ℕ) → kh.get (kh.put t k).2 k ≡ (kh.put t k).0
  pub get-set : (t : T) (k i : ℕ) (e : PhoneEntry) → kh.get (kh.set_value t i e) k ≡ kh.get t k
  pub value-set : (t : T) (i : ℕ) (e : PhoneEntry) → kh.value (kh.set_value t i e) i ≡ holds e

pub length-words : (ns : List ℕ) → length (words ns) ≡ 4 * length ns
unfolding words
length-words [] = refl
length-words (n ∷ ns) =
    omega (arith, length-append (le_bytes 4 n) (words ns), length-le_bytes 4 n, length-words ns)

-- The source's minimum is the larger number.
min_left : (a b : ℕ) → b < a → min_of_source a b ≡ a
unfolding min_of_source
min_left a b lt = ground arith

min_right : (a b : ℕ) → a ≤ b → min_of_source a b ≡ b
unfolding min_of_source
min_right a b le = ground arith

pub memcpy_over : (w : List ℕ) (n : ℕ) (os : Os) → length w < n → memcpy w n os ≡ undefined
unfolding memcpy
memcpy_over w n os lt = rw (lt→leb n (length w) lt)

module _ {T : Type 0} (kh : Khash T) where
  -- A list of nodes that is shorter than the list's capacity is read past its end: what is meant to
  -- be the smaller of the two numbers is the larger.
  pub put_overread :
      (list : PhoneList.PhoneList T) (block_id : ℕ) (node : List ℕ) (os : Os)
      → os.faults ≡ []
      → 0 < length node
      → length node < list.node_cap
      → 16 + 4 * list.node_cap < 2 ^ 63
      → PhoneList.put kh list block_id node (length node) os ≡ undefined
  unfolding PhoneList.put
  put_overread list block_id node os quiet some_nodes lt small =
      rw
        (
          lt→ltb 0 (length node) some_nodes,
          min_left list.node_cap (length node) lt,
          malloc_lem (16 + 4 * list.node_cap) os quiet small,
          memcpy_over (words node) (4 * list.node_cap) os (omega (arith, length-words node)),
        )
        refl

  abbrev pub stored_entry : PhoneList.PhoneList T → ℕ → List ℕ → PhoneEntry
  stored_entry list block_id node = record {
    block_id = block_id;
    node_len = length node;
    entry = (kh.put list.header block_id).0;
    node = words node;
  }

  pub put-eq :
      (list : PhoneList.PhoneList T) (block_id : ℕ) (node : List ℕ) (os : Os)
      → os.faults ≡ []
      → 0 < length node
      → list.node_cap ≤ length node
      → 16 + 4 * length node < 2 ^ 63
      → PhoneList.put kh list block_id node (length node) os
        ≡ ran
            (if (kh.put list.header block_id).1 == 0
              then (
                0,
                record list {
                  header =
                      kh.set_value
                        (kh.put list.header block_id).2
                        (kh.put list.header block_id).0
                        (stored_entry list block_id node);
                },
              )
              else (
                (kh.put list.header block_id).1,
                record list { header = (kh.put list.header block_id).2 },
              ))
            os
  unfolding PhoneList.put
  put-eq list block_id node os quiet some_nodes le small =
      rw
        (
          lt→ltb 0 (length node) some_nodes,
          min_right list.node_cap (length node) le,
          malloc_lem (16 + 4 * length node) os quiet small,
          memcpy_lem (words node) (4 * length node) os (omega (arith, length-words node)),
          take_all (4 * length node) (words node) (omega (arith, length-words node)),
        )
        refl
