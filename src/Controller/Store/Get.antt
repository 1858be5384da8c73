-- ===== src/Controller/Store/Get.antt =====
-- A read from a node: the record of a number in the block of a number, whichever of the node's blocks
-- it is.
use sea.Prelude.{
  [], ℕ, ◌+◌, ◌-◌, ◌^◌, ◌≤◌, ◌<◌, ◌≡◌, inl, inr, subst, Option, some, none, List, length, arith,
  get_elem?, get_elem?-none-le, Option-cases,
}
use sea.Posix.{Os, ran, einval}
use sea.Posix.Kept.{Kept}
use sea.Time.Block.{Answer}
use sea.Controller.{read}
use sea.Controller.Reads.{read-OnDisk, read_beyond, read_missing}
use sea.Controller.DhtList.{Dht}
use sea.Controller.Data.{Nng}
use sea.Controller.Store.{Held, Shelf}

abbrev pub record_of : Option (List (List ℕ)) → ℕ → Option (List ℕ)
record_of none k = none
record_of (some rs) k = get_elem? rs k

-- The record of that number in the block of that number, where the first block is `own_id`.
unfoldable pub shelf_get : ℕ → List (List (List ℕ)) → ℕ → ℕ → Option (List ℕ)
shelf_get own_id blocks id k = record_of (get_elem? blocks (id - own_id)) k

unfoldable pub answer_for : Option (List ℕ) → Answer
answer_for none = record { ret = einval; copied = none }
answer_for (some r) = record { ret = 0; copied = some r }

module _ {os : Os} {own_id : ℕ} {blocks : List (List (List ℕ))} (s : Shelf os own_id blocks)
    (dht : Dht) (nng : Nng) (buf_len id k : ℕ)
    (calm : (os : Os) → os.faults ≡ [] → dht.search os ≡ ran tt os) where
  Answers : Option (List ℕ) → Type 0
  Answers r = (os' : Os) × (read dht nng id k buf_len os ≡ ran (answer_for r) os') × Kept os os'

  get_there :
      (rs : List (List ℕ))
      → Held os id rs
      → ((r : List ℕ) → get_elem? rs k ≡ some r → length r ≤ buf_len)
      → Answers (get_elem? rs k)
  unfolding Answers answer_for
  get_there rs d fits = elim (Option-cases (get_elem? rs k)) [
    | inl absent ↦
        let (os', answer, kept) =
          read_beyond d.on_disk s.positive dht nng k buf_len calm (get_elem?-none-le rs k absent) in
        (os', rw absent answer, kept)
    | inr (r, there) ↦
        let (os', answer, kept) =
          read-OnDisk d.on_disk s.positive dht nng k buf_len r d.size d.few there (fits r there) in
        (os', rw there answer, kept)
  ]

  -- A read by a number that is the first block's or higher.
  pub get_step :
      own_id ≤ id
      → id < 2 ^ 64
      → ((r : List ℕ) → shelf_get own_id blocks id k ≡ some r → length r ≤ buf_len)
      → (os' : Os) × (read dht nng id k buf_len os
          ≡ ran (answer_for (shelf_get own_id blocks id k)) os')
        × Kept os os'
  unfolding Answers shelf_get answer_for
  get_step from small fits = elim (Option-cases (get_elem? blocks (id - own_id))) [
    | inl none_at ↦
        let le = get_elem?-none-le blocks (id - own_id) none_at in
        let (os', answer, kept) =
          read_missing os dht nng id k buf_len s.quiet calm
            (s.beyond id (omega (arith, le, from)) small).data_name in
        (os', rw none_at answer, kept)
    | inr (rs, at) ↦
        let here : own_id + (id - own_id) ≡ id = omega (arith, from) in
        let (os', answer, kept) =
          get_there rs (subst (λ n. Held os n rs) here (s.held (id - own_id) rs at))
            (λ r e. fits r (rw at e)) in
        (os', rw at answer, kept)
  ]
