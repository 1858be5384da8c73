-- ===== src/Controller/Store/Start.antt =====
-- A node that is started, in a directory with no file or with blocks.
use sea.Prelude.{ℕ, ◌+◌, ◌^◌, ◌<◌, ◌≡◌, refl, sym, subst, ◌∙◌, some, List, [], ◌∷◌, arith}
use sea.Posix.{Os, ran}
use sea.Posix.Kept.{Kept}
use sea.Column.Create.{strlen_lem}
use sea.Time.Data
use sea.Time.Index
use sea.Time.Block.Open.{open_block-eq}
use sea.Time.Block.Paths.{data-data_ne, index-index_ne, data-index_ne}
use sea.Time.Block.Afresh.{fetch_absent}
use sea.Controller.{Controller, data_dir, create}
use sea.Controller.PhoneList.{Khash}
use sea.Controller.SuperBlock.{controller_get_block_id, sync_super_block_from_disk, into_null}
use sea.Controller.SuperBlock.Fresh.{NewBlock, open_created_new}
use sea.Controller.Store.{Held, Absent, Absent-Kept, Shelf}
use sea.Controller.SuperBlock.Restart.{from_disk}
use sea.Controller.Store.Memory.{
  own_name, Ends, name_array, dir_array, name_array-string, dir_array-string, first, ready,
  fresh_controller, create-eq,
}

-- A directory with no block, and such a memory.
pub record Blank (os : Os) : Type 0 where
  pub quiet : os.faults ≡ []
  pub positive : 0 < os.next_fd
  pub absent : (id : ℕ) → id < 2 ^ 64 → Absent os id
  pub ends : Ends os

module _ (os : Os) (blank : Blank os) (md5 : List ℕ → List ℕ)
    (small : controller_get_block_id md5 own_name + 1 < 2 ^ 64) where
  abbrev own_id : ℕ
  own_id = controller_get_block_id md5 own_name

  abbrev ends : Ends os
  ends = blank.ends

  own_made :
      (os' : Os) × (n : NewBlock os os' data_dir own_id) × (os'' : Os) × Kept os' os''
      × (sync_super_block_from_disk md5 (first os ends md5) os ≡ ran (0, (ready os ends md5)) os'')
  unfolding sync_super_block_from_disk into_null
  own_made =
      let (os1, n, made) =
        open_created_new os data_dir own_id (omega arith) blank.quiet
          (blank.absent own_id (omega arith)).data_name
          (blank.absent own_id (omega arith)).index_name (omega arith) in
      let (block, os2, os3, os4, opened, missed, closed_eq, kept) =
        fetch_absent n.on_disk (omega (arith, blank.positive, n.made.next)) 0 8 (omega arith)
          (omega arith) in
      (
        os1,
        n,
        os4,
        kept,
        rw
            (
              strlen_lem (name_array os ends) own_name os (name_array-string os ends),
              strlen_lem (dir_array os ends) data_dir os (dir_array-string os ends),
              made ∙ sym (open_block-eq n.on_disk (omega arith)),
              opened,
              missed,
              closed_eq,
            )
            refl,
      )

  new_Absent :
      {os' : Os} (n : NewBlock os os' data_dir own_id) (id : ℕ)
      → own_id < id
      → id < 2 ^ 64
      → Absent os' id
  new_Absent n id lt li = record {
    data_name =
        n.made.names (Data.filename data_dir id)
          (data-data_ne data_dir (omega arith) li (omega arith) (omega arith))
          (data-index_ne data_dir (omega arith) id own_id)
        ∙ (blank.absent id li).data_name;
    index_name =
        n.made.names (Index.filename data_dir id)
          (λ e. data-index_ne data_dir (omega arith) own_id id (sym e))
          (index-index_ne data_dir (omega arith) li (omega arith) (omega arith))
        ∙ (blank.absent id li).index_name;
  }

  -- The controller is made, and nothing is in the directory but its super block's own block.
  pub start_blank :
      {T : Type 0} (kh : Khash T)
      → (os' : Os) × (create kh md5 data_dir os ≡ ran (some (fresh_controller os ends md5 kh)) os')
        × (os'.faults ≡ [])
        × (0 < os'.next_fd)
        × ((id : ℕ) → own_id < id → id < 2 ^ 64 → Absent os' id)
  start_blank kh =
      let (os1, n, os2, kept, synced) = own_made in
      (
        os2,
        create-eq os ends md5 kh os2 blank.quiet synced,
        kept.quiet,
        omega (arith, blank.positive, n.made.next, kept.next),
        λ id lt li. Absent-Kept kept (new_Absent n id lt li),
      )

-- The same where the super block's own block is there, with no record.
pub start_there :
    {T : Type 0} (kh : Khash T) (md5 : List ℕ → List ℕ) {blocks : List (List (List ℕ))} {os : Os}
    (s : Shelf os (controller_get_block_id md5 own_name) ([] ∷ blocks)) (ends : Ends os)
    → (c : Controller T) × (os' : Os) × (create kh md5 data_dir os ≡ ran (some c) os') × Kept os os'
start_there kh md5 {os = os} s ends =
    let own_id : ℕ = controller_get_block_id md5 own_name in
    let here : own_id + 0 ≡ own_id = omega arith in
    let own : Held os own_id [] = subst (λ n. Held os n []) here (s.held 0 [] refl) in
    let (os', synced, kept) =
      from_disk md5 (first os ends md5) own_name data_dir (name_array-string os ends)
        (dir_array-string os ends) (omega arith) os own.on_disk s.positive in
    (fresh_controller os ends md5 kh, os', create-eq os ends md5 kh os' s.quiet synced, kept)
