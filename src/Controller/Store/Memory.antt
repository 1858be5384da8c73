-- ===== src/Controller/Store/Memory.antt =====
-- The super block that `create` makes, from what memory holds.
use sea.Prelude.{
  ℕ, suc, ◌+◌, ◌-◌, ◌%◌, ◌^◌, ◌≡◌, refl, some, none, List, [], ◌∷◌, ◌++◌, length, arith, ne→==,
}
use sea.Posix.{Os, ran, uninit_bytes, junk}
use sea.Posix.Laws.{malloc_lem}
use sea.Bytes.{of_le_bytes}
use sea.Column.{string_of}
use sea.Word.Names.{NoZero}
use sea.Controller.{Controller, codes, data_dir, create}
use sea.Controller.PhoneList
use sea.Controller.PhoneList.{Khash}
use sea.Controller.SuperBlock.{
  SuperBlock, controller_get_block_id, open_or_create, sync_super_block_from_disk,
}

-- The name that `create` gives its super block.
abbrev pub own_name : List ℕ
own_name = codes "controller"

-- Memory with a zero behind what is copied to it.
pub record Ends (os : Os) : Type 0 where
  pub name_end : os.uninit (length own_name) ≡ 0
  pub dir_end : os.uninit (32 + length data_dir) ≡ 0

string_of-zero : (c : ℕ) (cs : List ℕ) → c ≡ 0 → string_of (c ∷ cs) ≡ some []
unfolding string_of
string_of-zero c cs e = rw e refl

string_of-append :
    (cs rest : List ℕ) → NoZero cs → string_of rest ≡ some [] → string_of (cs ++ rest) ≡ some cs
unfolding string_of
string_of-append [] rest t e = e
string_of-append (c ∷ cs) rest (ne, t) e = rw (ne→== c 0 ne, string_of-append cs rest t e) refl

string_of-junk :
    (cs : List ℕ) (u : ℕ → ℕ) (i n : ℕ)
    → NoZero cs
    → u i ≡ 0
    → string_of (cs ++ junk u i (suc n)) ≡ some cs
unfolding junk
string_of-junk cs u i n t e =
    string_of-append cs (junk u i (suc n)) t (string_of-zero (u i) (junk u (suc i) n) e)

own_name-NoZero : NoZero own_name
own_name-NoZero = omega arith

data_dir-NoZero : NoZero data_dir
data_dir-NoZero = omega arith

module _ (os : Os) (ends : Ends os) where
  abbrev pub name_array : List ℕ
  name_array = own_name ++ junk os.uninit (length own_name) (32 - length own_name)

  abbrev pub dir_array : List ℕ
  dir_array = data_dir ++ junk os.uninit (32 + length data_dir) (4096 - length data_dir)

  pub name_array-string : string_of name_array ≡ some own_name
  name_array-string =
      string_of-junk own_name os.uninit (length own_name) 21 own_name-NoZero ends.name_end

  pub dir_array-string : string_of dir_array ≡ some data_dir
  dir_array-string =
      string_of-junk data_dir os.uninit (32 + length data_dir) (4095 - length data_dir)
        data_dir-NoZero ends.dir_end

  module _ (md5 : List ℕ → List ℕ) where
    abbrev own_id : ℕ
    own_id = controller_get_block_id md5 own_name

    -- The super block before its own block is looked at.
    abbrev pub first : SuperBlock
    first = record {
      controller_name = name_array;
      dir = dir_array;
      block_id = of_le_bytes (junk os.uninit 4128 8);
    }

    abbrev pub ready : SuperBlock
    ready = record first { block_id = (own_id + 1) % 2 ^ 64 }

    open_or_create-eq :
        (os' : Os)
        → os.faults ≡ []
        → sync_super_block_from_disk md5 first os ≡ ran (0, ready) os'
        → open_or_create md5 data_dir own_name os ≡ ran (some ready) os'
    unfolding open_or_create uninit_bytes
    open_or_create-eq os' quiet synced = rw (malloc_lem 4136 os quiet (omega arith), synced) refl

    -- The controller with that super block.
    abbrev pub fresh_controller : {T : Type 0} → Khash T → Controller T
    fresh_controller kh = record {
      super_block = ready;
      block = none;
      phone_list = some (record { node_cap = 3; header = kh.init });
    }

    pub create-eq :
        {T : Type 0} (kh : Khash T) (os' : Os)
        → os.faults ≡ []
        → sync_super_block_from_disk md5 first os ≡ ran (0, ready) os'
        → create kh md5 data_dir os ≡ ran (some (fresh_controller kh)) os'
    unfolding create PhoneList.create
    create-eq kh os' quiet synced =
        rw
          (
            malloc_lem 24 os quiet (omega arith),
            malloc_lem 16 os quiet (omega arith),
            open_or_create-eq os' quiet synced,
          )
          refl
