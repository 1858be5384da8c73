-- ===== src/Controller/Sample.antt =====
-- A node with a block of two records, a table and the libraries of a node, for the tests.
use sea.Prelude.{
  ℕ, ap, update, update_self, ◌≡◌, ◌∙◌, refl, some, none, List, [], ◌∷◌, arith, if◌then◌else◌, ◌==◌,
  Option,
}
use sea.Posix
use sea.Posix.{Os, M, pure, ran, undefined}
use sea.Time.Data
use sea.Time.Index
use sea.Time.Index.{Header}
use sea.Time.Block.{Block}
use sea.Time.Index.Layout.{index_bytes}
use sea.Time.Block.Log.{IsLog}
use sea.Time.Block.Live.{Live}
use sea.Time.Sample.{abc, xy, header, entries, contents, system, sample-IsLog}
use sea.Controller.{Controller, data_dir}
use sea.Controller.SuperBlock.{SuperBlock}
use sea.Controller.PhoneList
use sea.Controller.PhoneList.{PhoneEntry, Slot, outside, unset, holds, Khash, words}
use sea.Controller.PhoneList.Table.{KhashLaws}
use sea.Controller.DhtList.{Dht}
use sea.Controller.Data.{Nng}
use sea.Controller.Local.{Serving}

-- A digest whose first eight characters are worth 9.
abbrev pub digest : List ℕ → List ℕ
digest _ = 9 ∷ 0 ∷ 0 ∷ 0 ∷ 0 ∷ 0 ∷ 0 ∷ 0 ∷ []

-- A table with a place for each key.
abbrev pub put_slot : Slot → (ℕ → Slot) → ℕ → ℕ × (ℕ → Slot)
put_slot outside t k = (1, update t k unset)
put_slot unset t k = (0, t)
put_slot (holds e) t k = (0, t)

abbrev pub direct : Khash (ℕ → Slot)
direct = record {
  init = λ _. outside;
  put = λ t k. let r = put_slot (t k) t k in (k, r.0, r.1);
  get = λ t k. k;
  value = λ t i. t i;
  set_value = λ t i e. update t i (holds e);
}

put_slot-there :
    (s : Slot) (t : ℕ → Slot) (k : ℕ)
    → t k ≡ s
    → (put_slot ((put_slot s t k).1 k) (put_slot s t k).1 k).0 ≡ 0
put_slot-there outside t k e = rw (update_self t k unset) refl
put_slot-there unset t k e = rw e refl
put_slot-there (holds x) t k e = rw e refl

pub direct-KhashLaws : KhashLaws direct
direct-KhashLaws = record {
  put_absent = λ t k e. ap (λ s. (put_slot s t k).0) e;
  put_unset = λ t k e. ap (λ s. (put_slot s t k).1 k) e ∙ update_self t k unset;
  put_present = λ t k. put_slot-there (t k) t k refl;
  put_place = λ t k. refl;
  get-set = λ t k i e. refl;
  value-set = λ t i e. update_self t i (holds e);
}

abbrev pub list : ℕ → PhoneList.PhoneList (ℕ → Slot)
list cap = record { node_cap = cap; header = direct.init }

-- The sample block under its names in the controller's directory.
abbrev pub roomy : Header
roomy = record header { max_count = 100 }

abbrev pub disk : Os
disk = record (system 0 []) {
  bytes = λ i. if i == 10 then contents else if i == 11 then index_bytes roomy entries else [];
  names = λ p.
      if Posix.path_eq (Index.filename data_dir 9) p
      then some 11
      else if Posix.path_eq (Data.filename data_dir 9) p
      then some 10
      else none;
}

abbrev pub open_block : Block
open_block = record {
  dir = data_dir;
  block_id = 9;
  handle = record { fd = 3 };
  index = record { fd = 4; header = roomy };
}

abbrev pub super_block : SuperBlock
super_block = record { controller_name = b'c' ∷ 0 ∷ []; dir = b'd' ∷ 0 ∷ []; block_id = 9 }

abbrev pub node : {T : Type 0} → Option (PhoneList.PhoneList T) → Controller T
node p = record { super_block = super_block; block = some open_block; phone_list = p }

pub roomy-IsLog : IsLog roomy entries contents (abc ∷ xy ∷ [])
roomy-IsLog = record {
  total = refl;
  header = omega arith;
  entries = sample-IsLog.entries;
  records = sample-IsLog.records;
}

unfoldable pub open-Live : Live disk open_block (abc ∷ xy ∷ [])
unfolding Index.filename Data.filename Posix.decimal Posix.path_eq
open-Live = record {
  stored = record {
    es = entries;
    b = contents;
    index_inode = 11;
    data_inode = 10;
    index_pos = 40;
    data_pos = 0;
    log = roomy-IsLog;
    index = record { opened = refl; content = refl; quiet = refl };
    handle = record { opened = refl; content = refl; quiet = refl };
    other_fd = omega arith;
    other_inode = omega arith;
  };
  index_name = refl;
  data_name = refl;
  index_open = omega arith;
  data_open = omega arith;
}

unfoldable pub node-Serving :
    {T : Type 0} (p : Option (PhoneList.PhoneList T)) → Serving disk (node p) (abc ∷ xy ∷ [])
node-Serving p = record {
  block = open_block;
  in_use = refl;
  live = open-Live;
  dir = refl;
  number = refl;
  positive = omega arith;
}

-- The list of nodes of phone_list.c, with room for one.
abbrev pub one_node : Option (PhoneList.PhoneList (ℕ → Slot))
one_node = some (list 1)

-- A hash table of nodes, and a messaging library, that do nothing.
abbrev pub idle_dht : Dht
idle_dht = record { get_nodes = pure tt; search = pure tt }

abbrev pub idle_nng : Nng
idle_nng = record {
  req_open = pure 0;
  dial = λ url. pure 0;
  send = λ msg. pure 0;
  recv = pure 5;
  close = pure tt;
}

abbrev pub pqr : List ℕ
pqr = b'p' ∷ b'q' ∷ b'r' ∷ []
