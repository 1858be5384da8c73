-- ===== src/Controller/DhtList/Tests.antt =====
-- A node that is started twice.
use sea.Prelude.{◌≡◌, refl, some, none, [], ◌∷◌, arith, if◌then◌else◌, ◌==◌, replicate, update}
use sea.Posix
use sea.Posix.{Os, ran, junk}
use sea.Time.Sample.{system}
use sea.Controller.DhtList.Identity.{identity, random_file}
use sea.Controller.DhtList.Identity.Drawn.{identity_kept}

abbrev disk : Os
disk = record (system 0 []) {
  names = λ p. if Posix.path_eq random_file p then some 7 else none;
  bytes = λ i. if i == 7 then replicate 32 b'r' else [];
}

identity_kept_example :
    (os' : Os) × (os'' : Os) × (identity disk
      ≡ ran (some (record { id = replicate 20 b'r'; seed = 0 ∷ 0 ∷ 0 ∷ 0 ∷ [] })) os')
    × (identity (record os' { bytes = update os'.bytes 7 (replicate 40 b's') })
        ≡ ran (some (record { id = replicate 20 b'r'; seed = replicate 4 b's' })) os'')
unfolding Posix.path_eq junk
identity_kept_example =
    identity_kept disk 7 (replicate 40 b's') refl refl refl (omega arith) (omega arith)
      (omega arith)
