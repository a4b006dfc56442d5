-- ===== src/Tests/FileTests.antt =====
-- Instances of the theorems about whole files.
use advancescan.Base.{
  Bytes, [], false, if◌then◌else◌, length, none, ok, refl, some, true, ◌<◌, ◌↔◌, ◌∷◌, ◌≡◌, ◌≤◌,
}
use advancescan.File.Transfer.{file_copy, file_move, file_read, file_remove, file_write}
use advancescan.File.Transfer.Moves.{Moved, file_move-Moved, file_move-bounds}
use advancescan.Zip.Archive.{System, bytes_eq}
use advancescan.Zip.Stream.{fread, fwrite}

abbrev name_a : Bytes
name_a = b'a' ∷ []

abbrev name_b : Bytes
name_b = b'b' ∷ []

abbrev content_a : Bytes
content_a = 7 ∷ 8 ∷ 9 ∷ []

-- two file systems: nothing can be renamed from one to the other
abbrev two_disks : System
two_disks = record {
  files = λ p. if bytes_eq name_a p then some content_a else none;
  room = 1000;
  disk_room = λ p. 1000;
  can_stat = λ p. true;
  can_read = λ p. true;
  can_create = λ p. true;
  can_remove = λ p. true;
  can_rename = λ p q. false;
}

name_a-found : two_disks.files name_a ≡ some content_a
unfolding bytes_eq
name_a-found = refl

name_a-name_b : bytes_eq name_a name_b ≡ false
unfolding bytes_eq
name_a-name_b = refl

name_b-name_a : bytes_eq name_b name_a ≡ false
unfolding bytes_eq
name_b-name_a = refl

file_move-Moved_example :
    Moved true content_a name_a name_b two_disks (file_move true name_a name_b two_disks)
file_move-Moved_example =
    file_move-Moved true content_a name_a name_b two_disks name_a-found name_a-name_b name_b-name_a

move-done : (file_move true name_a name_b two_disks).0 ≡ ok tt
unfolding bytes_eq file_move file_copy file_read file_write file_remove fread fwrite
move-done = refl

file_move-bounds_example :
    ((file_move true name_a name_b two_disks).1.files name_b ≡ some content_a)
    ↔ ((length content_a < 4294967296) × (length content_a ≤ two_disks.disk_room name_b))
file_move-bounds_example =
    file_move-bounds content_a name_a name_b two_disks name_a-found name_a-name_b name_b-name_a refl
      move-done
