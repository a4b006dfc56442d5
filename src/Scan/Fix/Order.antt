-- ===== src/Scan/Fix/Order.antt =====
-- scan.cc: the order of the saves at the end of rom_scan.
use advancescan.Base.{Bool, Bytes, false, ok, refl, ◌∙◌, ◌≡◌}
use advancescan.Game.{Game}
use advancescan.Scan.Fix.{rom_scan_end, rzs_report}
use advancescan.Scan.Move.Order.{after-files, save_unload-files}
use advancescan.Scan.Store.{after, save_unload, within}
use advancescan.Zip.Archive.{System, bytes_eq}
use advancescan.Zip.Archive.Save.{file_temp}
use advancescan.Ziprom.{Ziprom}

-- rom_scan saves the archive first: once its end is reached, the archive's file is what its own
-- save leaves, whatever becomes of the reject archive, to which the files have been moved.
pub rom_scan_end-files :
    (pedantic : Bool) (stamp stamp' : Bytes) (good : Bool) (g : Game) (z reject : Ziprom)
    (s : System)
    → bytes_eq reject.zip.path z.zip.path ≡ false
    → bytes_eq (file_temp reject.zip.path stamp') z.zip.path ≡ false
    → (rom_scan_end pedantic stamp stamp' good g z reject s).1.files z.zip.path
      ≡ (save_unload pedantic stamp z s).1.files z.zip.path
unfolding rom_scan_end
rom_scan_end-files pedantic stamp stamp' good g z reject s a b =
    after-files (save_unload pedantic stamp z s)
      (λ z1 s1.
        after (within s1 (rzs_report good z1 g s1))
          (λ g1 s1. after (save_unload pedantic stamp' reject s1) (λ q1 s2. (ok (z1, q1, g1), s2))))
      z.zip.path
      (λ z1 s1.
        after-files (within s1 (rzs_report good z1 g s1))
          (λ g1 s1. after (save_unload pedantic stamp' reject s1) (λ q1 s2. (ok (z1, q1, g1), s2)))
          z.zip.path
          (λ g1 s1.
            after-files (save_unload pedantic stamp' reject s1) (λ q1 s2. (ok (z1, q1, g1), s2))
              z.zip.path (λ q1 s2. refl)
            ∙ save_unload-files pedantic stamp' reject s1 z.zip.path a b))
