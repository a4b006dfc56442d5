-- ===== src/Scan/Store.antt =====
-- scan.cc: the ends of the scans, where archives are saved. What a call returns stands beside the
-- files that it leaves, also where it fails.
use advancescan.Base.{
  Bool, Bytes, Result, err, failed, if◌then◌else◌, length, none, ok, some, ℕ, ◌%◌,
}
use advancescan.Zip.Archive.{System}
use advancescan.Ziprom.{Ziprom, save_ziprom, unload_ziprom}

-- the next call, on the files that are left
abbrev pub after {ℓ κ} :
    {A : Type ℓ} {B : Type κ}
    → Result A × System
    → (A → System → Result B × System)
    → Result B × System
after (err e, s) next_call = (err e, s)
after (ok a, s) next_call = next_call a s

-- a call that leaves the files alone
abbrev pub within {ℓ} : {A : Type ℓ} → System → Result A → Result A × System
within s m = (m, s)

-- z.save(); z.unload();
unfoldable pub save_unload : Bool → Bytes → Ziprom → System → Result Ziprom × System
save_unload pedantic stamp r s =
    after (save_ziprom stamp r s) (λ r1 s1. within s1 (unload_ziprom pedantic s1 r1))

-- stat(path) and st_size
abbrev pub file_size : Bytes → System → Result ℕ
file_size path s = elim (if s.can_stat path then s.files path else none) [
  | none ↦ err failed
  | some content ↦ ok (length content % 4294967296)
]
