-- ===== src/Zip/Archive/Save/Frame.antt =====
-- zip.cc: the files that zip::save leaves alone.
use advancescan.Base.{
  Bool-cases, Bytes, Option, Result, [], err, false, inl, inr, none, ok, refl, some, ◌&&◌, ◌∙◌, ◌≡◌,
}
use advancescan.Zip.Archive.{System, Zip, bytes_eq, flushed, is_empty, put_file}
use advancescan.Zip.Archive.Save.{
  delete_file, file_temp, finish_rename, replace, save, save_clean, save_files, save_stream,
}
use advancescan.Zip.Stream.{Output}

module _ (p path temp : Bytes) (not_path : bytes_eq path p ≡ false)
    (not_temp : bytes_eq temp p ≡ false) where
  finish_rename-files : (z : Zip) (s : System) → (finish_rename temp path z s).1.files p ≡ s.files p
  unfolding finish_rename
  finish_rename-files z s = elim (Bool-cases (s.can_rename temp path)) [
    | inl c ↦ rw c (rw (not_path, not_temp) refl)
    | inr c ↦ rw c refl
  ]

  replace-files :
      (o : Option Bytes) (z : Zip) (s : System) → (replace o temp path z s).1.files p ≡ s.files p
  unfolding replace
  replace-files none z s = finish_rename-files z s
  replace-files (some b) z s = elim (Bool-cases (s.can_remove path)) [
    | inl c ↦ rw c (finish_rename-files z (put_file path none s) ∙ rw not_path refl)
    | inr c ↦ rw c (rw not_temp refl)
  ]

  save_files-files :
      (r : Result (Zip × Output)) (s : System) → (save_files temp r path s).1.files p ≡ s.files p
  unfolding save_files
  save_files-files (err e) s = rw not_temp refl
  save_files-files (ok (z, f)) s =
      let s1 = put_file temp (some (flushed temp f.written s)) s in
      replace-files (s1.files path) z s1 ∙ rw not_temp refl

  delete_file-files :
      (o : Option Bytes) (z : Zip) (s : System)
      → z.path ≡ path
      → (delete_file o z s).1.files p ≡ s.files p
  unfolding delete_file
  delete_file-files none z s e = refl
  delete_file-files (some b) z s e = elim (Bool-cases (s.can_remove z.path)) [
    | inl c ↦ rw c (let q : bytes_eq z.path p ≡ false = rw e not_path in rw q refl)
    | inr c ↦ rw c refl
  ]

save_clean-files :
    (stamp : Bytes) (z : Zip) (s : System) (p : Bytes)
    → bytes_eq z.path p ≡ false
    → bytes_eq (file_temp z.path stamp) p ≡ false
    → (save_clean stamp z s).1.files p ≡ s.files p
unfolding save_clean
save_clean-files stamp z s p a b =
    let temp = file_temp z.path stamp in
    elim (Bool-cases (is_empty z)) [
      | inl n ↦
          rw (n, save_clean)
            (delete_file-files p z.path temp a b (s.files z.path)
              (record z { offset_to_start_of_cent_dir = 0 }) s refl)
      | inr n ↦ elim (Bool-cases (s.can_create temp)) [
        | inl c ↦
            rw (n, save_clean)
              (rw c (
                save_files-files p z.path temp a b
                  (save_stream z (record { written = []; room = s.room })) s))
        | inr c ↦ rw (n, save_clean) (rw c refl)
      ]
    ]

-- Whatever happens, zip::save leaves every file alone but the archive's and the temporary one.
pub save-files :
    (stamp : Bytes) (z : Zip) (s : System) (p : Bytes)
    → bytes_eq z.path p ≡ false
    → bytes_eq (file_temp z.path stamp) p ≡ false
    → (save stamp z s).1.files p ≡ s.files p
unfolding save
save-files stamp z s p a b = elim (Bool-cases (z.is_open && z.is_read)) [
  | inl ready ↦ rw ready (save_clean-files stamp (record z { is_modify = false }) s p a b)
  | inr not_ready ↦ rw not_ready refl
]
