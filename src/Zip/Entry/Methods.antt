-- ===== src/Zip/Entry/Methods.antt =====
-- zip.cc: zip_entry::set and zip_entry::method_get, on each compression method.
use advancescan.Base.{
  Bool-cases, arith, err, false, inl, inr, invalid, not, ok, refl, ◌<◌, ◌==◌, ◌≡◌, ◌≢◌, ◌⊎◌,
}
use advancescan.Zip.Entry.{
  Info, Method, deflate0, deflate1, deflate2, deflate3, deflate4, deflate5, deflate6, deflate7,
  deflate8, method_get, method_set, store, unknown,
}
use advancescan.Zip.Format.{method_store}

-- The level that method_get reports: deflate has four classes of levels on disk.
abbrev pub stored_method : Method → Method
stored_method deflate2 = deflate1
stored_method deflate4 = deflate3
stored_method deflate5 = deflate3
stored_method deflate7 = deflate6
stored_method deflate8 = deflate6
stored_method m = m

-- Whatever method `set` accepts, method_get reports its class, and `set` keeps the sizes and the
-- checksum; it refuses only the two methods with no code, and `store` of data whose sizes differ.
pub method_get-method_set :
    (m : Method) (i : Info)
    → ((j : Info) × (method_set m i ≡ ok j)
        × (method_get j ≡ stored_method m)
        × (j.crc32 ≡ i.crc32)
        × (j.compressed_size ≡ i.compressed_size)
        × (j.uncompressed_size ≡ i.uncompressed_size))
      ⊎ ((method_set m i ≡ err invalid)
          × ((m ≡ unknown)
              ⊎ (m ≡ deflate0)
              ⊎ ((m ≡ store) × (i.uncompressed_size ≢ i.compressed_size))))
unfolding method_set method_get
method_get-method_set unknown i = inr (refl, inl refl)
method_get-method_set deflate0 i = inr (refl, inr (inl refl))
method_get-method_set store i = elim (Bool-cases (i.uncompressed_size == i.compressed_size)) [
  | inl same ↦ inl (
    record i { compression_method = method_store; version_needed_to_extract = 10 },
    rw same,
    refl,
    refl,
    refl,
    refl,
  )
  | inr differ ↦ inr (rw differ, inr (inr (refl, ground arith)))
]
method_get-method_set m i = inl (_, refl, refl, refl, refl, refl)

-- What `set` writes for the method, and nothing else.
pub record Coded (i j : Info) : Type 0 where
  pub method : j.compression_method < 65536
  pub flags : j.general_purpose_bit_flag < 65536
  pub version : j.version_needed_to_extract < 256
  pub rest : j ≡ record i {
    compression_method = j.compression_method;
    general_purpose_bit_flag = j.general_purpose_bit_flag;
    version_needed_to_extract = j.version_needed_to_extract;
  }

-- A method that `set` accepts for these sizes.
abbrev pub Settable : Method → Info → Type 0
Settable m i =
    (m ≢ unknown) × (m ≢ deflate0) × (m ≡ store → i.uncompressed_size ≡ i.compressed_size)

pub method_set-Coded :
    (m : Method) (i : Info)
    → Settable m i
    → i.version_needed_to_extract ≡ 20
    → i.general_purpose_bit_flag ≡ 0
    → (j : Info) × (method_set m i ≡ ok j) × Coded i j × (method_get j ≡ stored_method m)
unfolding method_set method_get
method_set-Coded unknown i s v z = absurd (s.0 refl)
method_set-Coded deflate0 i s v z = absurd (s.1 refl)
method_set-Coded store i s v z =
    let same : not (i.uncompressed_size == i.compressed_size) ≡ false = ground (arith, s.2 refl) in
    (
      record i { compression_method = method_store; version_needed_to_extract = 10 },
      rw same,
      record { method = omega arith; flags = omega arith; version = omega arith; rest = refl },
      refl,
    )
method_set-Coded m i s v z = (
  _,
  refl,
  record { method = omega arith; flags = omega arith; version = omega arith; rest = refl },
  refl,
)
