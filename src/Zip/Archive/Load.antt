-- ===== src/Zip/Archive/Load.antt =====
-- zip.cc: zip::load and zip::reopen.
pub mod Search
pub mod RoundTrip
use advancescan.Base.{
  Bool, Bytes, List, Option, Result, [], aborted, err, failed, false, if◌then◌else◌, invalid, leb,
  length, ltb, none, not, ok, overrun, set, some, suc, throw_if, true, zero, ℕ, ◌%◌, ◌&&◌, ◌+◌, ◌-◌,
  ◌==◌, ◌>>=◌, ◌>>◌, ◌∷◌,
}
use advancescan.Zip.Archive.{System, Zip, assert, close}
use advancescan.Zip.Archive.Directory.{open_zip}
use advancescan.Zip.Entry.{Entry}
use advancescan.Zip.Entry.Local.{load_local}
use advancescan.Zip.Format.{lo_fixed}
use advancescan.Zip.Stream.{Input, fread, fseek_set}

-- The state of the loop of zip::load. The stream's position is `offset` of the source.
pub record Loading : Type 0 where
  pub entries : List Entry
  pub stream : Input
  pub count : ℕ

-- !next_set || i->offset_get() < next->offset_get()
pub is_better : ℕ → Option (ℕ × ℕ) → Bool
is_better offset none = true
is_better offset (some (_, o)) = ltb offset o

-- One of the two searches over the entries: the first with the least offset among those that
-- pass the test, with its place in the list.
pub search : (ℕ → Bool) → ℕ → Option (ℕ × ℕ) → List Entry → Option (ℕ × ℕ)
unfolding is_better
search test i best [] = best
search test i best (e ∷ es) =
    let offset = e.info.relative_offset_of_local_header in
    search test (i + 1) (if test offset && is_better offset best then some (i, offset) else best) es

-- where the entry must end
pub end_offset : ℕ → List Entry → ℕ → ℕ
unfolding search
end_offset cent_start es offset = elim (search (λ o. ltb offset o) 0 none es) [
  | none ↦ cent_start
  | some (_, o) ↦ o
]

pub get_elem? : List Entry → ℕ → Option Entry
get_elem? [] i = none
get_elem? (e ∷ es) zero = some e
get_elem? (e ∷ es) (suc i) = get_elem? es i

-- The entry at place `i` and offset `o` is loaded. The offset is an unsigned: `offset_get() +
-- ZIP_LO_FIXED` wraps, and so does the size that is handed to load_local.
pub load_entry : Bool → ℕ → Loading → ℕ → ℕ → Result Loading
load_entry pedantic cent_start l i o = do
  throw_if (leb cent_start o) invalid
  throw_if (pedantic && ltb l.stream.pos o) invalid
  let end = end_offset cent_start l.entries o
  throw_if (ltb end ((o + lo_fixed) % 4294967296)) invalid
  (buf, f) ← fread lo_fixed (fseek_set o l.stream) failed
  elim (get_elem? l.entries i) [
    | none ↦ err overrun
    | some e ↦ load_local pedantic buf f ((end + 8589934592 - o - lo_fixed) % 4294967296) e >>= λ r.
        ok (record { entries = set l.entries i r.0; stream = r.1; count = l.count + 1 })
  ]

-- The loop, on fuel: each round passes one entry. Without fuel it stops as if an assertion
-- failed.
unfoldable pub load_loop : ℕ → Bool → ℕ → Loading → Result Loading
load_loop zero pedantic cent_start l = err aborted
load_loop (suc fuel) pedantic cent_start l = elim (ltb l.stream.pos cent_start) [
  | false ↦ ok l
  | true ↦ elim (search (λ o. leb l.stream.pos o) 0 none l.entries) [
    | none ↦ if pedantic then err invalid else ok l
    | some (i, o) ↦ load_entry pedantic cent_start l i o >>= load_loop fuel pedantic cent_start
  ]
]

abbrev pub loading_of : Zip → Bytes → Loading
loading_of z content = record {
  entries = z.entries;
  stream = record { content = content; pos = 0 };
  count = 0;
}

-- zip::load from a file with this content
unfoldable pub load_content : Bool → Zip → Bytes → Result Zip
load_content pedantic z content = do
  l ← load_loop (length z.entries + 1) pedantic z.offset_to_start_of_cent_dir (loading_of z content)
  throw_if (pedantic && not (l.stream.pos == z.offset_to_start_of_cent_dir)) invalid
  throw_if (not (l.count == length z.entries)) invalid
  ok (record z { is_read = true; is_modify = false; entries = l.entries })

-- zip::load
unfoldable pub load : Bool → Zip → System → Result Zip
load pedantic z s = do
  assert (z.is_open && not z.is_read)
  elim (if s.can_read z.path then s.files z.path else none) [
    | none ↦ err failed
    | some content ↦ load_content pedantic z content
  ]

-- zip::reopen: `close` has cleared the path that `open` then opens.
unfoldable pub reopen : Bool → Zip → System → Result Zip
reopen pedantic z s = do assert z.is_open; open_zip pedantic (close z) s
