-- ===== src/Fs/Owner.antt =====
-- librapidarchive/src/fs/unix.rs and portable.rs: what is found of the owner and the type of a file.
use rapidtar.Prelude.{
  ℕ, ◌+◌, ◌*◌, ◌≤◌, ◌<◌, ◌≡◌, refl, true, false, some, ◌==◌, ==_iff, zero, suc, arith, Bool-cases,
  inl, inr, leb, leb→le, leb_false→lt,
}
use rapidtar.Io.{Bytes, ok}
use rapidtar.Fs.{FileMetadata}
use rapidtar.Fs.Portable
use rapidtar.Fs.Unix
use rapidtar.Fs.Unix.{
  Accounts, Lookup, named, null, next_lookup, look_up, with_number, get_unix_owner,
}

-- What is documented of a lookup of the number `id`, whose entry takes `size` bytes and has the name
-- `name`: with room for it, it yields the name; with less, it fails with ERANGE. A vector has room for
-- what was reserved.
pub record HasAccount (a : Accounts) (id size : ℕ) (name : Bytes) : Type 0 where
  pub fits : (room : ℕ) → size ≤ room → a.look id room ≡ named name
  pub short : (room : ℕ) → room < size → a.look id room ≡ null a.erange
  pub reserve_ge : (len room more : ℕ) → len + more ≤ a.reserve len room more
  pub with_capacity_ge : (n : ℕ) → n ≤ a.with_capacity n

module _ (a : Accounts) (id size : ℕ) (name : Bytes) (has : HasAccount a id size name) where
  look_up-name :
      (fuel room : ℕ)
      → 0 < room
      → 0 < fuel
      → size < fuel + room
      → look_up a fuel id room ≡ some (ok name)
  unfolding look_up next_lookup
  look_up-name zero room some_room some_fuel enough = absurd (omega arith)
  look_up-name (suc fuel) room some_room some_fuel enough = elim (Bool-cases (leb size room)) [
    | inl fits ↦ rw (has.fits room (leb→le _ _ fits)) refl
    | inr over ↦
        let more = leb_false→lt size room over in
        let larger = has.reserve_ge 0 room (room * 2) in
        let same : (a.erange == a.erange) ≡ true = (==_iff a.erange a.erange).1 refl in
        rw (has.short room more, same)
          (look_up-name fuel (a.reserve 0 room (room * 2)) (omega (arith, larger)) (omega arith)
            (omega (arith, larger)))
  ]

-- Where the owner of a file has an entry, of any size, `get_unix_owner` returns its number and its
-- name. One round of fuel for each byte of the entry and one more are enough.
pub get_unix_owner_lem :
    (a : Accounts) (m : FileMetadata) (size fuel : ℕ) (name : Bytes)
    → HasAccount a m.uid size name
    → size < fuel
    → get_unix_owner a fuel m ≡ some (ok (m.uid, name))
unfolding get_unix_owner with_number
get_unix_owner_lem a m size fuel name has enough =
    rw
      (look_up-name a m.uid size name has fuel (a.with_capacity 1024)
        (omega (arith, has.with_capacity_ge 1024)) (omega (arith, enough)) (omega (arith, enough)))
      refl

-- For a file that is no device, pipe or socket, the Unix and the portable version find the same type.
pub get_file_type-agree :
    (m : FileMetadata)
    → m.is_block_device ≡ false
    → m.is_char_device ≡ false
    → m.is_fifo ≡ false
    → m.is_socket ≡ false
    → Unix.get_file_type m ≡ Portable.get_file_type m
unfolding Unix.get_file_type Portable.get_file_type
get_file_type-agree m block char fifo socket = rw (block, char, fifo, socket) refl
