-- ===== src/Tests/Fs.antt =====
-- Runs of the definitions for the file system, with an entry of 2000 bytes for each number.
use rapidtar.Prelude.{
  ℕ, ◌+◌, ◌<◌, ◌≡◌, refl, arith, true, false, some, [], ◌∷◌, leb, le→leb, if◌then◌else◌,
}
use rapidtar.Io.{ok, other}
use rapidtar.Fs.{FileMetadata}
use rapidtar.Fs.Unix.{Accounts, Lookup, named, null, get_unix_owner}
use rapidtar.Fs.Owner.{HasAccount, get_unix_owner_lem}

abbrev look : ℕ → ℕ → Lookup
look id room = if leb 2000 room then named (97 ∷ []) else null 34

abbrev accounts : Accounts
accounts = record {
  look = look;
  erange = 34;
  from_raw_os_error = λ e. other;
  reserve = λ len room more. len + more;
  with_capacity = λ n. n;
}

look_short : (id room : ℕ) → room < 2000 → look id room ≡ null 34
look_short id room short = let over : leb 2000 room ≡ false = ground arith in rw over refl

accounts-HasAccount : (id : ℕ) → HasAccount accounts id 2000 (97 ∷ [])
accounts-HasAccount id = record {
  fits = λ room h. rw (le→leb 2000 room h) refl;
  short = look_short id;
  reserve_ge = λ len room more. omega arith;
  with_capacity_ge = λ n. omega arith;
}

abbrev pub regular : FileMetadata
regular = record {
  is_block_device = false;
  is_char_device = false;
  is_fifo = false;
  is_socket = false;
  is_dir = false;
  is_file = true;
  is_symlink = false;
  readonly = false;
  mode = 420;
  uid = 1000;
  gid = 100;
}

get_unix_owner_lem_example : get_unix_owner accounts 2001 regular ≡ some (ok (1000, 97 ∷ []))
get_unix_owner_lem_example =
    get_unix_owner_lem accounts regular 2000 2001 (97 ∷ []) (accounts-HasAccount 1000) (omega arith)
