-- ===== src/Fs/Windows.antt =====
-- librapidarchive/src/fs/windows.rs: what holds on Windows.
use rapidtar.Prelude.{
  ℕ, ◌+◌, Bool, false, Option, none, some, List, [], ◌∷◌, ◌==◌, ltb, if◌then◌else◌, ◌||◌, ◌&&◌,
  zero, suc, ◌*◌, ◌%◌, ◌^◌,
}
use mathlib.Core.Option.{map as option_map}
use rapidtar.Io.{Bytes, ErrorKind, IoResult, ok, err, ◌>>=◌}
use rapidtar.Tar.Path.{Component, Prefix, PathBuf, prefix, device_ns}
use rapidtar.Rapidtar.{Configuration}
use rapidtar.Fs.{Sink, file_sink, tape_sink, concurrent, blocking}
use rapidtar.Fs.Unix.{limited}

-- `device_name.starts_with("TAPE")`
unfoldable pub starts_with_tape : Bytes → Bool
starts_with_tape (t ∷ a ∷ p ∷ e ∷ _) = (t == b'T') && ((a == b'A') && ((p == b'P') && (e == b'E')))
starts_with_tape _ = false

unfoldable pub is_tape_prefix : Prefix → Bool
is_tape_prefix (device_ns device_name) = starts_with_tape device_name
is_tape_prefix _ = false

unfoldable pub is_tape_component : Component → Bool
is_tape_component (prefix p) = is_tape_prefix p
is_tape_component _ = false

unfoldable pub is_tape : PathBuf → Bool
is_tape [] = false
is_tape (component ∷ components) = is_tape_component component || is_tape components

-- An `io::Error` with its `raw_os_error`.
pub record OsError : Type 0 where
  pub kind : ErrorKind
  pub raw_os_error : Option ℕ

pub data Opened (T : Type 0) : Type 0 where
  device : T → Opened T
  failed : OsError → Opened T

abbrev pub error_media_changed : ℕ
error_media_changed = 1110

module _ {T : Type 0} (open_device : ℕ → Opened T) where
  -- What follows an error, with the next round.
  unfoldable pub retry_changed :
      ℕ → ErrorKind → Option ℕ → Option (IoResult T) → Option (IoResult T)
  retry_changed notfound_count kind none again = some (err kind)
  retry_changed notfound_count kind (some errcode) again =
      if errcode == error_media_changed
      then if ltb 5 notfound_count then some (err kind) else again
      else some (err kind)

  unfoldable pub after_open_sink : ℕ → Opened T → Option (IoResult T) → Option (IoResult T)
  after_open_sink notfound_count (device tape) again = some (ok tape)
  after_open_sink notfound_count (failed e) again =
      retry_changed (notfound_count + 1) e.kind e.raw_os_error again

  -- The loop of `open_sink` after `notfound_count` rounds; `open_device` takes the number of the round.
  -- None: more than `fuel` rounds.
  unfoldable pub open_changed : ℕ → ℕ → Option (IoResult T)
  open_changed zero notfound_count = none
  open_changed (suc fuel) notfound_count =
      let again = open_changed fuel (notfound_count + 1) in
      after_open_sink notfound_count (open_device notfound_count) again

  -- What follows an error in `open_tape`, where `notfound_count` is 0 in every round.
  unfoldable pub retry_notfound : ErrorKind → Option ℕ → Option (IoResult T) → Option (IoResult T)
  retry_notfound kind none again = some (err kind)
  retry_notfound kind (some errcode) again =
      if (errcode == 2) || (errcode == 3)
      then if ltb 5 0 then some (err kind) else again
      else some (err kind)

  unfoldable pub after_open_tape : Opened T → Option (IoResult T) → Option (IoResult T)
  after_open_tape (device tape) again = some (ok tape)
  after_open_tape (failed e) again = retry_notfound e.kind e.raw_os_error again

  -- None: more than `fuel` rounds.
  unfoldable pub open_tape : ℕ → ℕ → Option (IoResult T)
  open_tape zero n = none
  open_tape (suc fuel) n =
      let again = open_tape fuel (n + 1) in after_open_tape (open_device n) again

-- The writers around a tape.
unfoldable pub wrapped_tape :
    {T F : Type 0} → Configuration → Option ℕ → Option (IoResult T) → Option (IoResult (Sink T F))
wrapped_tape tuning limit none = none
wrapped_tape tuning limit (some opened) = some (
    opened >>= λ tape. ok (
      limited
        (blocking (concurrent (tape_sink tape) tuning.serial_buffer_limit) tuning.blocking_factor)
        limit))

unfoldable pub open_sink :
    {T F : Type 0}
    → (ℕ → Opened T)
    → IoResult F
    → ℕ
    → PathBuf
    → Configuration
    → Option ℕ
    → Option (IoResult (Sink T F))
open_sink open_device created fuel outfile tuning limit =
    if is_tape outfile
    then wrapped_tape tuning limit (open_changed open_device fuel 0)
    else some (
        created >>= λ file.
        ok (limited (concurrent (file_sink file) tuning.serial_buffer_limit) limit))

-- The characters before the first that is null, if there is one.
unfoldable pub before_null : List ℕ → Option (List ℕ)
before_null [] = none
before_null (wchar ∷ wchars) =
    let rest = before_null wchars in
    if wchar == 0 then some [] else option_map (λ name. wchar ∷ name) rest

-- What `LookupAccountSidW` leaves: both lengths, and both buffers, each one character longer.
pub record Account : Type 0 where
  pub lookup_name_capacity : ℕ
  pub lookup_domain_capacity : ℕ
  pub name_buffer : List ℕ
  pub domain_buffer : List ℕ

-- The length and the capacity of both buffers.
pub record Buffers : Type 0 where
  pub name_length : ℕ
  pub name_capacity : ℕ
  pub domain_length : ℕ
  pub domain_capacity : ℕ

-- The parts of Win32 and the standard library that a lookup uses. `owner_sid` and `group_sid` stand for
-- `File::open` and what `GetSecurityInfo` leaves.
pub record Security (S : Type 0) : Type 0 where
  pub lookup_account_sid : S → ℕ → ℕ → IoResult Account
  pub from_wide : List ℕ → Bytes
  pub with_capacity : ℕ → ℕ
  pub reserve : ℕ → ℕ → ℕ → ℕ
  pub owner_sid : PathBuf → IoResult S
  pub group_sid : PathBuf → IoResult S

module _ {S : Type 0} (w : Security S) where
  unfoldable pub conv_wcstr_to_ruststr : List ℕ → Option Bytes
  conv_wcstr_to_ruststr wcstr = option_map w.from_wide (before_null wcstr)

  abbrev pub grow_name : Buffers → ℕ → Buffers
  grow_name b more = record b { name_capacity = w.reserve b.name_length b.name_capacity more }

  abbrev pub grow_domain : Buffers → ℕ → Buffers
  grow_domain b more = record b {
    domain_capacity = w.reserve b.domain_length b.domain_capacity more;
  }

  unfoldable pub converted :
      Option Bytes
      → Option Bytes
      → Buffers
      → (Buffers → Option (IoResult (Bytes × Bytes)))
      → Option (IoResult (Bytes × Bytes))
  converted none _ b again = again (grow_name b (b.name_capacity * 2))
  converted (some name) none b again = again (grow_domain b (b.domain_capacity * 2))
  converted (some name) (some domain) b again = some (ok (name, domain))

  unfoldable pub after_lookup :
      IoResult Account
      → Buffers
      → (Buffers → Option (IoResult (Bytes × Bytes)))
      → Option (IoResult (Bytes × Bytes))
  after_lookup (err e) b again = some (err e)
  after_lookup (ok a) b again =
      if ltb b.name_capacity a.lookup_name_capacity
      then again (grow_name b a.lookup_name_capacity)
      else if ltb b.domain_capacity a.lookup_domain_capacity
      then again (grow_domain b a.lookup_domain_capacity)
      else converted (conv_wcstr_to_ruststr a.name_buffer) (conv_wcstr_to_ruststr a.domain_buffer)
          (record b {
            name_length = a.lookup_name_capacity + 1;
            domain_length = a.lookup_domain_capacity + 1;
          })
          again

  -- None: more than `fuel` rounds.
  unfoldable pub lookup_round : ℕ → S → Buffers → Option (IoResult (Bytes × Bytes))
  lookup_round zero sid b = none
  lookup_round (suc fuel) sid b =
      after_lookup
        (w.lookup_account_sid sid (b.name_capacity % 2 ^ 32) (b.domain_capacity % 2 ^ 32)) b
        (λ larger. lookup_round fuel sid larger)

  unfoldable pub lookup_name_of_sid : ℕ → S → Option (IoResult (Bytes × Bytes))
  lookup_name_of_sid fuel sid = lookup_round fuel sid (record {
    name_length = 0;
    name_capacity = w.with_capacity 256;
    domain_length = 0;
    domain_capacity = w.with_capacity 256;
  })

  unfoldable pub name_with : ℕ → Option (IoResult (Bytes × Bytes)) → Option (IoResult (ℕ × Bytes))
  name_with id none = none
  name_with id (some found) = some (found >>= λ userlookup. ok (id, userlookup.0))

  unfoldable pub look_up_sid : ℕ → ℕ → IoResult S → Option (IoResult (ℕ × Bytes))
  look_up_sid fuel id (err e) = some (err e)
  look_up_sid fuel id (ok sid) = name_with id (lookup_name_of_sid fuel sid)

  unfoldable pub get_unix_owner : ℕ → PathBuf → Option (IoResult (ℕ × Bytes))
  get_unix_owner fuel path = look_up_sid fuel 65534 (w.owner_sid path)

  unfoldable pub get_unix_group : ℕ → PathBuf → Option (IoResult (ℕ × Bytes))
  get_unix_group fuel path = look_up_sid fuel 0 (w.group_sid path)
