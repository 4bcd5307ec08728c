-- ===== src/Tar/Pax.antt =====
-- librapidarchive/src/tar/pax.rs: the extended attributes of a file. Their sum of `f32` numbers is
-- taken as exact.
pub mod Attribute
use rapidtar.Prelude.{
  ℕ, zero, suc, ◌+◌, ◌-◌, ◌%◌, Bool, true, false, Option, none, some, List, [], ◌∷◌, ◌++◌,
  if◌then◌else◌, ltb, length, replicate,
}
use rapidtar.Io.{Bytes, IoResult, ok, err, invalid_data}
use rapidtar.Tar.Digits.{digits}
use rapidtar.Tar.Numeral.{Formatting}
use rapidtar.Tar.Header.{SystemTime, since_epoch, before_epoch}

-- ` key=val\n`, what stands behind the length of an attribute.
unfoldable pub attribute_tail : Bytes → Bytes → Bytes
attribute_tail key_bytes val_bytes = b' ' ∷ (key_bytes ++ b'=' ∷ (val_bytes ++ 10 ∷ []))

module _ (f : Formatting) where
  -- The `while` loop that looks for the length of the length. None: it runs for more rounds.
  unfoldable pub find_number_length : ℕ → ℕ → ℕ → Option ℕ
  find_number_length zero minimum_length number_length = none
  find_number_length (suc fuel) minimum_length number_length =
      let rest = find_number_length fuel minimum_length (number_length + 1) in
      if ltb number_length (f.floor_log10 (number_length + minimum_length) + 1)
      then rest
      else some number_length

  -- None: the loop runs for more than `fuel` rounds.
  unfoldable pub format_pax_attribute : ℕ → Bytes → Bytes → Option Bytes
  format_pax_attribute fuel key_bytes val_bytes =
      let minimum_length = 1 + length key_bytes + 1 + length val_bytes + 1 in
      elim (find_number_length fuel minimum_length (f.floor_log10 minimum_length + 1)) [
        | none ↦ none
        | some number_length ↦
            some (digits 10 (minimum_length + number_length) ++ attribute_tail key_bytes val_bytes)
      ]

-- `format!("{}", …)` of the seconds.
unfoldable pub format_pax_time : SystemTime → IoResult Bytes
format_pax_time (since_epoch secs) = ok (digits 10 secs)
format_pax_time before_epoch = err invalid_data
