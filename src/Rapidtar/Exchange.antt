-- ===== src/Rapidtar/Exchange.antt =====
-- rapidtar/src/bin/rapidtar.rs: `volume_exchange_cli`, which asks for the next volume.
use rapidtar.Prelude.{
  ℕ, ◌≤◌, ◌<◌, ◌≡◌, ap, sym, ◌∙◌, if_false, Bool, true, false, List, [], ◌∷◌, ◌==◌, ◌&&◌, ltb, leb,
  length, if◌then◌else◌, arith,
}
use rapidtar.Io.{
  Bytes, IoResult, ok, err, ErrorKind, write_zero, invalid_data, invalid_input, interrupted, other,
}
use rapidtar.Rapidtar.{TarParameter, TarResult}

-- What is left to read of the standard input: what each call of `read_line` will yield.
abbrev pub Console : Type 0
Console = List (IoResult Bytes)

-- How the question ends: with parameters, a result and the input that is left, with an error, or in a
-- panic.
pub data Exchange : Type 0 where
  exchanged : TarParameter → TarResult → Console → Exchange
  broken : ErrorKind → Exchange
  panicked : Exchange

-- A round of the loop: it goes on, or ends.
pub data Answer : Type 0 where
  ask_again : Answer
  cancel : Answer
  reopen : Answer
  rename : Bytes → Answer
  bad_slice : Answer

-- A byte in the midst of a character.
abbrev pub is_continuation : ℕ → Bool
is_continuation x = leb 128 x && ltb x 192

-- `String::from(response[2..].trim())` of a response of more than two bytes; a slice must start at a
-- character.
unfoldable pub new_name : (Bytes → Bytes) → Bytes → Answer
new_name trim (a ∷ b ∷ x ∷ rest) = if is_continuation x then bad_slice else rename (trim (x ∷ rest))
new_name trim _ = ask_again

-- `match &response[0..1]`; the slice panics on an empty response, and on a first character of more
-- than one byte.
unfoldable pub answer : (Bytes → Bytes) → Bytes → Answer
answer trim [] = bad_slice
answer trim (first ∷ rest) =
    if leb 128 first
    then bad_slice
    else if first == b'?'
    then ask_again
    else if first == b'q'
    then cancel
    else if first == b'y'
    then reopen
    else if first == b'n'
    then new_name trim (first ∷ rest)
    else ask_again

unfoldable pub answered : Answer → TarParameter → TarResult → Console → Exchange → Exchange
answered ask_again params result rest more = more
answered cancel params result rest more = exchanged params (record result { cancelled = true }) rest
answered reopen params result rest more = exchanged params result rest
answered (rename name) params result rest more =
    exchanged (record params { outfile = name }) result rest
answered bad_slice params result rest more = panicked

-- The loop for a result that is not cancelled. At the end of the input, `read_line` yields an empty
-- string. `trim` is `str::trim`.
unfoldable pub ask : (Bytes → Bytes) → TarParameter → TarResult → Console → Exchange
ask trim params result [] = answered (answer trim []) params result [] panicked
ask trim params result (ok response ∷ rest) =
    answered (answer trim response) params result rest (ask trim params result rest)
ask trim params result (err invalid_data ∷ rest) = ask trim params result rest
ask trim params result (err write_zero ∷ rest) = broken write_zero
ask trim params result (err invalid_input ∷ rest) = broken invalid_input
ask trim params result (err interrupted ∷ rest) = broken interrupted
ask trim params result (err other ∷ rest) = broken other

unfoldable pub volume_exchange_cli : (Bytes → Bytes) → TarParameter → TarResult → Console → Exchange
volume_exchange_cli trim params result input =
    if result.cancelled then exchanged params result input else ask trim params result input

exchanged_inj :
    {p q : TarParameter} {r s : TarResult} {i j : Console}
    → exchanged p r i ≡ exchanged q s j
    → i ≡ j
exchanged_inj h = cc

answered-shorter :
    (a : Answer) (params : TarParameter) (result : TarResult) (rest : Console) (more : Exchange)
    {params' : TarParameter} {result' : TarResult} {rest' : Console}
    → (more ≡ exchanged params' result' rest' → length rest' ≤ length rest)
    → answered a params result rest more ≡ exchanged params' result' rest'
    → length rest' ≤ length rest
unfolding answered
answered-shorter ask_again params result rest more on h = on h
answered-shorter cancel params result rest more on h = omega (arith, ap length (exchanged_inj h))
answered-shorter reopen params result rest more on h = omega (arith, ap length (exchanged_inj h))
answered-shorter (rename name) params result rest more on h =
    omega (arith, ap length (exchanged_inj h))
answered-shorter bad_slice params result rest more on h = absurd (cc)

ask-shorter :
    (trim : Bytes → Bytes) (params : TarParameter) (result : TarResult) (input : Console)
    {params' : TarParameter} {result' : TarResult} {rest : Console}
    → ask trim params result input ≡ exchanged params' result' rest
    → length rest < length input
unfolding ask answered answer
ask-shorter trim params result [] h = absurd (cc)
ask-shorter trim params result (ok response ∷ input) h = omega (
  arith,
  answered-shorter (answer trim response) params result input (ask trim params result input)
      (λ h'. omega (arith, ask-shorter trim params result input h')) h,
)
ask-shorter trim params result (err invalid_data ∷ input) h =
    omega (arith, ask-shorter trim params result input h)
ask-shorter trim params result (err write_zero ∷ input) h = absurd (cc)
ask-shorter trim params result (err invalid_input ∷ input) h = absurd (cc)
ask-shorter trim params result (err interrupted ∷ input) h = absurd (cc)
ask-shorter trim params result (err other ∷ input) h = absurd (cc)

-- An exchange of an operation that is not cancelled reads at least one line.
pub volume_exchange_cli-shorter :
    (trim : Bytes → Bytes) (params : TarParameter) (result : TarResult) (input : Console)
    {params' : TarParameter} {result' : TarResult} {rest : Console}
    → result.cancelled ≡ false
    → volume_exchange_cli trim params result input ≡ exchanged params' result' rest
    → length rest < length input
unfolding volume_exchange_cli
volume_exchange_cli-shorter trim params result input going h =
    ask-shorter trim params result input (
      sym (
        if_false result.cancelled (exchanged params result input) (ask trim params result input)
          going)
      ∙ h)
