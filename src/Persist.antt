-- ===== src/Persist.antt =====
-- src/persistence.c: the sender record on disk. What `open` and `write` do is a parameter of each
-- call. `WalRecord` is laid out as on a 64-bit target: 300 bytes of fields, padded to 304 bytes.
pub mod Layout
pub mod Recovery
pub mod Torn
mod Examples
use gate.Base.{
  ℕ, zero, suc, ◌+◌, Bool, true, false, List, [], ◌∷◌, ◌++◌, Option, none, some, Bytes, take, drop,
  replicate, length, ◌==◌, truthy, if◌then◌else◌, le_bytes, of_le,
}
use gate.Command.{SenderRecord}

-- The C results 0 and -1.
pub data Status : Type 0 where
  success failure : Status

abbrev pub record_size : ℕ
record_size = 304

-- sizeof(SenderRecord), which is packed.
abbrev pub sender_size : ℕ
sender_size = 41

unfoldable pub sender_bytes : SenderRecord → Bytes
sender_bytes s =
    s.public_key ++ (le_bytes 8 s.last_sequence ++ le_bytes 1 (if s.used then 1 else 0))

-- `memcpy(sender, latest.payload, sizeof(SenderRecord))`
unfoldable pub sender_of : Bytes → SenderRecord
sender_of payload = record {
  public_key = take 32 payload;
  last_sequence = of_le (take 8 (drop 32 payload));
  used = truthy (of_le (take 1 (drop 40 payload)));
}

-- The record that is written: sequence, length, a hash that stays zero, the payload and the padding.
unfoldable pub record_of : SenderRecord → ℕ → Bytes
unfolding sender_bytes
record_of sender seq =
    le_bytes 8 seq
    ++ (le_bytes 4 sender_size
        ++ (replicate 32 0 ++ (sender_bytes sender ++ (replicate 215 0 ++ replicate 4 0))))

-- `opens`: whether `open` gives a descriptor; `written`: how many bytes `write` puts into the file.
unfoldable pub persist_sender_state : Bytes → SenderRecord → ℕ → Bool → ℕ → Status × Bytes
unfolding record_of
persist_sender_state file sender seq opens written =
    if opens
    then (
      if written == record_size then success else failure,
      file ++ take written (record_of sender seq),
    )
    else (failure, file)

-- The loop, with as many rounds left as `rounds`; `latest` is the last whole record read.
pub read_records : ℕ → Bytes → Option Bytes → Option Bytes
read_records zero file latest = latest
read_records (suc rounds) file latest =
    let chunk = take record_size file in
    let rest = read_records rounds (drop record_size file) (some chunk) in
    if length chunk == record_size then rest else latest

-- A file of n bytes is read in at most n rounds. `none` leaves the caller's record untouched.
unfoldable pub recover_sender_state : Bytes → Bool → SenderRecord → Status × SenderRecord
unfolding sender_of
recover_sender_state file opens sender =
    if opens
    then (elim (read_records (suc (length file)) file none) [
      | some latest ↦ (success, sender_of (take 256 (drop 44 latest)))
      | none ↦ (failure, sender)
    ])
    else (failure, sender)
