-- ===== src/Recover.antt =====
-- wal_test.c and wal_recover.c: one record is written to the log file, and the first record is read back from
-- it. What `open` and `write` give is an argument; so are the bytes that pad the struct.
pub mod RoundTrip
mod Examples
use gate.Base.{
  ℕ, ◌+◌, List, [], ◌∷◌, ◌++◌, Option, none, some, Bytes, codes, c_string, length, take, drop,
  replicate, ◌==◌, if◌then◌else◌, le_bytes, of_le,
}

-- `wal_record_t`
pub record WalRecord : Type 0 where
  pub sequence : ℕ
  pub record_length : ℕ
  pub hash : Bytes
  pub payload : Bytes

-- `sizeof(wal_record_t)`: 300 bytes of fields, and 4 that pad it to a multiple of 8.
abbrev pub record_size : ℕ
record_size = 304

-- The struct in memory.
unfoldable pub record_bytes : WalRecord → Bytes → Bytes
record_bytes r padding =
    le_bytes 8 r.sequence ++ (le_bytes 4 r.record_length ++ (r.hash ++ (r.payload ++ padding)))

abbrev pub test_text : Bytes
test_text = codes "wal_crash_recovery_test"

unfoldable pub test_record : WalRecord
test_record = record {
  sequence = 1;
  record_length = 23;
  hash = replicate 32 0;
  payload = test_text ++ replicate 233 0;
}

-- How the calls of wal_test.c end: `open` fails, `write` fails, or `write` returns a number.
pub data Write : Type 0 where
  not_opened not_written : Write
  wrote : ℕ → Write

-- `main` of wal_test.c: the exit code and the file, none if there is none. `open` makes it or empties it.
unfoldable pub wal_test_main : Bytes → Write → Option Bytes → ℕ × Option Bytes
wal_test_main padding not_opened file = (1, file)
wal_test_main padding not_written file = (1, some [])
wal_test_main padding (wrote n) file =
    (if n == record_size then 0 else 1, some (take n (record_bytes test_record padding)))

-- `main` of wal_recover.c: the exit code and what is printed, the number and the text up to its NUL. `none`
-- is a file that cannot be opened. The text is read on into the padding if it has no NUL.
unfoldable pub wal_recover_main : Option Bytes → ℕ × Option (ℕ × Bytes)
wal_recover_main none = (1, none)
wal_recover_main (some file) =
    let rec = take record_size file in
    if length rec == record_size
    then (0, some (of_le (take 8 rec), c_string (drop 44 rec)))
    else (1, none)
