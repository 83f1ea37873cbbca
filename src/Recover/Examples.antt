-- ===== src/Recover/Examples.antt =====
-- wal_test.c and wal_recover.c: a whole write, and one cut short.
use gate.Base.{◌≡◌, ◌≢◌, ◌⊎◌, refl, [], ◌∷◌, ◌++◌, some, none, Bytes, c_string, replicate, arith}
use gate.Recover.{
  WalRecord, record_size, record_bytes, test_text, not_opened, wrote, wal_test_main,
  wal_recover_main,
}
use gate.Recover.RoundTrip.{recover-record, test-recovered}

abbrev zeros : Bytes
zeros = replicate 4 0

test-recovered_example :
    let done = wal_test_main zeros (wrote 200) none in
    ((done.0 ≡ 0)
      × (wrote 200 ≡ wrote record_size)
      × (wal_recover_main done.1 ≡ (0, some (1, test_text))))
    ⊎ ((done.0 ≡ 1) × (wrote 200 ≡ not_opened) × (done.1 ≡ none))
    ⊎ ((done.0 ≡ 1)
        × (wrote 200 ≢ not_opened)
        × (wrote 200 ≢ wrote record_size)
        × (wal_recover_main done.1 ≡ (1, none)))
test-recovered_example = test-recovered zeros none (wrote 200) refl (omega arith)

-- A record with a hash that is not one.
abbrev tampered : WalRecord
tampered = record {
  sequence = 9;
  record_length = 99;
  hash = replicate 32 255;
  payload = replicate 256 b'a';
}

recover-record_example :
    wal_recover_main (some (record_bytes tampered zeros ++ 1 ∷ []))
    ≡ (0, some (9, c_string (replicate 256 b'a' ++ zeros)))
recover-record_example =
    recover-record tampered zeros (1 ∷ [])
      (record { sequence_u64 = omega arith; hash_32 = refl; payload_256 = refl; padding_4 = refl })
