-- ===== src/Persist/Examples.antt =====
-- src/persistence.c: writes and recovery at concrete values.
use gate.Base.{ℕ, ◌≡◌, refl, true, [], ◌∷◌, List, Bytes, replicate, arith}
use gate.Command.{SenderRecord}
use gate.Persist.{success, failure, record_size, persist_sender_state, recover_sender_state}
use gate.Persist.Layout.{IsSender}
use gate.Persist.Recovery.{records, recover-persist}
use gate.Persist.Torn.{recover-torn, recover_misaligned}

abbrev sender : ℕ → SenderRecord
sender n = record { public_key = replicate 32 n; last_sequence = n; used = true }

abbrev older : List Bytes
older = replicate 304 0 ∷ []

sender-IsSender : IsSender (sender 5)
sender-IsSender = record { key_32 = refl; sequence_u64 = omega arith }

sender_next-IsSender : IsSender (sender 6)
sender_next-IsSender = record { key_32 = refl; sequence_u64 = omega arith }

recover-persist_example :
    let done = persist_sender_state (records older) (sender 5) 5 true record_size in
    (done.0 ≡ success) × (recover_sender_state done.1 true (sender 9) ≡ (success, sender 5))
recover-persist_example = recover-persist older (sender 5) (sender 9) 5 (refl, tt) sender-IsSender

recover-torn_example :
    let done = persist_sender_state (records older) (sender 5) 5 true 100 in
    (done.0 ≡ failure)
    × (recover_sender_state done.1 true (sender 9)
        ≡ recover_sender_state (records older) true (sender 9))
recover-torn_example =
    recover-torn older (sender 5) (sender 9) 5 100 (refl, tt) sender-IsSender (omega arith)

recover_misaligned_example :
    let torn = persist_sender_state (records older) (sender 5) 5 true 100 in
    let done = persist_sender_state torn.1 (sender 6) 6 true record_size in
    (done.0 ≡ success) × (recover_sender_state done.1 true (sender 9) ≡ (success, sender 5))
recover_misaligned_example =
    recover_misaligned older (sender 5) (sender 6) (sender 9) 5 6 100 (refl, tt) sender-IsSender
      sender_next-IsSender (omega arith) (omega arith)
