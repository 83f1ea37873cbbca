-- ===== src/Daemon/Examples.antt =====
-- gate0_daemon.c: clients at concrete values.
use gate.Base.{ℕ, ◌≡◌, ◌+◌, [], ◌∷◌, List, none, some, get_or, length, replicate, u32, ◌==◌, arith}
use gate.Command.{Verify}
use gate.Shadow.{SockAddr, ShadowEntry, malformed, replay, new_entry, blank}
use gate.Daemon.{
  Loop, Ready, tcp, tcp_failed, core_evaluate, decoy_client, handle_tcp_client, rounds,
}
use gate.Daemon.Decoy.{IsSingle, rounds-short, decoy_client-blames_first}
use gate.Daemon.Crash.{complete_command-faults}

abbrev toy : Verify
toy signature message key = get_or signature 0 0 == get_or key 0 1

abbrev address : ℕ → SockAddr
address n = record { s_addr = n; sin_port = 4444 }

abbrev first : ShadowEntry
first = new_entry (address 1) malformed 50

abbrev idle : Loop
idle = record { table = []; last_evict = 0 }

abbrev traffic : List (ℕ × List Ready)
traffic =
    (10, tcp (record { peer = address 1; received = some (replicate 12 0) }) 11 ∷ tcp_failed ∷ [])
    ∷ (20, tcp (record { peer = address 2; received = none }) 21 ∷ [])
    ∷ []

rounds-short_example :
    (l' : Loop) × (rounds (core_evaluate toy) (replicate 512 0) idle traffic ≡ some l')
    × IsSingle l'.table
rounds-short_example =
    rounds-short (core_evaluate toy) (replicate 512 0) idle traffic tt
      ((omega arith, (tt, tt)), ((tt, tt), tt))

decoy_client-blames_first_example :
    let (se, t') = decoy_client (first ∷ []) (address 2) replay 60 in
    let head = get_or t' 0 blank in
    (se ≡ some 0)
    × (length t' ≡ length (first ∷ []))
    × (head.attacker_addr ≡ first.attacker_addr)
    × (head.pattern ≡ first.pattern)
    × (head.attempt_count ≡ u32 (first.attempt_count + 1))
decoy_client-blames_first_example = decoy_client-blames_first first [] (address 2) replay 60

complete_command-faults_example :
    handle_tcp_client
      (core_evaluate toy)
      (replicate 512 0)
      []
      (record { peer = address 1; received = some (replicate 390 0) })
      70
    ≡ none
complete_command-faults_example =
    complete_command-faults toy (replicate 512 0) [] (address 1) (replicate 390 0) 70 (omega arith)
