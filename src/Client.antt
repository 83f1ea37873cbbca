-- ===== src/Client.antt =====
-- src/gate0_client.c and gate0_client.c: the programs that speak to the gate. The first fills in the command of
-- src/gate0_core.c, whose structs no header under src/ declares: how it lies in memory is a parameter,
-- and so are libsodium's signatures and AUTH_OPERATOR.
pub mod Runs
mod Examples
use gate.Base.{
  ℕ, Bool, List, [], ◌∷◌, ◌++◌, Option, none, some, Bytes, ◌==◌, length, of_le, if◌then◌else◌,
}
use gate.Sockets.{Effect, opened, sent, received, closed}
use gate.Strict.{StrictEnvelope, StrictCommand}

-- What `socket`, `connect` and `read` give; none is an error.
pub record Calls : Type 0 where
  pub descriptor : Option ℕ
  pub connects : Bool
  pub reply : Option Bytes

-- The exit code, the code that is printed, if one is, and what took effect.
pub record Outcome : Type 0 where
  pub exit : ℕ
  pub printed : Option ℕ
  pub effects : List Effect

-- src/gate0_client.c.
module _ (bytes_of : StrictEnvelope → Bytes) (sign : Bytes → Bytes → Bytes)
    (auth_operator : ℕ) where
  abbrev pub client_envelope : StrictEnvelope
  client_envelope = record {
    protocol_version = 0x01;
    command_id = 501;
    node_id = 0x01;
    sequence_number = 1;
    issued_at_ns = 1750000000000000;
    expires_at_ns = 1750000001000000;
    command_type = 0x01;
    required_authority = auth_operator;
  }

  -- With the key pair of this run.
  abbrev pub client_command : Bytes → Bytes → StrictCommand
  client_command pk sk = record {
    envelope = client_envelope;
    signature = sign (bytes_of client_envelope) sk;
    sender_pubkey = pk;
  }

  -- `read`, the test of its length, and what is printed.
  abbrev pub read_code : Option Bytes → Option ℕ
  read_code none = none
  read_code (some bytes) = if length bytes == 4 then some (of_le bytes) else none

  abbrev pub taken : ℕ → Option Bytes → List Effect
  taken sock none = []
  taken sock (some bytes) = received sock bytes ∷ []

  pub client_main : (StrictCommand → Bytes) → Bytes → Bytes → Calls → Outcome
  client_main command_bytes pk sk o = elim o.descriptor [
    | none ↦ record { exit = 1; printed = none; effects = [] }
    | some sock ↦
        if o.connects
        then record {
          exit = 0;
          printed = read_code o.reply;
          effects =
              opened sock
              ∷ sent sock (command_bytes (client_command pk sk))
              ∷ (taken sock o.reply ++ closed sock ∷ []);
        }
        else record { exit = 1; printed = none; effects = opened sock ∷ closed sock ∷ [] }
  ]

-- gate0_client.c: whether a daemon was found in place of what is printed.
pub probe_main : Calls → Outcome
probe_main o = elim o.descriptor [
  | none ↦ record { exit = 1; printed = none; effects = [] }
  | some sock ↦
      if o.connects
      then record { exit = 0; printed = some 1; effects = opened sock ∷ closed sock ∷ [] }
      else record { exit = 0; printed = some 0; effects = opened sock ∷ [] }
]
