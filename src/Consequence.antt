-- ===== src/Consequence.antt =====
-- consequence_state.c, consequence_state.h and gate0_signer.c: what the controller knows of the process,
-- rebuilt from the log file, and the request that the signer makes of it. Floating-point numbers
-- are a parameter; what `fopen` gives and the clock are arguments.
pub mod Limits
pub mod Authority
pub mod Entries
pub mod Replay
mod Examples
use gate.Base.{
  ℕ, zero, suc, ◌+◌, ◌-◌, ◌*◌, ◌^◌, ◌%◌, Bool, true, false, ◌||◌, ◌&&◌, List, [], ◌∷◌, ◌++◌, Option,
  none, some, Bytes, bytes_eq, codes, c_string, truthy, ltb, leb, ◌==◌, if◌then◌else◌, u64, take,
  drop, replicate,
}
use gate.Text.{file_lines, strtoull}

abbrev pub cs_authorized : ℕ
cs_authorized = 0

abbrev pub cs_denied_unsafe : ℕ
cs_denied_unsafe = 1

abbrev pub cs_denied_suspend : ℕ
cs_denied_suspend = 2

abbrev pub cs_wal_read_err : ℕ
cs_wal_read_err = 3

-- `double`: the comparison `<`, which is false on a NaN, and the value of zeroed bytes.
pub record Doubles : Type 1 where
  pub Double : Type 0
  pub less : Double → Double → Bool
  pub zeroed : Double

abbrev pub seq_mark : Bytes
seq_mark = codes "SEQ:"

-- What the signer asks for, and what it signs where no message is given.
abbrev pub sign_cap : Bytes
sign_cap = codes "sign"

abbrev pub default_var : Bytes
default_var = codes "default"

unfoldable pub default_message : Bytes
default_message = codes "default_gate0_authorization_payload"

-- What `cs_update_from_wal` is given: a null path, a path that does not open, or the file's bytes.
pub data WalFile : Type 0 where
  no_path not_opened : WalFile
  opened : Bytes → WalFile

module _ (F : Doubles) where
  pub record ProcessVar : Type 0 where
    pub name : Bytes
    pub value : F.Double
    pub min_safe : F.Double
    pub max_safe : F.Double
    pub in_violation : ℕ

  pub record ConsequenceState : Type 0 where
    pub last_sequence : ℕ
    pub commands_executed : ℕ
    pub last_update : ℕ
    pub var_count : ℕ
    pub vars : List ProcessVar
    pub authority_suspended : ℕ
    pub suspension_reason : Bytes

  pub zero_var : ProcessVar
  zero_var = record {
    name = replicate 32 0;
    value = F.zeroed;
    min_safe = F.zeroed;
    max_safe = F.zeroed;
    in_violation = 0;
  }

  -- The state after `memset` and the clock.
  unfoldable pub cleared : ℕ → ConsequenceState
  cleared now = record {
    last_sequence = 0;
    commands_executed = 0;
    last_update = now;
    var_count = 0;
    vars = replicate 32 zero_var;
    authority_suspended = 0;
    suspension_reason = replicate 128 0;
  }

  -- A null `cs` is `none`.
  unfoldable pub cs_init : Option ConsequenceState → ℕ → ℕ × Option ConsequenceState
  cs_init none now = (cs_wal_read_err, none)
  cs_init (some cs) now = (cs_authorized, some (cleared now))

  -- The body of the `while`.
  unfoldable pub read_line : ConsequenceState → Bytes → ConsequenceState
  read_line cs line =
      if bytes_eq (take 4 line) seq_mark
      then record cs {
        last_sequence = strtoull (drop 4 line);
        commands_executed = u64 (cs.commands_executed + 1);
      }
      else cs

  unfoldable pub read_lines : ConsequenceState → List Bytes → ConsequenceState
  read_lines cs [] = cs
  read_lines cs (line ∷ lines) = read_lines (read_line cs line) lines

  unfoldable pub cs_update_from_wal :
      Option ConsequenceState → WalFile → ℕ → ℕ × Option ConsequenceState
  cs_update_from_wal none wal now = (cs_wal_read_err, none)
  cs_update_from_wal (some cs) no_path now = (cs_wal_read_err, some cs)
  cs_update_from_wal (some cs) not_opened now = (cs_wal_read_err, some cs)
  cs_update_from_wal (some cs) (opened file) now =
      (cs_authorized, some (record (read_lines cs (file_lines file)) { last_update = now }))

  abbrev pub out_of_range : ProcessVar → F.Double → Bool
  out_of_range v val = F.less val v.min_safe || F.less v.max_safe val

  -- The `for` over the variables in use: is one of this name out of its range?
  pub any_unsafe : List ProcessVar → Bytes → F.Double → Bool
  any_unsafe [] var val = false
  any_unsafe (v ∷ vs) var val =
      let rest = any_unsafe vs var val in
      if bytes_eq (c_string v.name) var && out_of_range v val then true else rest

  -- `cap` is not looked at.
  unfoldable pub cs_evaluate_token_request : Option ConsequenceState → Bytes → Bytes → F.Double → ℕ
  cs_evaluate_token_request none cap var val = cs_wal_read_err
  cs_evaluate_token_request (some cs) cap var val =
      if truthy cs.authority_suspended
      then cs_denied_suspend
      else if any_unsafe (take cs.var_count cs.vars) var val
      then cs_denied_unsafe
      else cs_authorized

  -- `strncpy` of 127 characters, and the NUL at 127.
  unfoldable pub cs_suspend_authority : Option ConsequenceState → Bytes → Option ConsequenceState
  cs_suspend_authority none reason = none
  cs_suspend_authority (some cs) reason = some (record cs {
    authority_suspended = 1;
    suspension_reason = take 127 (reason ++ replicate 127 0) ++ 0 ∷ [];
  })

  -- `main` of gate0_signer.c: the exit code and, where one is made, the signature. `sign` is
  -- libsodium's, with the new key; `stack` is what the variable held before.
  module _ (sign : Bytes → Bytes) where
    unfoldable pub signer_main :
        Bool → ConsequenceState → WalFile → Option Bytes → ℕ → ℕ → ℕ × Option Bytes
    signer_main sodium stack wal arg now later =
        let message : Bytes = elim arg [ some m ↦ m | none ↦ default_message ] in
        let started = cs_init (some stack) now in
        let read = cs_update_from_wal started.1 wal later in
        let csr = cs_evaluate_token_request read.1 sign_cap default_var F.zeroed in
        if sodium
        then if csr == cs_authorized then (0, some (sign message)) else (csr, none)
        else (1, none)
