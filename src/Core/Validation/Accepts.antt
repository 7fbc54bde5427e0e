-- ===== src/Core/Validation/Accepts.antt =====
-- `CommandBatch::validate` and `validate_message_sequence` of rabia-core/src/validation.rs, and what
-- a good batch is.
use rabia.Base.{ℕ, ◌+◌, ◌≤◌, ◌<◌, ◌≡◌, refl, ◌↔◌, List, [], ◌∷◌, arith, length, is_empty-eq, All}
use rabia.Core.Types.{PhaseId, Command, CommandBatch}
use rabia.Core.Error.{ok}
use rabia.Core.Validation.{
  validate_command, validate_commands, validate_batch, validate_message_sequence,
}

-- A command of one byte to one MiB.
abbrev pub IsCommand : Command → Type 0
IsCommand c = (0 < length c.payload) × (length c.payload ≤ 1048576)

abbrev pub AreCommands : List Command → Type 0
AreCommands = All IsCommand

-- One to a thousand good commands, made at most a minute ahead of the clock.
pub record IsBatch (now : ℕ) (b : CommandBatch) : Type 0 where
  pub some_command : 0 < length b.commands
  pub not_too_many : length b.commands ≤ 1000
  pub commands_good : AreCommands b.commands
  pub not_ahead : b.timestamp ≤ now + 60000

validate_command_iff : (c : Command) → (validate_command c ≡ ok tt) ↔ IsCommand c
unfolding validate_command
validate_command_iff c =
    let nonempty = is_empty-eq c.payload in (λ h. ground arith, λ h. ground arith)

validate_commands_iff : (cs : List Command) → (validate_commands cs ≡ ok tt) ↔ AreCommands cs
unfolding validate_commands
validate_commands_iff [] = (λ h. tt, λ h. refl)
validate_commands_iff (c ∷ cs) =
    let head = validate_command_iff c in
    let rest = validate_commands_iff cs in
    (λ h. ground (arith, head.0, rest.0), λ h. ground (arith, head.1 h.0, rest.1 h.1))

-- A batch is accepted exactly when it is well formed.
pub validate_batch_iff :
    (now : ℕ) (b : CommandBatch) → (validate_batch now b ≡ ok tt) ↔ IsBatch now b
unfolding validate_batch
validate_batch_iff now b =
    let nonempty = is_empty-eq b.commands in
    let commands = validate_commands_iff b.commands in
    (
      λ h. record {
        some_command = ground arith;
        not_too_many = ground arith;
        commands_good = commands.0 (ground arith);
        not_ahead = ground arith;
      },
      λ h. ground (arith, commands.1 h.commands_good),
    )

-- A phase may follow another exactly when it comes after it, by at most a thousand.
pub validate_message_sequence_iff :
    (p q : PhaseId) → (validate_message_sequence p q ≡ ok tt) ↔ ((p < q) × (q ≤ p + 1000))
unfolding validate_message_sequence
validate_message_sequence_iff p q = ground arith
