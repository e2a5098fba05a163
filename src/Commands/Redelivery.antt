-- ===== src/Commands/Redelivery.antt =====
-- Duplicate suppression in shared/commands.cpp, over whole sequences of commands.
use climate_node.Common.{
  ℕ, ◌≡◌, refl, Bool, true, false, Option, none, some, List, [], ◌∷◌, arith, ◌==◌, if◌then◌else◌,
}
use climate_node.AppChannels.{SensorCmd, set_interval, trigger}
use climate_node.Commands.{
  ack_ok, failed, Command, Node, IsZbus, Dedupe, duplicate_result, forward_to_sensor, apply_command,
  handle_command,
}

-- The commands that do not repeat the sequence number of the one before them, which for the first
-- is `last`, if there is one.
abbrev pub repeats : Option ℕ → Command → Bool
repeats none cmd = false
repeats (some last) cmd = cmd.sequence == last

unfoldable pub distinct_commands : Option ℕ → List Command → List Command
distinct_commands last [] = []
distinct_commands last (cmd ∷ cmds) =
    let rest = distinct_commands (some cmd.sequence) cmds in
    if repeats last cmd then rest else cmd ∷ rest

abbrev pub last_of : Dedupe → Option ℕ
last_of d = if d.have_last_command then some d.last_command_sequence else none

module _ (n : Node) where
  -- Commands as they arrive, one after the other.
  pub handle_all : List Command → Dedupe → n.Bus → n.Bus
  handle_all [] d b = b
  handle_all (cmd ∷ cmds) d b = let (r, d', b') = handle_command n cmd d b in handle_all cmds d' b'

  -- Commands carried out with no regard to what came before.
  pub apply_all : List Command → n.Bus → n.Bus
  apply_all [] b = b
  apply_all (cmd ∷ cmds) b = apply_all cmds (apply_command n cmd b).1

  -- A run of commands, repeats included, does to the bus what carrying out each command once does
  -- that does not repeat the sequence number just before it.
  pub handle_all-distinct_commands :
      (cmds : List Command) (d : Dedupe) (b : n.Bus)
      → handle_all cmds d b ≡ apply_all (distinct_commands (last_of d) cmds) b
  unfolding handle_all apply_all distinct_commands handle_command
  handle_all-distinct_commands [] d b = refl
  handle_all-distinct_commands (cmd ∷ cmds) d b = ground (
    arith,
    handle_all-distinct_commands cmds d b,
    handle_all-distinct_commands cmds
        (record { have_last_command = true; last_command_sequence = cmd.sequence })
        (apply_command n cmd b).1,
  )

  -- A command that arrives again at once changes neither the bus nor the record of the last command,
  -- and is answered OK as a duplicate, whatever the answer was the first time.
  pub handle_command_again :
      (cmd : Command) (d : Dedupe) (b : n.Bus)
      → let (r, d', b') = handle_command n cmd d b in
        handle_command n cmd d' b' ≡ (duplicate_result, d', b')
  unfolding handle_command
  handle_command_again cmd d b = ground arith

  forward_to_sensor-failed :
      IsZbus n
      → (sc : SensorCmd) (b : n.Bus) → (forward_to_sensor n sc b).0.status ≡ failed
      → n.pending (forward_to_sensor n sc b).1 ≡ n.pending b
  unfolding forward_to_sensor
  forward_to_sensor-failed z sc b f = ground (arith, z.drops sc b)

  apply_command-failed :
      IsZbus n
      → (cmd : Command) (b : n.Bus) → (apply_command n cmd b).0.status ≡ failed
      → n.pending (apply_command n cmd b).1 ≡ n.pending b
  unfolding apply_command
  apply_command-failed z cmd b f = ground (
    arith,
    forward_to_sensor-failed z (record { kind = set_interval; interval_ms = cmd.interval_ms }) b,
    forward_to_sensor-failed z (record { kind = trigger; interval_ms = 0 }) b,
  )

  -- So when the bus refused a command and it was answered FAILED, its redelivery is answered OK,
  -- although the sensor thread was never sent anything for it.
  pub handle_command_again_after_failure :
      IsZbus n
      → (cmd : Command) (d : Dedupe) (b : n.Bus) → (handle_command n cmd d b).0.status ≡ failed
      → let (r, d', b') = handle_command n cmd d b in
        let (again, _, b'') = handle_command n cmd d' b' in
        (again.status ≡ ack_ok) × (n.pending b'' ≡ n.pending b)
  unfolding handle_command
  handle_command_again_after_failure z cmd d b f = ground (arith, apply_command-failed z cmd b)
