-- ===== src/EndToEnd/Interval.antt =====
-- A node's commands on their way to its sensor thread: handle_command of shared/commands.cpp in one
-- thread, zbus_sub_wait_msg in the other, gateway/src/sensor.cpp and peer-node/src/sensor.cpp.
pub mod Runs
mod Tests
use mathlib.Core.List.{append_assoc, append-nil}
use climate_node.Common.{
  ◌≡◌, inl, inr, refl, sym, ap, ◌∙◌, subst, Bool, true, false, Option, none, some, List, [], ◌∷◌,
  ◌++◌, Bool-cases, Option-cases, if◌then◌else◌,
}
use climate_node.Common.Decimal.{All, All-append}
use climate_node.AppChannels.{SensorCmd, sensor_cmd_in_range}
use climate_node.Commands.{
  AckStatus, ack_ok, CommandResult, Command, Node, IsZbus, Dedupe, is_duplicate, handle_command,
}
use climate_node.Commands.Delivery.{
  sensor_cmd_of, Outcome, handle_command-local, handle_command-Outcome,
}

abbrev is_ok : AckStatus → Bool
is_ok ack_ok = true
is_ok _ = false

abbrev as_list : {A : Type 0} → Option A → List A
as_list none = []
as_list (some a) = a ∷ []

abbrev pub InRange : SensorCmd → Type 0
InRange c = sensor_cmd_in_range c ≡ true

module _ (n : Node) where
  -- The message that handling a command answers for: none for a repeat, or if the answer is not OK.
  abbrev pub answered_for : Command → Dedupe → n.Bus → List SensorCmd
  answered_for cmd d b =
      let (r, _, _) = handle_command n cmd d b in
      if is_duplicate cmd d then [] else if is_ok r.status then as_list (sensor_cmd_of cmd) else []

  -- The two threads, interleaved in any way from the bus `b₀`: the messages answered for so far, the
  -- ones that the sensor thread has taken, and the state.
  pub data Served (d₀ : Dedupe) (b₀ : n.Bus)
      : List SensorCmd → List SensorCmd → Dedupe → n.Bus → Type 0 where
    start : Served d₀ b₀ [] [] d₀ b₀
    handled :
        {asked taken : List SensorCmd} {d : Dedupe} {b : n.Bus} (cmd : Command)
        → Served d₀ b₀ asked taken d b
        → Served d₀ b₀
            (asked ++ answered_for cmd d b)
            taken
            (handle_command n cmd d b).1
            (handle_command n cmd d b).2
    took :
        {asked taken : List SensorCmd} {d : Dedupe} {b : n.Bus} (c : SensorCmd) (b' : n.Bus)
        → n.pending b ≡ c ∷ n.pending b'
        → Served d₀ b₀ asked taken d b
        → Served d₀ b₀ asked (taken ++ (c ∷ [])) d b'

module _ (n : Node) (z : IsZbus n) where
  -- What a command adds to the queue, all of it in range.
  abbrev Adds : List SensorCmd → n.Bus → n.Bus → Type 0
  Adds cs b b' = (n.pending b' ≡ n.pending b ++ cs) × All InRange cs

  Adds-nothing : (b b' : n.Bus) → n.pending b' ≡ n.pending b → Adds [] b b'
  Adds-nothing b b' same = (same ∙ sym (append-nil (n.pending b)), tt)

  Adds-none : (ok : Bool) (b b' : n.Bus) → b' ≡ b → Adds (if ok then as_list none else []) b b'
  Adds-none true b b' same = Adds-nothing b b' (ap n.pending same)
  Adds-none false b b' same = Adds-nothing b b' (ap n.pending same)

  Adds-Outcome :
      (sc : SensorCmd) (b b' : n.Bus) (r : CommandResult)
      → Outcome n sc b r b'
      → Adds (if is_ok r.status then as_list (some sc) else []) b b'
  Adds-Outcome sc b b' r (inl (valid, ok, queued)) = rw ok (queued, (valid, tt))
  Adds-Outcome sc b b' r (inr (inl (_, refused, same))) =
      rw refused (Adds-nothing b b' (ap n.pending same))
  Adds-Outcome sc b b' r (inr (inr (_, failed, same))) = rw failed (Adds-nothing b b' same)

  handle_command-again :
      (cmd : Command) (d : Dedupe) (b : n.Bus)
      → is_duplicate cmd d ≡ true
      → Adds (answered_for n cmd d b) b (handle_command n cmd d b).2
  unfolding handle_command
  handle_command-again cmd d b again = rw again (Adds-nothing b b refl)

  handle_command-new :
      (cmd : Command) (d : Dedupe) (b : n.Bus)
      → is_duplicate cmd d ≡ false
      → Adds (answered_for n cmd d b) b (handle_command n cmd d b).2
  handle_command-new cmd d b new =
      let (r, _, b') = handle_command n cmd d b in
      let if_new : answered_for n cmd d b
          ≡ (if is_ok r.status then as_list (sensor_cmd_of cmd) else []) =
        ap (λ q. if q then [] else if is_ok r.status then as_list (sensor_cmd_of cmd) else [])
          new in
      let with_message : (o : Option SensorCmd)
          → sensor_cmd_of cmd ≡ o
          → answered_for n cmd d b ≡ (if is_ok r.status then as_list o else []) =
        λ o e. if_new ∙ ap (λ m. if is_ok r.status then as_list m else []) e in
      elim (Option-cases (sensor_cmd_of cmd)) [
        | inl e ↦
            subst (λ cs. Adds cs b b') (sym (with_message none e))
              (Adds-none (is_ok r.status) b b' (handle_command-local n cmd d b new e).0)
        | inr (sc, e) ↦
            subst (λ cs. Adds cs b b') (sym (with_message (some sc) e))
              (Adds-Outcome sc b b' r (handle_command-Outcome n z cmd d b new e).0)
      ]

  handle_command-Adds :
      (cmd : Command) (d : Dedupe) (b : n.Bus)
      → Adds (answered_for n cmd d b) b (handle_command n cmd d b).2
  handle_command-Adds cmd d b = elim (Bool-cases (is_duplicate cmd d)) [
    | inl again ↦ handle_command-again cmd d b again
    | inr new ↦ handle_command-new cmd d b new
  ]

  -- However the two threads interleave: the messages that the sensor thread has taken, and after them
  -- the ones that still wait, are the ones that waited at first and after them, in order and each
  -- once, the ones that commands answered OK asked for, repeats left out; and all of these are in
  -- range.
  pub served_in_order :
      (d₀ : Dedupe) (b₀ : n.Bus) (d : Dedupe) (b : n.Bus) (asked taken : List SensorCmd)
      → Served n d₀ b₀ asked taken d b
      → (taken ++ n.pending b ≡ n.pending b₀ ++ asked) × All InRange asked
  served_in_order d₀ b₀ d b asked taken start = (sym (append-nil (n.pending b₀)), tt)
  served_in_order d₀ b₀ _ _ _ _ (handled {asked} {taken} {d} {b} cmd run) =
      let before = served_in_order d₀ b₀ d b asked taken run in
      let adds = handle_command-Adds cmd d b in
      let cs = answered_for n cmd d b in
      (
        ap (λ q. taken ++ q) adds.0
            ∙ (sym (append_assoc taken (n.pending b) cs)
                ∙ (ap (λ q. q ++ cs) before.0 ∙ append_assoc (n.pending b₀) asked cs)),
        All-append InRange asked cs before.1 adds.1,
      )
  served_in_order d₀ b₀ _ _ _ _ (took {asked} {taken} {d} {b} c b' front run) =
      let before = served_in_order d₀ b₀ d b asked taken run in
      (
        append_assoc taken (c ∷ []) (n.pending b') ∙ (ap (λ q. taken ++ q) (sym front) ∙ before.0),
        before.1,
      )
