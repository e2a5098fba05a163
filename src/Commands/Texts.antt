-- ===== src/Commands/Texts.antt =====
-- Every text that shared/commands.cpp puts into an Ack is plain ASCII within its field.
use climate_node.Common.{
  ℕ, ◌-◌, ◌<◌, List, [], ◌∷◌, ◌++◌, arith, length, length-take, if_both, ◌==◌,
}
use climate_node.Common.Decimal.{codes, format_u32, All, All-append, All-format_u32, bounded}
use climate_node.Zephyr.{Rc, success, enomsg}
use climate_node.AppChannels.{SensorCmd, set_interval, trigger}
use climate_node.Commands.{
  Node, Command, CommandResult, Dedupe, set_interval_tag, trigger_measurement_tag,
  get_device_info_tag, is_duplicate, detail_size, interval_text, forward_status, forward_to_sensor,
  device_info, apply_command, handle_command,
}
use climate_node.Protocol.{IsAscii, IsText, InfoFits}
use climate_node.Protocol.Acks.{IsText-take}

-- The names that the build gives, and the printed return codes, are texts.
pub record HasTexts (n : Node) : Type 0 where
  pub codes_text : (rc : Rc) → IsText (n.show_rc rc)
  pub board_text : IsText n.board_name
  pub client_text : IsText n.node_client_id

All-mono {ℓ κ μ} :
    {A : Type ℓ} {P : A → Type κ} {Q : A → Type μ}
    → ((x : A) → P x → Q x)
    → (xs : List A) → All P xs
    → All Q xs
All-mono f [] h = tt
All-mono f (x ∷ xs) h = (f x h.0, All-mono f xs h.1)

IsText-append : (xs ys : List ℕ) → IsText xs → IsText ys → IsText (xs ++ ys)
IsText-append = All-append IsAscii

IsText-format_u32 : (n : ℕ) → IsText (format_u32 n)
IsText-format_u32 n = All-mono (λ c h. (omega arith, omega arith)) (format_u32 n) (All-format_u32 n)

-- What a result may hold.
abbrev pub ResultFits : CommandResult → Type 0
ResultFits r = IsText r.detail × InfoFits r.info

interval_text-IsText : (ms : ℕ) → IsText (interval_text ms)
unfolding format_u32
interval_text-IsText ms = IsText-append (codes "interval ") _ (omega arith) (
    IsText-append (format_u32 ms) (codes " outside [1000,300000]") (IsText-format_u32 ms)
      (omega arith))

bounded-IsText : (size : ℕ) (text : List ℕ) → IsText text → IsText (bounded size text)
bounded-IsText size text h = IsText-take (size - 1) text h

length-bounded-lt : (size : ℕ) (text : List ℕ) → 0 < size → length (bounded size text) < size
length-bounded-lt size text h = omega (arith, length-take (size - 1) text)

module _ (n : Node) (h : HasTexts n) where
  forward_status-IsText : (rc : Rc) (sc : SensorCmd) → IsText (forward_status n rc sc).1
  unfolding forward_status
  forward_status-IsText success sc = tt
  forward_status-IsText enomsg sc =
      bounded-IsText detail_size (interval_text sc.interval_ms)
        (interval_text-IsText sc.interval_ms)
  forward_status-IsText rc sc =
      bounded-IsText detail_size (codes "bus publish failed: " ++ n.show_rc _)
        (IsText-append (codes "bus publish failed: ") (n.show_rc _) (omega arith) (h.codes_text _))

  device_info-InfoFits : InfoFits (device_info n)
  unfolding device_info
  device_info-InfoFits = (
    omega arith,
    length-bounded-lt 32 n.board_name (omega arith),
    length-bounded-lt 24 n.node_client_id (omega arith),
    omega arith,
    bounded-IsText 32 n.board_name h.board_text,
    bounded-IsText 24 n.node_client_id h.client_text,
  )

  forward_to_sensor-ResultFits :
      (sc : SensorCmd) (b : n.Bus) → ResultFits (forward_to_sensor n sc b).0
  unfolding forward_to_sensor
  forward_to_sensor-ResultFits sc b = (forward_status-IsText (n.publish sc b).0 sc, omega arith)

  abbrev Fits : CommandResult × n.Bus → Type 0
  Fits r = ResultFits r.0

  apply_command-ResultFits : (cmd : Command) (b : n.Bus) → ResultFits (apply_command n cmd b).0
  unfolding apply_command
  apply_command-ResultFits cmd b =
      if_both Fits (cmd.which_payload == set_interval_tag)
        (forward_to_sensor-ResultFits
          (record { kind = set_interval; interval_ms = cmd.interval_ms }) b)
        (if_both Fits (cmd.which_payload == trigger_measurement_tag)
          (forward_to_sensor-ResultFits (record { kind = trigger; interval_ms = 0 }) b)
          (if_both Fits (cmd.which_payload == get_device_info_tag) (tt, device_info-InfoFits)
            (
              bounded-IsText detail_size
                  (codes "unknown command tag " ++ format_u32 cmd.which_payload)
                  (IsText-append (codes "unknown command tag ") (format_u32 cmd.which_payload)
                    (omega arith) (IsText-format_u32 cmd.which_payload)),
              omega arith,
            )))

  -- Whatever the command, the answer's text is ASCII and the device's names fit their fields.
  pub handle_command-ResultFits :
      (cmd : Command) (d : Dedupe) (b : n.Bus) → ResultFits (handle_command n cmd d b).0
  unfolding handle_command
  handle_command-ResultFits cmd d b =
      if_both (λ (r : CommandResult × Dedupe × n.Bus). ResultFits r.0) (is_duplicate cmd d)
        (omega arith) (apply_command-ResultFits cmd b)
