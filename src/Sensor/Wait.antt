-- ===== src/Sensor/Wait.antt =====
-- How a wait between two samples ends, and what period it leaves.
use climate_node.Common.{
  ℕ, ◌+◌, ◌≤◌, ◌<◌, ◌≡◌, refl, Bool, true, false, inl, inr, ◌↔◌, List, [], ◌∷◌, ◌++◌, leb,
  if◌then◌else◌, not, arith, Bool-cases,
}
use climate_node.AppChannels.{
  SensorCmdKind, set_interval, trigger, sensor_cmd_in_range, in_range_for, sample_period_min_ms,
  sample_period_max_ms,
}
use climate_node.Sensor.{
  Woken, timed_out, elsewhere, commanded, Turn, on_command, on_woken, wait_out,
}

abbrev pub InBounds : ℕ → Type 0
InBounds period_ms = (sample_period_min_ms ≤ period_ms) × (period_ms ≤ sample_period_max_ms)

-- What the channel's validator lets pass: commands in range.
abbrev pub Validated : Woken → Type 0
Validated (commanded cmd) = sensor_cmd_in_range cmd ≡ true
Validated _ = Unit {0}

abbrev pub AllValidated : List Turn → Type 0
AllValidated [] = Unit {0}
AllValidated (t ∷ ts) = Validated t.woken × AllValidated ts

AllValidated-append :
    (ts : List Turn) (t : Turn)
    → AllValidated ts
    → Validated t.woken
    → AllValidated (ts ++ (t ∷ []))
AllValidated-append [] t v w = (w, v)
AllValidated-append (u ∷ ts) t v w = (v.0, AllValidated-append ts t v.1 w)

-- What a set-interval command makes of the period, and which wake-ups end the wait.
abbrev asked : SensorCmdKind → ℕ → ℕ → ℕ
asked set_interval interval_ms period_ms = interval_ms
asked trigger interval_ms period_ms = period_ms

abbrev is_trigger : SensorCmdKind → Bool
is_trigger trigger = true
is_trigger set_interval = false

abbrev pub asked_by : Woken → ℕ → ℕ
asked_by (commanded cmd) period_ms = asked cmd.kind cmd.interval_ms period_ms
asked_by _ period_ms = period_ms

-- The period that the commands among some turns ask for, the last set-interval command first.
abbrev pub last_asked : List Turn → ℕ → ℕ
last_asked [] period_ms = period_ms
last_asked (t ∷ ts) period_ms = last_asked ts (asked_by t.woken period_ms)

abbrev pub ends_wait : Woken → Bool
ends_wait timed_out = true
ends_wait elsewhere = false
ends_wait (commanded cmd) = is_trigger cmd.kind

on_command_lem :
    (k : SensorCmdKind) (i p : ℕ) → on_command k i p ≡ (not (is_trigger k), asked k i p)
unfolding on_command
on_command_lem set_interval i p = refl
on_command_lem trigger i p = refl

on_woken_lem : (w : Woken) (p : ℕ) → on_woken w p ≡ (not (ends_wait w), asked_by w p)
unfolding on_woken
on_woken_lem timed_out p = refl
on_woken_lem elsewhere p = refl
on_woken_lem (commanded cmd) p = on_command_lem cmd.kind cmd.interval_ms p

InBounds-asked :
    (k : SensorCmdKind) (i p : ℕ) → in_range_for k i ≡ true → InBounds p → InBounds (asked k i p)
unfolding in_range_for
InBounds-asked set_interval i p v b = ground arith
InBounds-asked trigger i p v b = b

InBounds-asked_by : (w : Woken) (p : ℕ) → Validated w → InBounds p → InBounds (asked_by w p)
unfolding sensor_cmd_in_range
InBounds-asked_by timed_out p v b = b
InBounds-asked_by elsewhere p v b = b
InBounds-asked_by (commanded cmd) p v b = InBounds-asked cmd.kind cmd.interval_ms p v b

-- One turn more, or the end.
wait_out_step :
    (last p : ℕ) (t : Turn) (ts : List Turn)
    → wait_out last p (t ∷ ts) ≡ (
        if leb (last + p) t.now
        then (true, p)
        else if ends_wait t.woken
        then (true, asked_by t.woken p)
        else wait_out last (asked_by t.woken p) ts)
unfolding wait_out
wait_out_step last p t ts = ground (arith, on_woken_lem t.woken p)

wait_out_none : (last p : ℕ) → wait_out last p [] ≡ (false, p)
unfolding wait_out
wait_out_none last p = refl

-- The wait goes on over exactly the turns whose deadlines are ahead and that no trigger and no
-- timeout ends; each deadline is that of the period asked for before.
abbrev pub GoesOn : ℕ → ℕ → List Turn → Type 0
GoesOn last p [] = Unit {0}
GoesOn last p (t ∷ ts) =
    (t.now < last + p) × (ends_wait t.woken ≡ false) × GoesOn last (asked_by t.woken p) ts

pub wait_out-GoesOn :
    (last p : ℕ) (ts : List Turn) → ((wait_out last p ts).0 ≡ false) ↔ GoesOn last p ts
wait_out-GoesOn last p [] = ground (arith, wait_out_none last p)
wait_out-GoesOn last p (t ∷ ts) =
    let step = wait_out_step last p t ts in
    let rest = wait_out-GoesOn last (asked_by t.woken p) ts in ground (arith, step, rest)

-- Of commands that the validator let pass, only periods within the bounds come.
pub InBounds-wait_out :
    (last p : ℕ) (ts : List Turn) → AllValidated ts → InBounds p → InBounds (wait_out last p ts).1
InBounds-wait_out last p [] v b = ground (arith, wait_out_none last p)
InBounds-wait_out last p (t ∷ ts) v b =
    let step = wait_out_step last p t ts in
    let kept = InBounds-asked_by t.woken p v.0 b in
    let rest = InBounds-wait_out last (asked_by t.woken p) ts v.1 kept in
    ground (arith, step, kept, rest)

goes_on-asked :
    (last p : ℕ) (ts : List Turn)
    → (wait_out last p ts).0 ≡ false
    → (wait_out last p ts).1 ≡ last_asked ts p
goes_on-asked last p [] h = ground (arith, wait_out_none last p)
goes_on-asked last p (t ∷ ts) h =
    let step = wait_out_step last p t ts in
    let rest = goes_on-asked last (asked_by t.woken p) ts in ground (arith, step, rest)

not_GoesOn :
    (last p : ℕ) (ts : List Turn) (t : Turn)
    → AllValidated ts
    → InBounds p
    → last + sample_period_max_ms ≤ t.now
    → ¬ GoesOn last p (ts ++ (t ∷ []))
not_GoesOn last p [] t v b late g = ground arith
not_GoesOn last p (u ∷ ts) t v b late g =
    not_GoesOn last (asked_by u.woken p) ts t v.1 (InBounds-asked_by u.woken p v.0 b) late g.2

-- A wait goes on after some turns exactly if each of them came before the deadline, a sample's time
-- plus the period asked for so far, and none was a timeout or a trigger: a command for a shorter or a
-- longer interval moves the deadline of the very next turn. While it goes on, the period is the one
-- asked for last.
pub wait_out_lem :
    (last p : ℕ) (ts : List Turn)
    → (((wait_out last p ts).0 ≡ false) ↔ GoesOn last p ts)
      × ((wait_out last p ts ≡ (false, last_asked ts p)) ↔ GoesOn last p ts)
wait_out_lem last p ts =
    let iff = wait_out-GoesOn last p ts in
    let period = goes_on-asked last p ts in (iff, ground (arith, iff, period))

-- With commands that passed the validator and a period within the bounds: when the loop comes round
-- at the longest period after the sample or later, the wait is over, whatever came before; and the
-- period it leaves is within the bounds.
pub wait_out_ends :
    (last p : ℕ) (ts : List Turn) (t : Turn)
    → AllValidated ts
    → Validated t.woken
    → InBounds p
    → last + sample_period_max_ms ≤ t.now
    → ((wait_out last p (ts ++ (t ∷ []))).0 ≡ true) × InBounds (wait_out last p (ts ++ (t ∷ []))).1
wait_out_ends last p ts t v w b late =
    let never = not_GoesOn last p ts t v b late in
    let iff = wait_out-GoesOn last p (ts ++ (t ∷ [])) in
    (
      elim (Bool-cases (wait_out last p (ts ++ (t ∷ []))).0) [
        | inl e ↦ e
        | inr e ↦ absurd (never (iff.0 e))
      ],
      InBounds-wait_out last p (ts ++ (t ∷ [])) (AllValidated-append ts t v w) b,
    )
