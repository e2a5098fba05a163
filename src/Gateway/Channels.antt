-- ===== src/Gateway/Channels.antt =====
-- The channels between the other threads and the main loop of gateway/src/main.cpp: a zbus channel,
-- which holds the last message, and the counter of the eventfd that its listener writes to.
use climate_node.Common.{
  ℕ, ◌+◌, ◌≡◌, refl, Bool, true, false, List, [], ◌∷◌, Option, none, some, ltb, if◌then◌else◌,
  arith, ap, ◌∙◌, inl, inr, Bool-cases,
}

pub record Channel (A : Type 0) : Type 0 where
  pub value : A  -- all zeros before the first message
  pub events : ℕ
  pub has_fd : Bool  -- the descriptor is not -1

-- The four listeners.
abbrev pub notify : {A : Type 0} → Channel A → Channel A
notify c = if c.has_fd then record c { events = c.events + 1 } else c

-- A `zbus_chan_pub` that succeeds: the message is stored, then the listener runs.
unfoldable pub chan_pub : {A : Type 0} → A → Channel A → Channel A
chan_pub m c = notify (record c { value = m })

unfoldable pub chan_pubs : {A : Type 0} → List A → Channel A → Channel A
chan_pubs [] c = c
chan_pubs (m ∷ ms) c = chan_pubs ms (chan_pub m c)

-- Reading the counter, which has the result 0 only if there was an event, and sets it to 0.
abbrev pub has_events : {A : Type 0} → Channel A → Bool
has_events c = ltb 0 c.events

unfoldable pub read_events : {A : Type 0} → Channel A → Bool × Channel A
read_events c = if has_events c then (true, record c { events = 0 }) else (false, c)

-- How `zbus_chan_read` answers.
abbrev pub chan_read : {A : Type 0} → Bool → Channel A → Option A
chan_read can_read c = if can_read then some c.value else none

-- What a look at a channel takes from it: nothing if no event is counted, or if the channel, which
-- may be locked, cannot be read. It reads the counter first and then the channel; what the other
-- threads publish in between is in the channel by then, and counted again.
unfoldable pub take_news : {A : Type 0} → List A → Bool → Channel A → Option A × Channel A
take_news between can_read c =
    let (signalled, counted) = read_events c in
    let c' = chan_pubs between counted in ((if signalled then chan_read can_read c' else none), c')

-- The newest of some messages, if there is one, or else what was there before.
abbrev pub newest : {A : Type 0} → Option A → List A → Option A
newest box [] = box
newest box (m ∷ ms) = newest (some m) ms

-- What the threads do with a channel; a look comes with the messages that are published while it is
-- under way.
pub data Use (A : Type 0) : Type 0 where
  message : A → Use A
  look : List A → Bool → Use A

-- What a look finds in a box that holds at most one message.
abbrev pub found_in : {A : Type 0} → Option A → List A → Option A
found_in none between = none
found_in (some m) between = newest (some m) between

module _ {A : Type 0} where
  unfoldable pub uses : List (Use A) → Channel A → List (Option A)
  uses [] c = []
  uses (message m ∷ us) c = uses us (chan_pub m c)
  uses (look between can_read ∷ us) c =
      let (found, c') = take_news between can_read c in found ∷ uses us c'

  -- The channel as a mailbox with room for one message, which a message replaces and a look empties.
  -- Messages that come during the look are in the box after it.
  unfoldable pub mailbox : List (Use A) → Option A → List (Option A)
  mailbox [] box = []
  mailbox (message m ∷ us) box = mailbox us (some m)
  mailbox (look between can_read ∷ us) box =
      (if can_read then found_in box between else none) ∷ mailbox us (newest none between)

  abbrev pub pending : Channel A → Option A
  pending c = if has_events c then some c.value else none

  pub pending-chan_pub : (m : A) (c : Channel A) → c.has_fd ≡ true → pending (chan_pub m c) ≡ some m
  unfolding chan_pub
  pending-chan_pub m c h = ground (arith, h)

  pub has_fd-chan_pub : (m : A) (c : Channel A) → c.has_fd ≡ true → (chan_pub m c).has_fd ≡ true
  unfolding chan_pub
  has_fd-chan_pub m c h = ground (arith, h)

  pending-chan_pubs :
      (ms : List A) (c : Channel A)
      → c.has_fd ≡ true
      → (pending (chan_pubs ms c) ≡ newest (pending c) ms) × ((chan_pubs ms c).has_fd ≡ true)
  unfolding chan_pubs
  pending-chan_pubs [] c h = (refl, h)
  pending-chan_pubs (m ∷ ms) c h =
      let (box, kept) = pending-chan_pubs ms (chan_pub m c) (has_fd-chan_pub m c h) in
      (box ∙ ap (λ b. newest b ms) (pending-chan_pub m c h), kept)

  -- The value of a channel after some messages, whether they are counted or not.
  value-chan_pubs :
      (ms : List A) (c : Channel A) → some (chan_pubs ms c).value ≡ newest (some c.value) ms
  unfolding chan_pubs chan_pub
  value-chan_pubs [] c = refl
  value-chan_pubs (m ∷ ms) c =
      value-chan_pubs ms (chan_pub m c) ∙ ap (λ v. newest (some v) ms) (ground arith)

  read_events_lem :
      (c : Channel A)
      → let (signalled, c') = read_events c in
        (signalled ≡ has_events c)
        × (pending c' ≡ none)
        × (c'.has_fd ≡ c.has_fd)
        × (c'.value ≡ c.value)
  unfolding read_events
  read_events_lem c = ground arith

  found_in-pending :
      (between : List A) (c : Channel A)
      → found_in (pending c) between
        ≡ (if has_events c then newest (some c.value) between else none)
  found_in-pending between c = elim (Bool-cases (has_events c)) [
    | inl some_event ↦ rw (some_event) refl
    | inr no_event ↦ rw (no_event) refl
  ]

  take_news_lem :
      (between : List A) (can_read : Bool) (c : Channel A)
      → c.has_fd ≡ true
      → let (found, c') = take_news between can_read c in
        (found ≡ (if can_read then found_in (pending c) between else none))
        × (pending c' ≡ newest none between)
        × (c'.has_fd ≡ true)
  unfolding take_news
  take_news_lem between can_read c h =
      let c1 = (read_events c).1 in
      let (signalled, empty, fd, same) = read_events_lem c in
      let (box, kept) = pending-chan_pubs between c1 (fd ∙ h) in
      let value = value-chan_pubs between c1 ∙ ap (λ v. newest (some v) between) same in
      (
        ground (arith, signalled, value, found_in-pending between c),
        box ∙ ap (λ b. newest b between) empty,
        kept,
      )

  -- Once its descriptor exists, a channel with its counter is a mailbox for one message, in any order
  -- of messages and looks, with messages also while a look is under way, between its reading the
  -- counter and its reading the channel. A look that begins with the box empty finds nothing. One that
  -- begins with a message in the box, if the channel can be read, finds the newest, also if that comes
  -- while it is under way. The newest of the messages that come while a look is under way is in the
  -- box after it, until a newer one replaces it or the next look empties the box, whether or not it
  -- has been found already; every other message is found once at most. Older messages are lost, and
  -- so is what a look would have found if the channel cannot be read.
  pub uses-mailbox :
      (us : List (Use A)) (c : Channel A) → c.has_fd ≡ true → uses us c ≡ mailbox us (pending c)
  unfolding uses mailbox
  uses-mailbox [] c h = refl
  uses-mailbox (message m ∷ us) c h =
      uses-mailbox us (chan_pub m c) (has_fd-chan_pub m c h)
      ∙ ap (mailbox us) (pending-chan_pub m c h)
  uses-mailbox (look between can_read ∷ us) c h =
      let (found, box, fd) = take_news_lem between can_read c h in
      let rest = uses-mailbox us (take_news between can_read c).1 fd in rw (found, rest, box) refl
