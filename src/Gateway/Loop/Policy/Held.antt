-- ===== src/Gateway/Loop/Policy/Held.antt =====
-- What the channels of the loop of gateway/src/main.cpp hold, by kind of message, and the stages that
-- publish it.
use climate_node.Common.{Bool, List, [], ◌∷◌, if_both, ◌&&◌}
use climate_node.Common.Decimal.{All}
use climate_node.Protocol.{Nanopb}
use climate_node.Gateway.{NodeSession}
use climate_node.Gateway.Lifecycle.{is_serving}
use climate_node.Gateway.Outgoing.{Slot, Sent}
use climate_node.Gateway.Channels.{Channel, chan_pubs, chan_pub, read_events, has_events}
use climate_node.Gateway.Loop.{Channels, StageInput, LoopInput, News, slot_of, stage_on}
use climate_node.Gateway.Loop.Policy.{HasTopics, Kinds}
use climate_node.Gateway.Loop.Policy.Sessions.{Sound}
use climate_node.Gateway.Loop.Policy.Publishing.{SendsSoundly, Sound-stage, IfRead}

-- The claims hold of what the channels hold.
abbrev pub Hold : Kinds → Channels → Type 0
Hold kinds c =
    kinds.reading c.telemetry.value
    × kinds.telemetry c.relay_telemetry.value
    × kinds.ack c.relay_ack.value

-- They hold of what the other threads publish, in some while and in some passes.
abbrev pub Brings : Kinds → News → Type 0
Brings kinds news =
    All kinds.reading news.telemetry
    × All kinds.telemetry news.relay_telemetry
    × All kinds.ack news.relay_ack

abbrev pub BringsAll : Kinds → List LoopInput → Type 0
BringsAll kinds [] = Unit {0}
BringsAll kinds (i ∷ is) = Brings kinds i.news × Brings kinds i.late_news × BringsAll kinds is

pub value-chan_pubs :
    {A : Type 0} (P : A → Type 0) (ms : List A) (c : Channel A)
    → All P ms
    → P c.value
    → P (chan_pubs ms c).value
unfolding chan_pubs chan_pub
value-chan_pubs P [] c all h = h
value-chan_pubs P (m ∷ ms) c all h =
    value-chan_pubs P ms (chan_pub m c) all.1
      (if_both (λ (d : Channel _). P d.value) c.has_fd all.0 all.0)

pub value-stage_on :
    {A : Type 0} (P : A → Type 0) (f : Slot A → NodeSession → Sent) (ready : Bool) (i : StageInput)
    (c : Channel A) (s : NodeSession)
    → P c.value
    → let (calls, s', c') = stage_on f ready i c s in P c'.value
unfolding stage_on read_events
value-stage_on P f ready i c s h =
    if_both (λ (d : Channel _). P d.value) (ready && is_serving s.state)
      (if_both (λ (r : Bool × Channel _). P r.1.value) (has_events c) h h) h

-- A stage, when the claim holds of what is on its channel.
pub Sound-stage_on :
    (pb : Nanopb) (kinds : Kinds) {A : Type 0} (P : A → Type 0) (f : Slot A → NodeSession → Sent)
    (ready : Bool) (i : StageInput) (c : Channel A) (s : NodeSession)
    → SendsSoundly pb kinds P f
    → P c.value
    → HasTopics s.config
    → let (calls, s', c') = stage_on f ready i c s in Sound pb kinds (calls, s')
unfolding stage_on slot_of
Sound-stage_on pb kinds P f ready i c s k v h =
    Sound-stage pb kinds P f (slot_of ready i c) s k (if_both (IfRead pb kinds P) i.can_read v tt) h
