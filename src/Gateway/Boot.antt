-- ===== src/Gateway/Boot.antt =====
-- The start of `main` in gateway/src/main.cpp, before its loop: the event counters, and the sessions.
use climate_node.Common.{
  ◌≡◌, sym, subst, ap, Bool, true, ◌&&◌, List, Option, none, some, arith, if◌then◌else◌,
}
use climate_node.AppChannels.{SensorReading}
use climate_node.Relay.{RelayUp, RelayStatus}
use climate_node.Gateway.{session_at_boot, own_config, peer_config}
use climate_node.Gateway.Incoming.{Sessions}
use climate_node.Gateway.Channels.{Channel, Use, uses, mailbox, uses-mailbox}
use climate_node.Gateway.Loop.{Channels, News, arrive}
use climate_node.Gateway.Loop.Runs.{sessions_at_boot}

-- Which of the four calls of `zvfs_eventfd` give a descriptor.
pub record EvtFds : Type 0 where
  pub telemetry : Bool
  pub relay_telemetry : Bool
  pub relay_ack : Bool
  pub relay_status : Bool

-- A counter starts at 0, whatever is on the channel.
abbrev pub create_evt_fd : {A : Type 0} → Bool → Channel A → Channel A
create_evt_fd created c = record c { events = 0; has_fd = created }

unfoldable pub create_evt_fds : EvtFds → Channels → Channels
create_evt_fds f c = record {
  telemetry = create_evt_fd f.telemetry c.telemetry;
  relay_telemetry = create_evt_fd f.relay_telemetry c.relay_telemetry;
  relay_ack = create_evt_fd f.relay_ack c.relay_ack;
  relay_status = create_evt_fd f.relay_status c.relay_status;
}

-- What `main` starts its loop with; none if a descriptor is missing, when it returns.
unfoldable pub main_set_up : EvtFds → Channels → Option (Sessions × Channels)
main_set_up f c =
    if f.telemetry && f.relay_telemetry && f.relay_ack && f.relay_status
    then some (sessions_at_boot, create_evt_fds f c)
    else none

-- What the four channels answer to messages and looks, and four mailboxes that are empty at first.
pub record AllUses : Type 0 where
  pub telemetry : List (Use SensorReading)
  pub relay_telemetry : List (Use RelayUp)
  pub relay_ack : List (Use RelayUp)
  pub relay_status : List (Use RelayStatus)

abbrev pub AnswerAsMailboxes : AllUses → Channels → Type 0
AnswerAsMailboxes u c =
    (uses u.telemetry c.telemetry ≡ mailbox u.telemetry none)
    × (uses u.relay_telemetry c.relay_telemetry ≡ mailbox u.relay_telemetry none)
    × (uses u.relay_ack c.relay_ack ≡ mailbox u.relay_ack none)
    × (uses u.relay_status c.relay_status ≡ mailbox u.relay_status none)

empty_box :
    {A : Type 0} (created : Bool) (c : Channel A) (us : List (Use A))
    → created ≡ true
    → uses us (create_evt_fd created c) ≡ mailbox us none
empty_box created c us h = uses-mailbox us (create_evt_fd created c) h

main_set_up-some :
    (f : EvtFds) (c : Channels) (ss : Sessions) (ready : Channels)
    → main_set_up f c ≡ some (ss, ready)
    → (f.telemetry ≡ true)
      × (f.relay_telemetry ≡ true)
      × (f.relay_ack ≡ true)
      × (f.relay_status ≡ true)
      × (sessions_at_boot ≡ ss)
      × (create_evt_fds f c ≡ ready)
unfolding main_set_up
main_set_up-some f c ss ready h = ground (arith, h)

-- If `main` comes to its loop, whatever was published before: both sessions are idle and due at once;
-- and of each channel, looks find what a mailbox for one message would give that starts empty:
-- nothing from before, and from then on the newest message since the last look, once.
pub main_set_up_lem :
    (f : EvtFds) (early : News) (c : Channels) (u : AllUses) (ss : Sessions) (ready : Channels)
    → main_set_up f (arrive early c) ≡ some (ss, ready)
    → (ss.own ≡ session_at_boot own_config)
      × (ss.peer ≡ session_at_boot peer_config)
      × AnswerAsMailboxes u ready
unfolding create_evt_fds
main_set_up_lem f early c u ss ready h =
    let was = arrive early c in
    let up = main_set_up-some f was ss ready h in
    (
      ap (λ (x : Sessions). x.own) (sym up.4),
      ap (λ (x : Sessions). x.peer) (sym up.4),
      subst (AnswerAsMailboxes u) up.5 (
        empty_box f.telemetry was.telemetry u.telemetry up.0,
        empty_box f.relay_telemetry was.relay_telemetry u.relay_telemetry up.1,
        empty_box f.relay_ack was.relay_ack u.relay_ack up.2,
        empty_box f.relay_status was.relay_status u.relay_status up.3,
      ),
    )
