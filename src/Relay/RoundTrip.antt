-- ===== src/Relay/RoundTrip.antt =====
-- The two threads of gateway/src/relay.cpp on the way of a command: `tx_thread`, a shared access at a
-- time, and the part of `rx_thread` that relays Acks, with the semaphore between them, interleaved in
-- any order. A command is its sequence number here: the gateway knows no more of it.
pub mod Accounting
pub mod LateAck
pub mod Prompt
pub mod Traces
use climate_node.Common.{ℕ, ◌≡◌, List, [], ◌∷◌, ◌++◌}

-- Where the TX thread stands, with the command that it holds.
pub data TxPoint : Type 0 where
  tx_idle : TxPoint  -- in `zbus_sub_wait_msg`
  tx_received : ℕ → TxPoint  -- before `k_sem_reset`
  tx_sending : ℕ → TxPoint  -- in `isotp_send`
  tx_delivered : ℕ → TxPoint  -- the peer has the command, `isotp_send` has not returned
  tx_waiting : ℕ → TxPoint  -- in `k_sem_take`

-- The RX thread between `publish_up` and `k_sem_give`, or elsewhere.
pub data RxPoint : Type 0 where
  rx_idle rx_published : RxPoint

-- An Ack handed to `chan_relay_ack`: the peer's, or one made by the gateway.
pub data UpAck : Type 0 where
  from_peer synthetic : ℕ → UpAck

-- How the TX thread finished with a command.
pub data Verdict : Type 0 where
  answered no_route no_response : ℕ → Verdict

pub record System : Type 0 where
  pub waiting : List ℕ  -- the queue of `relay_cmd_sub`
  pub tx : TxPoint
  pub rx : RxPoint
  pub ack_received : ℕ  -- the semaphore, 0 or 1
  pub unanswered : List ℕ  -- commands that the peer has, and has not answered
  pub acks : List UpAck  -- oldest first
  -- What was accepted and decided, oldest first: a record for the theorems, that no thread reads.
  pub accepted : List ℕ
  pub verdicts : List Verdict

abbrev pub boot_state : System
boot_state = record {
  waiting = [];
  tx = tx_idle;
  rx = rx_idle;
  ack_received = 0;
  unanswered = [];
  acks = [];
  accepted = [];
  verdicts = [];
}

-- A step of one thread, or of what surrounds them: `main.cpp` publishes commands, `isotp_send`
-- succeeds or fails, also after the peer has got the command, and the peer answers what it has in any
-- order and as late as it likes.
pub data Step (s : System) : System → Type 0 where
  command :
      (q : ℕ)
      → Step s (record s { waiting = s.waiting ++ (q ∷ []); accepted = s.accepted ++ (q ∷ []) })
  receive :
      (q : ℕ) (rest : List ℕ)
      → s.tx ≡ tx_idle
      → s.waiting ≡ q ∷ rest
      → Step s (record s { waiting = rest; tx = tx_received q })
  reset : (q : ℕ) → s.tx ≡ tx_received q → Step s (record s { ack_received = 0; tx = tx_sending q })
  deliver :
      (q : ℕ)
      → s.tx ≡ tx_sending q
      → Step s (record s { unanswered = s.unanswered ++ (q ∷ []); tx = tx_delivered q })
  sent : (q : ℕ) → s.tx ≡ tx_delivered q → Step s (record s { tx = tx_waiting q })
  not_sent :
      (q : ℕ)
      → s.tx ≡ tx_sending q
      → Step s (record s {
        acks = s.acks ++ (synthetic q ∷ []);
        verdicts = s.verdicts ++ (no_route q ∷ []);
        tx = tx_idle;
      })
  not_confirmed :
      (q : ℕ)
      → s.tx ≡ tx_delivered q
      → Step s (record s {
        acks = s.acks ++ (synthetic q ∷ []);
        verdicts = s.verdicts ++ (no_route q ∷ []);
        tx = tx_idle;
      })
  take :
      (q : ℕ)
      → s.tx ≡ tx_waiting q
      → s.ack_received ≡ 1
      → Step s
          (record s { ack_received = 0; verdicts = s.verdicts ++ (answered q ∷ []); tx = tx_idle })
  expire :
      (q : ℕ)
      → s.tx ≡ tx_waiting q
      → s.ack_received ≡ 0
      → Step s (record s {
        acks = s.acks ++ (synthetic q ∷ []);
        verdicts = s.verdicts ++ (no_response q ∷ []);
        tx = tx_idle;
      })
  relay_ack :
      (before : List ℕ) (q : ℕ) (after : List ℕ)
      → s.rx ≡ rx_idle
      → s.unanswered ≡ before ++ (q ∷ after)
      → Step s (record s {
        unanswered = before ++ after;
        acks = s.acks ++ (from_peer q ∷ []);
        rx = rx_published;
      })
  give : s.rx ≡ rx_published → Step s (record s { ack_received = 1; rx = rx_idle })

pub data Reach : System → Type 0 where
  booted : Reach boot_state
  next : {s t : System} → Reach s → Step s t → Reach t
