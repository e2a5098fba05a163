-- ===== src/Zephyr.antt =====
-- What the sources use of Zephyr: the return codes that they tell apart, and the calls that set a CAN
-- node up. The numbers of the codes are not the repository's, so a code is its name; `other` stands
-- for the codes that no source names.
use climate_node.Common.{ℕ, Bool, true, false}

pub data Rc : Type 0 where
  success enomsg eagain ebusy enetunreach ealready emsgsize einval : Rc
  isotp_timeout_a isotp_timeout_bs isotp_recv_timeout : Rc
  other : ℕ → Rc

abbrev pub is_success : Rc → Bool
is_success success = true
is_success _ = false

abbrev pub is_already : Rc → Bool
is_already ealready = true
is_already _ = false

pub record FcOpts : Type 0 where
  pub bs : ℕ
  pub stmin : ℕ

-- The calls that set a CAN controller up; a filter has the mask of all the bits of a standard id.
pub data SetUpCall : Type 0 where
  can_start : SetUpCall
  can_add_rx_filter : ℕ → SetUpCall
  isotp_bind : ℕ → ℕ → FcOpts → ℕ → SetUpCall

-- What the calls return; a filter that is added has a number, which is a success here.
pub record SetUp : Type 0 where
  pub device_is_ready : Bool
  pub start_rc : Rc
  pub filter_rc : Rc
  pub bind_rc : Rc
