-- ===== src/Layer1.antt =====
-- layer1/eth_utils.go: `BoundContract`, which the monitors are given. What it wraps is go-ethereum's.
use c_bridge_node.Base.{ℕ, ◌*◌, String, Option, none, some, List, [], ◌∷◌}
use c_bridge_node.Transfer.{second}
use c_bridge_node.Wire.{Addr}
use c_bridge_node.World.{Fault, Result, ok, err}

-- abi.JSON, which returns an ABI with its error, bind.NewBoundContract, and the methods of its
-- result. What `select` finds ready is an answer, too.
pub record Binding : Type 1 where
  pub Client : Type 0
  pub Abi : Type 0
  pub Bound : Type 0
  pub Log : Type 0
  pub Event : Type 0
  pub Auth : Type 0
  pub Arg : Type 0
  pub Tx : Type 0
  pub Output : Type 0
  pub parse_abi : String → Abi × Option Fault
  pub new_bound : Addr → Abi → Client → Bound
  pub transact : Bound → Auth → String → List Arg → Result Tx
  -- A view call that is given up after this many nanoseconds
  pub call : Bound → ℕ → String → List Arg → Result (List Output)
  pub watch_logs : Bound → String → Option Fault
  pub ready : Bound → String → Option Log
  pub unpack_log : Bound → String → Log → Result Event
  -- ethtypes.Log{}
  pub empty_log : Log

module _ (b : Binding) where
  open b use {Client, Bound, Log, Event, Auth, Arg, Tx, Output}

  pub record BoundContract : Type 0 where
    pub bound : Bound
    pub addr : Addr
    pub abi : String
    pub conn : Client

  -- The contract is returned with the error, too.
  unfoldable pub new_bound_contract : Client → Addr → String → BoundContract × Option Fault
  new_bound_contract conn addr raw_abi =
      let parsed = b.parse_abi raw_abi in
      (
        record { bound = b.new_bound addr parsed.0 conn; addr = addr; abi = raw_abi; conn = conn },
        parsed.1,
      )

  unfoldable pub get_addr : BoundContract → Addr
  get_addr c = c.addr

  unfoldable pub get_abi : BoundContract → String
  get_abi c = c.abi

  unfoldable pub get_eth_client : BoundContract → Client
  get_eth_client c = c.conn

  unfoldable pub send_transaction : BoundContract → Auth → String → List Arg → Result Tx
  send_transaction c auth method params = b.transact c.bound auth method params

  unfoldable pub call_func : BoundContract → String → List Arg → Result (List Output)
  call_func c method params = b.call c.bound (4 * second) method params

  -- What a call of WatchEvent does to its subscription, in order.
  pub data Subscription : Type 0 where
    subscribed unsubscribed : Subscription

  caught : Option Log → Log
  caught (some log) = log
  caught none = b.empty_log

  watch_unless : Option Fault → Option Log → Result Log × List Subscription
  unfolding caught
  watch_unless (some e) ready = (err e, [])
  watch_unless none ready = (ok (caught ready), subscribed ∷ unsubscribed ∷ [])

  -- The first log, or the empty log if `done` is signalled instead.
  unfoldable pub watch_event : BoundContract → String → Result Log × List Subscription
  unfolding watch_unless
  watch_event c name = watch_unless (b.watch_logs c.bound name) (b.ready c.bound name)

  unfoldable pub parse_event : BoundContract → String → Log → Result Event
  parse_event c name log = b.unpack_log c.bound name log
