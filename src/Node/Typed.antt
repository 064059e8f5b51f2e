-- ===== src/Node/Typed.antt =====
-- What every row of the table is like, in every state that the node can come to.
use c_bridge_node.Base.{◌≡◌, ◌≢◌, ap, none, arith}
use c_bridge_node.Base.Lists.{All}
use c_bridge_node.Wire.{TransferStatus, undefined, confirmed, type_undefined, transfer_in}
use c_bridge_node.Transfer.{Row, Time}
use c_bridge_node.World.{World}
use c_bridge_node.Exec.Threads.{Pool}
use c_bridge_node.Dal.{row_of}
use c_bridge_node.Dal.Evolution.{stage}
use c_bridge_node.Dal.Rows.{
  RowLaws, Moves, start-pending, start-locked, pending-start, locked-confirming, locked-refunding,
  confirming-locked, refunding-locked,
}
use c_bridge_node.Server.{Server}
use c_bridge_node.Server.TransferOut.{transfer_out_of, transfer_in_of}
use c_bridge_node.Node.Rows.{Reach-Rows}
use c_bridge_node.Node.Rows.Callbacks.{NewRows}
use c_bridge_node.Node.Threads.{Reach}

-- The row has a type and a status, only a transfer in is at the stage in which it is to be paid, and a
-- confirmed row has its preimage.
pub record IsTyped (r : Row) : Type 0 where
  pub has_type : r.transfer_type ≢ type_undefined
  pub has_status : r.status ≢ undefined
  pub payable : stage r.status ≡ 1 → r.transfer_type ≡ transfer_in
  pub proved : r.status ≡ confirmed → r.preimage ≢ none

-- A row that is neither to be paid nor confirmed has little to show.
plain :
    (r : Row) (to : TransferStatus) (ts : Time)
    → r.transfer_type ≢ type_undefined
    → to ≢ undefined
    → stage to ≢ 1
    → to ≢ confirmed
    → IsTyped (record r { status = to; update_ts = ts })
plain r to ts has_type has_status not_payable not_confirmed = record {
  has_type = has_type;
  has_status = has_status;
  payable = λ e. absurd (not_payable e);
  proved = λ e. absurd (not_confirmed e);
}

IsTyped-move :
    (r : Row) (from to : TransferStatus) (ts : Time)
    → Moves from to
    → r.status ≡ from
    → IsTyped r
    → IsTyped (record r { status = to; update_ts = ts })
IsTyped-move r from to ts start-pending eq t = record {
  has_type = t.has_type;
  has_status = ground arith;
  payable = λ e. t.payable (ap stage eq);
  proved = λ e. ground arith;
}
IsTyped-move r from to ts start-locked eq t =
    plain r _ ts t.has_type (ground arith) (ground arith) (ground arith)
IsTyped-move r from to ts pending-start eq t = record {
  has_type = t.has_type;
  has_status = ground arith;
  payable = λ e. t.payable (ap stage eq);
  proved = λ e. ground arith;
}
IsTyped-move r from to ts locked-confirming eq t =
    plain r _ ts t.has_type (ground arith) (ground arith) (ground arith)
IsTyped-move r from to ts locked-refunding eq t =
    plain r _ ts t.has_type (ground arith) (ground arith) (ground arith)
IsTyped-move r from to ts confirming-locked eq t =
    plain r _ ts t.has_type (ground arith) (ground arith) (ground arith)
IsTyped-move r from to ts refunding-locked eq t =
    plain r _ ts t.has_type (ground arith) (ground arith) (ground arith)

IsTyped-laws : RowLaws IsTyped
IsTyped-laws = record {
  on_preimage = λ r h t. record {
    has_type = t.has_type;
    has_status = t.has_status;
    payable = t.payable;
    proved = λ e. λ k. ground arith;
  };
  on_confirm = λ r h x t. record {
    has_type = t.has_type;
    has_status = ground arith;
    payable = λ e. ground arith;
    proved = λ e k. ground arith;
  };
  on_refund = λ r x t. record {
    has_type = t.has_type;
    has_status = ground arith;
    payable = λ e. ground arith;
    proved = λ e. ground arith;
  };
  on_record = λ r x t. record {
    has_type = t.has_type;
    has_status = ground arith;
    payable = λ e. ground arith;
    proved = λ e. ground arith;
  };
  on_refunded = λ r t. record {
    has_type = t.has_type;
    has_status = ground arith;
    payable = λ e. ground arith;
    proved = λ e. ground arith;
  };
  on_amounts = λ r a b t. record {
    has_type = t.has_type;
    has_status = t.has_status;
    payable = t.payable;
    proved = t.proved;
  };
  on_move = IsTyped-move;
}

IsTyped-new : NewRows IsTyped
unfolding row_of transfer_out_of transfer_in_of
IsTyped-new = record {
  new_out = λ bc ev tx_hash token related ts ts'. record {
    has_type = ground arith;
    has_status = ground arith;
    payable = λ e. ground arith;
    proved = λ e. ground arith;
  };
  new_in = λ bc ev token amount tid time_lock ts ts'. record {
    has_type = ground arith;
    has_status = ground arith;
    payable = λ e. ground arith;
    proved = λ e. ground arith;
  };
}

-- However the effects of the handlers interleave, whatever fails, and whatever the chains, the gateway
-- and the logs say: if every row of the table has a type and a status, a preimage if it is confirmed,
-- and is of a transfer in if it is to be paid or its payment is pending, then every row always does.
pub Reach-IsTyped :
    (s : Server) (w₀ : World) {pool : Pool} {w : World}
    → All IsTyped w₀.table
    → Reach s w₀ pool w
    → All IsTyped w.table
Reach-IsTyped = Reach-Rows IsTyped IsTyped-laws IsTyped-new
