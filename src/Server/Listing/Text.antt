-- ===== src/Server/Listing/Text.antt =====
-- server/server.go: the text of GetTransfer's page, or of its errors.
use c_bridge_node.Base.{String, Option, List, ◌++◌, map}
use c_bridge_node.Base.Text.{Text, codes, decimal, integer, join}
use c_bridge_node.Wire.{
  Addr, TransferStatus, undefined, locked, confirmed, refunded, transfer_in_start,
  transfer_in_pending, confirm_pending, refund_pending, TransferType, type_undefined, transfer_out,
  transfer_in,
}
use c_bridge_node.Transfer.{Time}
use c_bridge_node.World.{Fault}
use c_bridge_node.Server.Listing.{Line, Response, page, bad_request}
use c_bridge_node.Server.Summary.Text.{Reply, refused, write}

-- TransferStatus_name
unfoldable pub status_name : TransferStatus → Text
status_name undefined = codes "TRANSFER_STATUS_UNDEFINED"
status_name locked = codes "TRANSFER_STATUS_LOCKED"
status_name confirmed = codes "TRANSFER_STATUS_CONFIRMED"
status_name refunded = codes "TRANSFER_STATUS_REFUNDED"
status_name transfer_in_start = codes "TRANSFER_STATUS_TRANSFER_IN_START"
status_name transfer_in_pending = codes "TRANSFER_STATUS_TRANSFER_IN_PENDING"
status_name confirm_pending = codes "TRANSFER_STATUS_CONFIRM_PENDING"
status_name refund_pending = codes "TRANSFER_STATUS_REFUND_PENDING"

-- TransferType_name
unfoldable pub type_name : TransferType → Text
type_name type_undefined = codes "TRANSFER_TYPE_UNDEFINED"
type_name transfer_out = codes "TRANSFER_TYPE_OUT"
type_name transfer_in = codes "TRANSFER_TYPE_IN"

-- The texts of an address and of a time are those of their libraries.
module _ (addr_string : Addr → String) (time_string : Time → Text) where
  unfoldable pub line_text : Line → Text
  unfolding status_name type_name
  line_text line =
      codes "userAddr:"
      ++ (codes (addr_string line.user_addr)
          ++ (codes ", chain "
              ++ (decimal line.src_chain
                  ++ (codes " -> chain "
                      ++ (decimal line.dst_chain
                          ++ (codes " ,transferAmount:"
                              ++ (integer line.transfer_amount
                                  ++ (codes ", createTs:"
                                      ++ (time_string line.create_ts
                                          ++ (codes ", type:"
                                              ++ (type_name line.tx_type
                                                  ++ (codes ", status:"
                                                      ++ status_name line.tx_status))))))))))))

  unfoldable pub page_text : List Line → Text
  page_text lines = join (map line_text lines)

  -- A bad request is answered by http.Error; a page is written.
  unfoldable pub transfer_reply : (Text → Option Fault) → Response → Reply
  transfer_reply outcome (page lines) = write outcome (page_text lines)
  transfer_reply outcome bad_request = refused
