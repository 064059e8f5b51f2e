-- ===== src/Gateway.antt =====
-- server/gateway.go: the gateway client. The RPC client and its connection are the environment's.
pub mod Replies
use Prim.Native.Char.{code}
use Prim.Native.String.{[], ◌∷◌}
use c_bridge_node.Base.{
  ℕ, ◌+◌, ◌*◌, ◌-◌, String, Bool, true, false, ◌&&◌, Option, none, some, leb, ◌==◌, if◌then◌else◌,
}
use c_bridge_node.Base.Int.{ℤ, pos, sub_ℕ}
use c_bridge_node.Wire.{Hash, GetFeeResponse, PingRequest, PingResponse, ErrMsg}
use c_bridge_node.World.{gateway_failed, Result, ok, err}
use c_bridge_node.Exec.{M, pure, ask, ◌>>=◌}

digits_from : ℕ → String → Option ℕ
digits_from n [] = some n
digits_from n (ch ∷ rest) =
    let c = code ch in
    let later = digits_from (n * 10 + (c - 48)) rest in if leb 48 c && leb c 57 then later else none

-- One digit or more.
unfoldable pub digits : String → Option ℕ
unfolding digits_from
digits [] = none
digits (ch ∷ rest) = digits_from 0 (ch ∷ rest)

signed : Bool → Option ℕ → Option ℤ
signed negative none = none
signed negative (some n) = some (if negative then sub_ℕ 0 n else pos n)

-- new(big.Int).SetString(s, 10)
unfoldable pub set_string : String → Option ℤ
unfolding digits signed
set_string [] = none
set_string (ch ∷ rest) =
    if code ch == 45
    then signed true (digits rest)
    else if code ch == 43
    then signed false (digits rest)
    else signed false (digits (ch ∷ rest))

parsed_fee : Option ℤ → Result ℤ
parsed_fee none = err gateway_failed
parsed_fee (some fee) = ok fee

fee_unless : Option ErrMsg → String → Result ℤ
unfolding parsed_fee
fee_unless (some e) fee = err gateway_failed
fee_unless none fee = parsed_fee (set_string fee)

unfoldable pub fee_of_response : Result GetFeeResponse → Result ℤ
unfolding fee_unless
fee_of_response (err e) = err e
fee_of_response (ok resp) = fee_unless resp.err resp.fee

unfoldable pub get_fee : Hash → M (Result ℤ)
get_fee transfer_out_id = do
  resp ← ask (λ env n. env.rpc_get_fee n transfer_out_id)
  pure (fee_of_response resp)

unless_err_msg : Option ErrMsg → PingResponse → Result PingResponse
unless_err_msg (some e) resp = err gateway_failed
unless_err_msg none resp = ok resp

ping_response : Result PingResponse → Result PingResponse
unfolding unless_err_msg
ping_response (err e) = err e
ping_response (ok resp) = unless_err_msg resp.err resp

unfoldable pub ping_gateway : PingRequest → M (Result PingResponse)
unfolding ping_response
ping_gateway req = do resp ← ask (λ env n. env.rpc_ping n req); pure (ping_response resp)
