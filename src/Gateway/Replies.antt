-- ===== src/Gateway/Replies.antt =====
-- What an accepted reply of the gateway is.
use c_bridge_node.Base.{◌≡◌, refl, sym, ap, ◌∙◌, Option, none, some, arith}
use c_bridge_node.Wire.{ErrMsg, PingRequest, PingResponse}
use c_bridge_node.World.{World, Result, ok, err}
use c_bridge_node.Exec.{perform, ◌>>=◌}
use c_bridge_node.Gateway.{unless_err_msg, ping_response, ping_gateway}

unless_err_msg-ok :
    (e : Option ErrMsg) (q resp : PingResponse)
    → unless_err_msg e q ≡ ok resp
    → (e ≡ none) × (q ≡ resp)
unfolding unless_err_msg
unless_err_msg-ok none q resp h = (refl, cc)
unless_err_msg-ok (some e) q resp h = ground arith

ping_response-ok :
    (r : Result PingResponse) (resp : PingResponse)
    → ping_response r ≡ ok resp
    → (r ≡ ok resp) × (resp.err ≡ none)
unfolding ping_response
ping_response-ok (err e) resp h = ground arith
ping_response-ok (ok q) resp h =
    let (no_err, same) = unless_err_msg-ok q.err q resp h in
    (ap ok same, ap (λ x. x.err) (sym same) ∙ no_err)

-- A ping succeeds only with the client's own response, which has no error in it.
pub ping_gateway-ok :
    (req : PingRequest) (w : World) (resp : PingResponse)
    → (perform (ping_gateway req) w).0 ≡ ok resp
    → (w.env.rpc_ping w.steps req ≡ ok resp) × (resp.err ≡ none)
unfolding ping_gateway ◌>>=◌
ping_gateway-ok req w resp h = ping_response-ok (w.env.rpc_ping w.steps req) resp h
