-- ===== src/Server/Summary/Text.antt =====
-- server/server.go: the text that GetTotalSummary writes.
pub mod Reading
use c_bridge_node.Base.{
  ℕ, ◌*◌, ◌%◌, ◌^◌, Option, none, some, List, [], ◌∷◌, ◌++◌, ◌==◌, if◌then◌else◌,
}
use c_bridge_node.Base.Int.{ℤ, pos, int64}
use c_bridge_node.Base.Maps.{Map}
use c_bridge_node.Base.Text.{Text, codes, decimal, join}
use c_bridge_node.Wire.{Addr}
use c_bridge_node.World.{Fault}
use c_bridge_node.Server.Summary.{Summary, TokenFeeSummary, Chain2ChainBreakDownDetail}

-- Floating-point numbers: float64 with its conversion, division, math.Pow10 and %.2f, and big.Float
-- with NewFloat, SetInt, Mul and String.
pub record Floats : Type 1 where
  pub Float64 : Type 0
  pub from_uint64 : ℕ → Float64
  pub div : Float64 → Float64 → Float64
  pub pow10 : ℤ → Float64
  pub two_places : Float64 → Text
  pub Big : Type 0
  pub new_float : Float64 → Big
  pub set_int : ℤ → Big
  pub mul : Big → Big → Big
  pub big_string : Big → Text

abbrev pub dashes : Text
dashes = codes "------------------------------------------------"

unfoldable pub chain_line : ℕ → ℕ → Text
chain_line src dst = codes "chain " ++ (decimal src ++ (codes " -> chain " ++ decimal dst))

unfoldable pub received_line : ℕ → Text
received_line n = codes "Received " ++ (decimal n ++ codes " transfers")

unfoldable pub processed_line : ℕ → Text
processed_line n = codes "Successfully processed " ++ (decimal n ++ codes " transfers")

module _ (fl : Floats) where
  -- successRate; the product is an uint64.
  unfoldable pub success_rate : Chain2ChainBreakDownDetail → fl.Float64
  success_rate d =
      if d.total_transfer_out_number == 0
      then fl.from_uint64 0
      else fl.div (fl.from_uint64 (d.total_success_transfer_in_number * 100 % 2 ^ 64))
          (fl.from_uint64 d.total_transfer_out_number)

  -- An amount of the smallest unit, in tokens.
  unfoldable pub in_tokens : ℤ → ℕ → Text
  in_tokens amount decimals = fl.big_string (
      fl.mul (fl.set_int amount)
        (fl.new_float (fl.div (fl.from_uint64 1) (fl.pow10 (int64 (pos decimals))))))

  unfoldable pub fee_line : TokenFeeSummary → Text
  fee_line fee =
      codes "Token name: "
      ++ (codes fee.token_name
          ++ (codes ", transfer volume:"
              ++ (in_tokens fee.total_volume fee.token_decimal
                  ++ (b' '
                      ∷ (codes fee.token_name
                          ++ (codes ", earned fee:"
                              ++ (in_tokens fee.fee_amount fee.token_decimal
                                  ++ (b' ' ∷ codes fee.token_name))))))))

  unfoldable pub fee_lines : Map Addr TokenFeeSummary → List Text → List Text
  fee_lines [] later = later
  fee_lines ((token, fee) ∷ fees) later = fee_line fee ∷ fee_lines fees later

  unfoldable pub rate_line : Chain2ChainBreakDownDetail → Text
  rate_line d = codes "Success rate: " ++ (fl.two_places (success_rate d) ++ codes "%")

  -- The lines of every pair of chains, in the order of the map, and the empty line at the end.
  unfoldable pub pair_lines : Summary → List Text
  pair_lines [] = [] ∷ []
  pair_lines ((key, d) ∷ m) =
      chain_line d.src_chain_id d.dst_chain_id
      ∷ (received_line d.total_transfer_out_number
          ∷ (processed_line d.total_success_transfer_in_number
              ∷ (rate_line d ∷ fee_lines d.fee_received (dashes ∷ pair_lines m))))

  unfoldable pub summary_text : Summary → Text
  summary_text m = join (dashes ∷ pair_lines m)

-- What goes to the client: the text, http.Error after a write that failed, http.Error for a bad
-- request, or nothing.
pub data Reply : Type 0 where
  written write_failed : Text → Reply
  refused nothing : Reply

reply_of : Text → Option Fault → Reply
reply_of text none = written text
reply_of text (some e) = write_failed text

-- w.Write
unfoldable pub write : (Text → Option Fault) → Text → Reply
unfolding reply_of
write outcome text = reply_of text (outcome text)

-- GetTotalSummary returns without an answer if the query failed.
unfoldable pub summary_reply : Floats → (Text → Option Fault) → Option Summary → Reply
summary_reply fl outcome none = nothing
summary_reply fl outcome (some m) = write outcome (summary_text fl m)
