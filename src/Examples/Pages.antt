-- ===== src/Examples/Pages.antt =====
-- The text of a page at a concrete input.
use c_bridge_node.Base.{ℕ, ◌≡◌, ◌↔◌, [], ◌∷◌, arith}
use c_bridge_node.Base.Int.{ℤ, pos}
use c_bridge_node.Base.Text.{codes}
use c_bridge_node.Server.Summary.{Summary, Key}
use c_bridge_node.Server.Summary.Keys.{key_text, key_text_iff}
use c_bridge_node.Server.Summary.Text.{Floats, summary_text}
use c_bridge_node.Server.Summary.Text.Reading.{
  PrintsOnLines, read_summary, counts, read_summary-summary_text,
}

-- Floating-point numbers that are all printed alike.
abbrev printed : Floats
printed = record {
  Float64 = ℕ;
  from_uint64 = λ n. n;
  div = λ a b. a;
  pow10 = λ z. 1;
  two_places = λ x. codes "71.43";
  Big = ℤ;
  new_float = λ x. pos x;
  set_int = λ z. z;
  mul = λ a b. a;
  big_string = λ z. codes "1.5";
}

printed-PrintsOnLines : PrintsOnLines printed
printed-PrintsOnLines = record { rate = λ x. omega arith; amount = λ z. omega arith }

-- Seven transfers from chain 1 to chain 2, of which five were paid.
abbrev two_chains : Summary
two_chains =
    (
      record { src = 1; dst = 2 },
      record {
        src_chain_id = 1;
        dst_chain_id = 2;
        total_transfer_out_number = 7;
        total_success_transfer_in_number = 5;
        fee_received =
            (
              1,
              record {
                token_name = "USDT";
                token_addr = 1;
                fee_amount = pos 30;
                total_volume = pos 970;
                token_decimal = 6;
              },
            )
            ∷ [];
        gas_cost = pos 0;
        gas_decimal = 18;
        gas_token_name = "ETH";
      },
    )
    ∷ []

read_summary-summary_text_example :
    read_summary (summary_text printed two_chains) ≡ (1 ∷ 2 ∷ []) ∷ ((7 ∷ []) ∷ ((5 ∷ []) ∷ []))
unfolding counts
read_summary-summary_text_example =
    read_summary-summary_text printed printed-PrintsOnLines two_chains ((omega arith, tt), tt)

key_text_iff_example :
    (key_text (record { src = 1; dst = 23 }) ≡ key_text (record { src = 12; dst = 3 }))
    ↔ (◌≡◌ {A = Key} (record { src = 1; dst = 23 }) (record { src = 12; dst = 3 }))
key_text_iff_example = key_text_iff (record { src = 1; dst = 23 }) (record { src = 12; dst = 3 })
