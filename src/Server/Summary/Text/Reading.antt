-- ===== src/Server/Summary/Text/Reading.antt =====
-- What a reader of GetTotalSummary's page takes from its text.
use c_bridge_node.Base.{
  ℕ, ◌≡◌, ◌≢◌, refl, ap, ◌∙◌, Bool, true, false, ◌&&◌, ◌||◌, List, [], ◌∷◌, ◌++◌, map, arith, ◌==◌,
}
use c_bridge_node.Base.Lists.{All, All-append, select}
use c_bridge_node.Base.Maps.{Map}
use c_bridge_node.Base.Text.{Text, codes, decimal, lines_of, lines_of-join, HasNoNewline}
use c_bridge_node.Base.Text.Figures.{
  is_digit, figures_from, figures, figures_from-decimal, figures-decimal, decimal-HasNoNewline,
}
use c_bridge_node.Wire.{Addr}
use c_bridge_node.Server.Summary.{Summary, TokenFeeSummary, Chain2ChainBreakDownDetail}
use c_bridge_node.Server.Summary.Text.{
  Floats, dashes, in_tokens, fee_line, fee_lines, chain_line, received_line, processed_line,
  rate_line, pair_lines, summary_text,
}

unfoldable pub starts_with : Text → Text → Bool
starts_with [] s = true
starts_with (c ∷ t) [] = false
starts_with (c ∷ t) (d ∷ s) = c == d && starts_with t s

-- A line that names a pair of chains, or counts its transfers.
unfoldable pub tells : Text → Bool
unfolding starts_with
tells line =
    starts_with (codes "chain ") line
    || (starts_with (codes "Received ") line || starts_with (codes "Successfully ") line)

unfoldable pub read_summary : Text → List (List ℕ)
unfolding tells
read_summary s = map figures (select tells (lines_of s))

-- The pair's chains, and its two counts.
unfoldable pub counts : Summary → List (List ℕ)
counts [] = []
counts ((key, d) ∷ m) =
    (d.src_chain_id ∷ d.dst_chain_id ∷ [])
    ∷ ((d.total_transfer_out_number ∷ []) ∷ ((d.total_success_transfer_in_number ∷ []) ∷ counts m))

-- No text of a token or of a floating-point number has a newline.
pub record PrintsOnLines (fl : Floats) : Type 0 where
  pub rate : (x : fl.Float64) → HasNoNewline (fl.two_places x)
  pub amount : (x : fl.Big) → HasNoNewline (fl.big_string x)

abbrev pub NamesOnLines : Map Addr TokenFeeSummary → Type 0
NamesOnLines = All (λ p. HasNoNewline (codes p.1.token_name))

read_chain_line : (src dst : ℕ) → figures (chain_line src dst) ≡ src ∷ dst ∷ []
unfolding figures figures_from is_digit chain_line
read_chain_line src dst =
    figures_from-decimal src (codes " -> chain " ++ decimal dst)
    ∙ ap (λ (later : List ℕ). src ∷ later) (figures-decimal dst)

read_received_line : (n : ℕ) → figures (received_line n) ≡ n ∷ []
unfolding figures figures_from is_digit received_line
read_received_line n = figures_from-decimal n (codes " transfers")

read_processed_line : (n : ℕ) → figures (processed_line n) ≡ n ∷ []
unfolding figures figures_from is_digit processed_line
read_processed_line n = figures_from-decimal n (codes " transfers")

chain_line-HasNoNewline : (src dst : ℕ) → HasNoNewline (chain_line src dst)
unfolding chain_line
chain_line-HasNoNewline src dst = All-append _ (codes "chain ") _ (omega arith) (
    All-append _ (decimal src) _ (decimal-HasNoNewline src)
      (All-append _ (codes " -> chain ") _ (omega arith) (decimal-HasNoNewline dst)))

counted-HasNoNewline :
    (before after : Text) (n : ℕ)
    → HasNoNewline before
    → HasNoNewline after
    → HasNoNewline (before ++ (decimal n ++ after))
counted-HasNoNewline before after n hb ha =
    All-append _ before _ hb (All-append _ (decimal n) after (decimal-HasNoNewline n) ha)

received_line-HasNoNewline : (n : ℕ) → HasNoNewline (received_line n)
unfolding received_line
received_line-HasNoNewline n =
    counted-HasNoNewline (codes "Received ") (codes " transfers") n (omega arith) (omega arith)

processed_line-HasNoNewline : (n : ℕ) → HasNoNewline (processed_line n)
unfolding processed_line
processed_line-HasNoNewline n =
    counted-HasNoNewline (codes "Successfully processed ") (codes " transfers") n (omega arith)
      (omega arith)

tells-chain_line : (src dst : ℕ) → tells (chain_line src dst) ≡ true
unfolding tells chain_line
tells-chain_line src dst = refl

tells-received_line : (n : ℕ) → tells (received_line n) ≡ true
unfolding tells received_line
tells-received_line n = refl

tells-processed_line : (n : ℕ) → tells (processed_line n) ≡ true
unfolding tells processed_line
tells-processed_line n = refl

tells-dashes : tells dashes ≡ false
unfolding tells
tells-dashes = refl

tells-empty : tells [] ≡ false
unfolding tells
tells-empty = refl

module _ (fl : Floats) where
  tells-rate_line : (d : Chain2ChainBreakDownDetail) → tells (rate_line fl d) ≡ false
  unfolding tells rate_line
  tells-rate_line d = refl

  tells-fee_line : (fee : TokenFeeSummary) → tells (fee_line fl fee) ≡ false
  unfolding tells fee_line
  tells-fee_line fee = refl

  select-fee_lines :
      (fees : Map Addr TokenFeeSummary) (later : List Text)
      → select tells (fee_lines fl fees later) ≡ select tells later
  unfolding fee_lines select
  select-fee_lines [] later = refl
  select-fee_lines ((token, fee) ∷ fees) later =
      rw (tells-fee_line fee) (select-fee_lines fees later)

  select-pair_lines : (m : Summary) → map figures (select tells (pair_lines fl m)) ≡ counts m
  unfolding pair_lines select counts
  select-pair_lines [] = rw tells-empty
  select-pair_lines ((key, d) ∷ m) = simp (
    tells-chain_line,
    tells-received_line,
    tells-processed_line,
    tells-rate_line,
    select-fee_lines,
    tells-dashes,
    read_chain_line,
    read_received_line,
    read_processed_line,
    select-pair_lines m,
  )

  module _ (prints : PrintsOnLines fl) where
    fee_lines-HasNoNewline :
        (fees : Map Addr TokenFeeSummary) (later : List Text)
        → NamesOnLines fees
        → All HasNoNewline later
        → All HasNoNewline (fee_lines fl fees later)
    unfolding fee_lines fee_line in_tokens
    fee_lines-HasNoNewline [] later h k = k
    fee_lines-HasNoNewline ((token, fee) ∷ fees) later h k = (
      All-append _ (codes "Token name: ") _ (omega arith) (
          All-append _ (codes fee.token_name) _ h.0 (
            All-append _ (codes ", transfer volume:") _ (omega arith) (
              All-append _ (in_tokens fl fee.total_volume fee.token_decimal) _ (prints.amount _) (
                (λ nl. absurd (omega arith)),
                All-append _ (codes fee.token_name) _ h.0 (
                    All-append _ (codes ", earned fee:") _ (omega arith) (
                      All-append _ (in_tokens fl fee.fee_amount fee.token_decimal) _
                        (prints.amount _) ((λ nl. absurd (omega arith)), h.0))),
              )))),
      fee_lines-HasNoNewline fees later h.1 k,
    )

    rate_line-HasNoNewline : (d : Chain2ChainBreakDownDetail) → HasNoNewline (rate_line fl d)
    unfolding rate_line
    rate_line-HasNoNewline d =
        All-append _ (codes "Success rate: ") _ (omega arith)
          (All-append (λ c. c ≢ b'\n') _ (codes "%") (prints.rate _) (omega arith))

    pair_lines-HasNoNewline :
        (m : Summary)
        → All (λ p. NamesOnLines p.1.fee_received) m
        → All HasNoNewline (pair_lines fl m)
    unfolding pair_lines
    pair_lines-HasNoNewline [] h = (tt, tt)
    pair_lines-HasNoNewline ((key, d) ∷ m) h =
        let fees =
          fee_lines-HasNoNewline d.fee_received (dashes ∷ pair_lines fl m) h.0
            (omega arith, pair_lines-HasNoNewline m h.1) in
        (
          chain_line-HasNoNewline d.src_chain_id d.dst_chain_id,
          (
            received_line-HasNoNewline d.total_transfer_out_number,
            (
              processed_line-HasNoNewline d.total_success_transfer_in_number,
              (rate_line-HasNoNewline d, fees),
            ),
          ),
        )

    -- Where the texts of floating-point numbers and the names of tokens have no newline, a reader of
    -- the page finds in it the chains and the two counts of every pair of the summary, in their order.
    pub read_summary-summary_text :
        (m : Summary)
        → All (λ p. NamesOnLines p.1.fee_received) m
        → read_summary (summary_text fl m) ≡ counts m
    unfolding read_summary summary_text select
    read_summary-summary_text m names =
        ap (λ (lines : List Text). map figures (select tells lines))
          (lines_of-join dashes (pair_lines fl m) (omega arith, pair_lines-HasNoNewline m names))
        ∙ select-pair_lines m
