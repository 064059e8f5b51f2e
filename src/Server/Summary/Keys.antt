-- ===== src/Server/Summary/Keys.antt =====
-- server/server.go: the text of generateChain2ChainKey, for which `Key` stands.
use c_bridge_node.Base.{◌≡◌, sym, ap, ◌∙◌, ◌↔◌, List, ℕ, [], ◌∷◌, ◌++◌, arith}
use c_bridge_node.Base.Text.{Text, codes, decimal}
use c_bridge_node.Base.Text.Figures.{
  is_digit, figures_from, figures, figures_from-decimal, figures-decimal,
}
use c_bridge_node.Server.Summary.{Key}

-- fmt.Sprintf("%d->%d", srcChainId, dstChainId)
unfoldable pub key_text : Key → Text
key_text k = decimal k.src ++ (codes "->" ++ decimal k.dst)

read_key : (k : Key) → figures (key_text k) ≡ k.src ∷ k.dst ∷ []
unfolding figures figures_from is_digit key_text
read_key k =
    figures_from-decimal k.src (codes "->" ++ decimal k.dst)
    ∙ ap (λ (later : List ℕ). k.src ∷ later) (figures-decimal k.dst)

-- Two pairs of chains have the same text exactly if they are the same pair.
pub key_text_iff : (a b : Key) → (key_text a ≡ key_text b) ↔ (a ≡ b)
key_text_iff a b = (
  λ same.
      let numbers : (a.src ∷ a.dst ∷ []) ≡ b.src ∷ b.dst ∷ [] =
        sym (read_key a) ∙ ap figures same ∙ read_key b in
      ground (arith, numbers),
  λ same. ap key_text same,
)
