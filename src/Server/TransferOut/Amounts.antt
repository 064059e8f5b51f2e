-- ===== src/Server/TransferOut/Amounts.antt =====
-- The conversion of an amount between tokens with different decimals, whose power of ten is an
-- uint64 that wraps.
use c_bridge_node.Base.{
  ℕ, zero, suc, ◌+◌, ◌-◌, ◌*◌, ◌/◌, ◌%◌, ◌^◌, ◌≤◌, ◌<◌, ◌≡◌, ◌≢◌, ◌↔◌, refl, sym, ap, ◌∙◌, inl, inr,
  true, not, none, some, arith, ltb, leb, ◌==◌, ==_iff, all_below, all_below_sound, Bool-cases,
}
use c_bridge_node.Server.TransferOut.{pow10_u64, convert_amount}

pow10_table : all_below 20 (λ n. pow10_u64 n == 10 ^ n) ≡ true
unfolding all_below pow10_u64
pow10_table = refl

-- Up to nineteen places the power of ten fits.
pow10_exact : (n : ℕ) → n < 20 → pow10_u64 n ≡ 10 ^ n
pow10_exact n h = (==_iff _ (10 ^ n)).0 (all_below_sound 20 _ n pow10_table h)

pow10_nonzero_table : all_below 64 (λ n. not (pow10_u64 n == 0)) ≡ true
unfolding all_below pow10_u64
pow10_nonzero_table = refl

pow10_nonzero : (n : ℕ) → n < 64 → pow10_u64 n ≢ 0
pow10_nonzero n h =
    ground (arith, all_below_sound 64 (λ m. not (pow10_u64 m == 0)) n pow10_nonzero_table h)

pow10_64 : pow10_u64 64 ≡ 0
unfolding pow10_u64
pow10_64 = refl

pow10-suc : (n : ℕ) → pow10_u64 (suc n) ≡ pow10_u64 n * 10 % 2 ^ 64
unfolding pow10_u64
pow10-suc n = refl

-- From sixty-four places on, 2^64 divides the power of ten, and nothing is left of it.
pow10_zero : (n : ℕ) → 64 ≤ n → pow10_u64 n ≡ 0
pow10_zero zero h = absurd (omega arith)
pow10_zero (suc n) h = elim (Bool-cases (leb 64 n)) [
  | inl more ↦ omega (arith, pow10-suc n, pow10_zero n (ground arith))
  | inr last ↦ let e : suc n ≡ 64 = ground arith in rw e pow10_64
]

pow10_zero_places : (n : ℕ) → n ≡ 0 → 10 ^ n ≡ 1
pow10_zero_places n h = rw h refl

-- Where the decimals are at most nineteen apart, the amount is scaled by the exact power of ten,
-- rounded down: up if the destination has more decimals, down if it has fewer.
pub convert_amount_exact :
    (amount src dst : ℕ)
    → src ≤ dst + 19
    → dst ≤ src + 19
    → convert_amount amount src dst ≡ some (amount * 10 ^ (dst - src) / 10 ^ (src - dst))
unfolding convert_amount
convert_amount_exact amount src dst h k = elim (Bool-cases (ltb dst src)) [
  | inl down ↦
      let e : dst - src ≡ 0 = ground arith in
      rw e (ground (arith, pow10_exact (src - dst), pow10_nonzero (src - dst)))
  | inr up ↦
      let e : src - dst ≡ 0 = ground arith in
      rw e (ground (arith, pow10_exact (dst - src), pow10_zero_places (dst - src)))
]

-- The callback panics exactly where the source's token has sixty-four decimals more, or above.
pub convert_amount-none :
    (amount src dst : ℕ) → (convert_amount amount src dst ≡ none) ↔ (dst + 64 ≤ src)
unfolding convert_amount
convert_amount-none amount src dst =
    (λ h. ground (arith, pow10_nonzero (src - dst)), λ h. ground (arith, pow10_zero (src - dst)))

some_same : {a b : ℕ} → some a ≡ some b → a ≡ b
some_same {a} {b} h = cc

div-one : (a : ℕ) → a / 10 ^ 0 ≡ a
div-one a = omega arith

mul-one-div : (a p : ℕ) → 0 < p → a * p * 10 ^ 0 / p ≡ a
mul-one-div a p h = grind arith

pow10_pos : (n : ℕ) → n < 20 → 0 < 10 ^ n
pow10_pos n h = ground (arith, pow10_exact n h, pow10_nonzero n)

-- An amount that was scaled up by at most nineteen decimals comes back unchanged.
pub convert_amount-convert_amount :
    (amount src dst : ℕ) {b : ℕ}
    → src ≤ dst
    → dst ≤ src + 19
    → convert_amount amount src dst ≡ some b
    → convert_amount b dst src ≡ some amount
convert_amount-convert_amount amount src dst {b} h k e =
    convert_amount_exact b dst src (omega arith) (omega arith)
    ∙ ap some (
        rw (scaled, less)
          (mul-one-div amount (10 ^ (dst - src)) (pow10_pos (dst - src) (omega arith))))
  where
    less : src - dst ≡ 0
    less = omega arith

    scaled : b ≡ amount * 10 ^ (dst - src)
    scaled =
        some_same (
          sym e
          ∙ convert_amount_exact amount src dst (omega arith) (omega arith)
          ∙ ap (λ (k : ℕ). some (amount * 10 ^ (dst - src) / 10 ^ k)) less)
        ∙ div-one (amount * 10 ^ (dst - src))
