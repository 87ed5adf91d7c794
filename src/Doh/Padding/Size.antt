-- ===== src/Doh/Padding/Size.antt =====
-- The size of a message that is padded as `computePaddingSize` says.
use native.Mathlib.Nat.{mod-lt, mod-add-mod, add-mod-mod, mod_self}
use outline_go_tun2socks.Common.{ℕ, ◌+◌, ◌-◌, ◌%◌, ◌<◌, ◌≡◌, sym, ap, ◌∙◌, arith}
use outline_go_tun2socks.Doh.Padding.{compute_padding_size}

round_up : (n b : ℕ) → 0 < b → (n + (b - n % b) % b) % b ≡ 0
round_up n b h =
    let whole : n % b + (b - n % b) ≡ b = omega (arith, mod-lt n h) in
    add-mod-mod n (b - n % b) b
    ∙ sym (mod-add-mod n b (b - n % b))
    ∙ ap (λ k. k % b) whole
    ∙ mod_self b

-- For every block size but 0: with a padding option of the size computed, header included, the
-- message is a whole number of blocks long, and the padding is less than a block.
pub compute_padding_size_aligns :
    (msg_len block_size : ℕ)
    → 0 < block_size
    → let pad = compute_padding_size msg_len block_size in
      ((msg_len + 4 + pad) % block_size ≡ 0) × (pad < block_size)
unfolding compute_padding_size
compute_padding_size_aligns msg_len block_size h = (round_up (msg_len + 4) block_size h, mod-lt _ h)
