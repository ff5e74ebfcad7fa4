-- ===== src/Streams/Endless.antt =====
-- `readMessages` at a header that tells the size 0.
use lu.Base.{ℕ, zero, suc, ◌+◌, ap₂, ◌-◌, ◌≤◌, ◌≡◌, refl, ap, ◌∙◌, arith}
use lu.Streams.Receiving.{spins}
use lu.Streams.Messages.{DataHandler, cut_messages, call_on_data}
use lu.Streams.Cutting.{cut_whole}

-- A header that tells the size 0, with at least a header left to read, keeps `readMessages` in
-- its loop however many turns it takes.
pub zero_size_spins :
    (h : DataHandler) (memory : h.Memory) (n offset left : ℕ)
    → h.header_size ≤ left
    → h.read_header memory offset ≡ 0
    → cut_messages h memory n offset left ≡ spins
unfolding cut_messages
zero_size_spins h memory zero offset left e z = refl
zero_size_spins h memory (suc n) offset left e z =
    let here : offset + 0 ≡ offset = omega arith in
    let all : left - 0 ≡ left = omega arith in
    let (m, fits) = h.empty_fits memory offset in
    cut_whole h memory n offset left e (omega (arith, z))
    ∙ (ap
          (λ k.
            call_on_data (h.read_message memory offset k)
              (cut_messages h memory n (offset + k) (left - k)))
          z
        ∙ (ap₂ call_on_data fits
            (ap₂ (cut_messages h memory n) here all ∙ zero_size_spins h memory n offset left e z)))
