-- ===== src/Samples/HmacToken/Window.antt =====
-- plugins/samples/hmac_token_validation/plugin.cc: for how long a token is accepted.
use service_extensions_sampl.Base.{ℕ, suc, ◌+◌, ◌^◌, ◌≤◌, ◌<◌, ◌≡◌, ◌↔◌, false, arith}
use service_extensions_sampl.Base.Int.{pos, negsuc}
use service_extensions_sampl.Samples.HmacToken.{is_expired}

-- Under the unsigned arithmetic of the code, while the clock and the timestamp fit 63 bits, a token
-- passes exactly from its timestamp to five minutes later. With a timestamp before 1970, which wraps, it
-- passes exactly if the clock is at most 300 seconds after the timestamp; so a future timestamp never
-- passes, and one before 1970 only passes in the first five minutes of 1970.
pub is_expired_window :
    (now n : ℕ)
    → now < 2 ^ 63
    → n < 2 ^ 63
    → ((is_expired now (pos n) ≡ false) ↔ ((n ≤ now) × (now ≤ n + 300)))
      × ((is_expired now (negsuc n) ≡ false) ↔ (now + suc n ≤ 300))
unfolding is_expired
is_expired_window now n h k =
    ((λ e. ground arith, λ w. ground arith), (λ e. ground arith, λ w. ground arith))
