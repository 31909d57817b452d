-- ===== src/Checkout/Parts.antt =====
-- The number of message parts of a template.
use nexra.Prelude.{ℕ, ◌*◌, ◌≤◌, ◌↔◌, leb, if◌then◌else◌, arith}
use nexra.Checkout.{sms_parts}

-- What `p` parts hold: one part of 160 units, or parts of 153.
abbrev pub capacity : ℕ → ℕ
capacity p = if leb p 1 then 160 * p else 153 * p

-- The number of parts is the least that holds the template, one part holding 160 characters and
-- more than one 153 each: `p` parts hold it exactly when `p` is at least that number.
pub sms_parts_least : (len p : ℕ) → (len ≤ capacity p) ↔ (sms_parts len ≤ p)
unfolding sms_parts
sms_parts_least len p = ground arith
