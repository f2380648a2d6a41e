-- ===== src/Proxy/Count.antt =====
-- The `int` reference counts: 32-bit patterns, of which those from 2^31 on are negative.
use perl_xml_lib_xml.Common.{ℕ, ◌+◌, ◌-◌, ◌%◌, ◌^◌, ◌<◌, ◌≡◌, Bool, false, ◌||◌, arith, ◌==◌, leb}

-- `count++` and `count--`
unfoldable pub int_inc : ℕ → ℕ
int_inc c = (c + 1) % 2 ^ 32

unfoldable pub int_dec : ℕ → ℕ
int_dec c = (c + 2 ^ 32 - 1) % 2 ^ 32

-- `count < 0` and `count <= 0`
unfoldable pub is_negative : ℕ → Bool
is_negative c = leb (2 ^ 31) c

unfoldable pub not_positive : ℕ → Bool
unfolding is_negative
not_positive c = (c == 0) || is_negative c

pub int_dec-int_inc : (c : ℕ) → c < 2 ^ 32 → int_dec (int_inc c) ≡ c
unfolding int_dec int_inc
int_dec-int_inc c h = omega arith

pub int_dec_pos : (c : ℕ) → 0 < c → c < 2 ^ 32 → int_dec c ≡ c - 1
unfolding int_dec
int_dec_pos c h k = omega arith

pub not_positive_small : (c : ℕ) → 0 < c → c < 2 ^ 31 → not_positive c ≡ false
unfolding not_positive
not_positive_small c h k = ground arith

pub is_negative_small : (c : ℕ) → c < 2 ^ 31 → is_negative c ≡ false
unfolding is_negative
is_negative_small c k = ground arith

pub int_inc_small : (c : ℕ) → c + 1 < 2 ^ 32 → int_inc c ≡ c + 1
unfolding int_inc
int_inc_small c h = omega arith
