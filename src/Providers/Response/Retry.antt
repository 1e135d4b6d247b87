-- ===== src/Providers/Response/Retry.antt =====
-- src/providers/provider_common.c: an error with a status of the class 4xx ends the fallback chain.
use shellclaw.Common.{ℕ, ◌+◌, ◌-◌, ◌*◌, false, [], ◌∷◌, ◌≡◌, ◌==◌, Bytes, is_digit}

-- No byte of the text is `H`, so "HTTP " does not start in it.
abbrev pub HasNoH : Bytes → Type 0
HasNoH [] = Unit
HasNoH (c ∷ cs) = ((c == b'H') ≡ false) × HasNoH cs

-- What follows the status is no digit.
abbrev pub EndsNumber : Bytes → Type 0
EndsNumber [] = Unit
EndsNumber (c ∷ cs) = is_digit c ≡ false

-- the number of three digits
abbrev status : ℕ → ℕ → ℕ → ℕ
status a b c = ((0 * 10 + (a - b'0')) * 10 + (b - b'0')) * 10 + (c - b'0')
