-- ===== src/Asap/Ulid/Increment.antt =====
-- src/asap/ulid.c: the 80-bit increment and the time bytes, as numbers.
use native.Mathlib.Nat.{pow-suc}
use shellclaw.Common.{
  ℕ, zero, suc, ◌+◌, ◌*◌, ◌%◌, ◌^◌, ◌≤◌, ◌<◌, Bool, true, false, [], ◌∷◌, ◌++◌, ◌≡◌, inl, inr, refl,
  arith, ◌==◌, if◌then◌else◌, length, drop, Bool-cases, Bytes,
}
use shellclaw.Asap.Ulid.{u80_inc, time_to_bytes}
use shellclaw.Asap.Ulid.Encoding.{bytes_value, bytes_value_from, AllBytes}

bytes_value_from-cons :
    (acc b : ℕ) (bs : Bytes) → bytes_value_from acc (b ∷ bs) ≡ bytes_value_from (acc * 256 + b) bs
bytes_value_from-cons acc b bs = refl

place_values :
    (acc b p q v x y : ℕ)
    → q ≡ p * 256
    → x ≡ (acc * 256 + b) * p + v
    → y ≡ (0 * 256 + b) * p + v
    → x ≡ acc * q + y
place_values acc b p q v x y e f g = rw (e, f, g) (omega arith)

pub bytes_value_from-acc :
    (acc : ℕ) (bs : Bytes) → bytes_value_from acc bs ≡ acc * 256 ^ length bs + bytes_value bs
bytes_value_from-acc acc [] = omega arith
bytes_value_from-acc acc (b ∷ bs) =
    rw (bytes_value_from-cons acc b bs, bytes_value_from-cons 0 b bs)
      (place_values acc b (256 ^ length bs) _ _ _ _ (pow-suc 256 (length bs))
        (bytes_value_from-acc (acc * 256 + b) bs) (bytes_value_from-acc (0 * 256 + b) bs))

bytes_value-cons :
    (b : ℕ) (bs : Bytes) → bytes_value (b ∷ bs) ≡ b * 256 ^ length bs + bytes_value bs
bytes_value-cons b bs =
    rw (bytes_value_from-cons 0 b bs) (omega (arith, bytes_value_from-acc (0 * 256 + b) bs))

pub bytes_value-append :
    (acc : ℕ) (xs bs : Bytes)
    → bytes_value_from acc (xs ++ bs) ≡ bytes_value_from (bytes_value_from acc xs) bs
bytes_value-append acc [] bs = refl
bytes_value-append acc (a ∷ xs) bs = bytes_value-append (acc * 256 + a) xs bs

pub AllBytes-append : (xs bs : Bytes) → AllBytes xs → AllBytes bs → AllBytes (xs ++ bs)
AllBytes-append [] bs h k = k
AllBytes-append (a ∷ xs) bs h k = (h.0, AllBytes-append xs bs h.1 k)

abbrev pub carried : Bool → ℕ → ℕ
carried true n = 256 ^ n
carried false n = 0

-- what one more byte in front makes of the increment of those behind it
abbrev in_front : ℕ → Bytes → Bool → Bytes × Bool
in_front b rest carry =
    if carry then (((b + 1) % 256) ∷ rest, (b + 1) % 256 == 0) else (b ∷ rest, false)

carry_into :
    (b : ℕ) (bs rest : Bytes) (carry : Bool)
    → b < 256
    → bytes_value rest + carried carry (length bs) ≡ bytes_value bs + 1
    → length rest ≡ length bs
    → AllBytes rest
    → (bytes_value (in_front b rest carry).0 + carried (in_front b rest carry).1 (length (b ∷ bs))
        ≡ bytes_value (b ∷ bs) + 1)
      × (length (in_front b rest carry).0 ≡ length (b ∷ bs))
      × AllBytes (in_front b rest carry).0
carry_into b bs rest false k v l a =
    rw (bytes_value-cons b bs, bytes_value-cons b rest, l) (omega (arith, v), refl, (k, a))
carry_into b bs rest true k v l a = elim (Bool-cases ((b + 1) % 256 == 0)) [
  | inl wraps ↦
      let top : b ≡ 255 = ground arith in
      rw (wraps, bytes_value-cons b bs, bytes_value-cons ((b + 1) % 256) rest, l, top)
        (omega (arith, v, pow-suc 256 (length bs)), refl, (omega arith, a))
  | inr stays ↦
      let low : (b + 1) % 256 ≡ b + 1 = ground arith in
      rw (stays, bytes_value-cons b bs, bytes_value-cons ((b + 1) % 256) rest, l, low)
        (omega (arith, v), refl, (ground arith, a))
]

-- The 80-bit increment adds one, and the flag is the carry out of the top byte.
pub u80_inc-value :
    (bs : Bytes)
    → AllBytes bs
    → (bytes_value (u80_inc bs).0 + carried (u80_inc bs).1 (length bs) ≡ bytes_value bs + 1)
      × (length (u80_inc bs).0 ≡ length bs)
      × AllBytes (u80_inc bs).0
unfolding u80_inc
u80_inc-value [] h = (omega arith, refl, tt)
u80_inc-value (b ∷ bs) h =
    let (v, l, a) = u80_inc-value bs h.1 in carry_into b bs (u80_inc bs).0 (u80_inc bs).1 h.0 v l a

pub time_to_bytes-value :
    (t : ℕ) → t < 2 ^ 48 → (bytes_value (time_to_bytes t) ≡ t) × AllBytes (time_to_bytes t)
unfolding time_to_bytes
time_to_bytes-value t h = omega arith

pub bytes_value-lt : (bs : Bytes) → AllBytes bs → bytes_value bs < 256 ^ length bs
bytes_value-lt [] h = omega arith
bytes_value-lt (b ∷ bs) h =
    rw (bytes_value-cons b bs, pow-suc 256 (length bs))
      (below_place b (256 ^ length bs) (bytes_value bs) h.0 (bytes_value-lt bs h.1))
  where
    below_place : (b p v : ℕ) → b < 256 → v < p → b * p + v < p * 256
    below_place b p v h k = let m : b * p ≤ 255 * p = grind arith in omega arith

pub AllBytes-drop : (n : ℕ) (bs : Bytes) → AllBytes bs → AllBytes (drop n bs)
AllBytes-drop zero bs h = h
AllBytes-drop (suc n) [] h = h
AllBytes-drop (suc n) (b ∷ bs) h = AllBytes-drop n bs h.1
