-- ===== src/Channels/Discord/Received.antt =====
-- src/channels/discord_helpers.c: the buffer of the gateway's frames.
use shellclaw.Common.{
  ℕ, zero, suc, ◌+◌, ◌-◌, ◌*◌, ◌≤◌, ◌<◌, false, ◌||◌, Option, none, some, ◌++◌, ◌==◌, ◌≡◌, ◌⊎◌, inl,
  inr, refl, arith, ltb, leb, if◌then◌else◌, Bool-cases, Bytes, length, length-append,
}
use shellclaw.Channels.Discord.{Rx, grown, new_cap, rx_append}

-- what was appended, with its final zero, fits in the capacity, which stays within the bound
pub record Appended (rx : Rx) (chunk : Bytes) (max_cap : ℕ) (r : Option Rx) : Type 0 where
  pub after : Rx
  pub done : r ≡ some after
  pub content : after.buf ≡ rx.buf ++ chunk
  pub room : length after.buf < after.cap
  pub bounded : after.cap ≤ max_cap

grown_enough :
    (rounds ncap need : ℕ) → 0 < ncap → need ≤ ncap + rounds → need ≤ grown rounds ncap need
unfolding grown
grown_enough zero ncap need z l = omega (arith, l)
grown_enough (suc rounds) ncap need z l = elim (Bool-cases (ltb ncap need)) [
  | inl t ↦ rw t (grown_enough rounds (ncap * 2) need (omega (arith, z)) (omega (arith, z, l)))
  | inr f ↦ rw f (ground (arith, f))
]

new_cap_enough :
    (cap need max_cap : ℕ)
    → need ≤ max_cap
    → (need ≤ new_cap cap need max_cap) × (new_cap cap need max_cap ≤ max_cap)
new_cap_enough cap need max_cap l =
    let n =
      grown_enough need (if cap == 0 then 4096 else cap * 2) need (ground arith) (omega arith) in
    ground (arith, n)

-- A chunk is appended exactly if the text with its final zero fits in the bound, and the capacity then
-- holds it and stays within the bound; else the buffer is left alone.
pub rx_append-Appended :
    (rx : Rx) (chunk : Bytes) (max_cap : ℕ)
    → rx.cap ≤ max_cap
    → ((length rx.buf + length chunk < max_cap)
        × Appended rx chunk max_cap (rx_append rx chunk max_cap))
      ⊎ ((max_cap ≤ length rx.buf + length chunk) × (rx_append rx chunk max_cap ≡ none))
unfolding rx_append
rx_append-Appended rx chunk max_cap c =
    let need = length rx.buf + length chunk + 1 in
    let sum = length-append rx.buf chunk in
    elim (Bool-cases (max_cap == 0)) [
      | inl z ↦ inr (ground (arith, z), rw z refl)
      | inr z ↦
          elim (Bool-cases
            (ltb max_cap (length chunk) || ltb (max_cap - length chunk) (length rx.buf))) [
              | inl t ↦ inr (ground (arith, t), rw (z, t) refl)
              | inr f ↦ elim (Bool-cases (ltb max_cap need)) [
                | inl t ↦ inr (ground (arith, t), rw (z, f, t) refl)
                | inr g ↦
                    let fits : need ≤ max_cap = ground (arith, g) in
                    elim (Bool-cases (leb need rx.cap)) [
                      | inl there ↦ inl (
                        omega (arith, fits),
                        record {
                          after = record { buf = rx.buf ++ chunk; cap = rx.cap };
                          done = rw (z, f, g, there) refl;
                          content = refl;
                          room = ground (arith, sum, there);
                          bounded = c;
                        },
                      )
                      | inr short ↦
                          let n = new_cap_enough rx.cap need max_cap fits in
                          let enough : ltb (new_cap rx.cap need max_cap) need ≡ false =
                            ground (arith, n) in
                          inl (
                            omega (arith, fits),
                            record {
                              after = record {
                                buf = rx.buf ++ chunk;
                                cap = new_cap rx.cap need max_cap;
                              };
                              done = rw (z, f, g, short, enough) refl;
                              content = refl;
                              room = omega (arith, sum, n.0);
                              bounded = n.1;
                            },
                          )
                    ]
              ]
            ]
    ]
