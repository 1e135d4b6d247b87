-- ===== src/Channels/Chunks/Posted.antt =====
-- src/channels/channel_common.c: what the pieces of a text are.
use mathlib.Core.List.{append_assoc, append-nil}
use shellclaw.Common.{
  ℕ, zero, suc, ◌+◌, ◌≤◌, ◌<◌, true, false, ◌||◌, List, [], ◌∷◌, ◌++◌, ◌≡◌, inl, inr, refl, sym,
  ◌∙◌, ap, arith, ◌==◌, ltb, leb, Bytes, Bool-cases, length, length-append, length-take,
  length-drop, take, drop,
}
use shellclaw.Channels.Chunks.{
  walk_back, outbound_chunk_len, Post, Outcome, delivered, stopped, unfinished, send_from,
  send_chunked,
}

abbrev pub concat : List Bytes → Bytes
concat [] = []
concat (p ∷ ps) = p ++ concat ps

-- pieces of at least one byte and at most the number given
abbrev pub AllFit : ℕ → List Bytes → Type 0
AllFit max_bytes [] = Unit
AllFit max_bytes (p ∷ ps) = (0 < length p) × (length p ≤ max_bytes) × AllFit max_bytes ps

-- each piece is taken by the callback, after those before it
abbrev pub AllTaken : Post → List Bytes → List Bytes → Type 0
AllTaken post before [] = Unit
AllTaken post before (p ∷ ps) = (post before p ≡ true) × AllTaken post (before ++ p ∷ []) ps

-- the piece of the text behind those that were taken, which the callback refuses
pub record Refused (post : Post) (text : Bytes) (max_bytes : ℕ) (taken : List Bytes) : Type 0 where
  pub piece : Bytes
  pub rest : Bytes
  pub next : text ≡ concat taken ++ (piece ++ rest)
  pub some_bytes : 0 < length piece
  pub fits : length piece ≤ max_bytes
  pub refused : post taken piece ≡ false

-- what has been posted of a text
abbrev pub Posted : Post → Bytes → ℕ → Outcome → Type 0
Posted post text max_bytes (delivered ps) =
    (concat ps ≡ text) × AllFit max_bytes ps × AllTaken post [] ps
Posted post text max_bytes (stopped index offset ps) =
    (concat ps ≡ take offset text)
    × (length ps ≡ index)
    × AllFit max_bytes ps
    × AllTaken post [] ps
    × Refused post text max_bytes ps
Posted post text max_bytes unfinished = true ≡ false

AllTaken-append :
    (post : Post) (before ps : List Bytes) (p : Bytes)
    → AllTaken post before ps
    → post (before ++ ps) p ≡ true
    → AllTaken post before (ps ++ p ∷ [])
AllTaken-append post before [] p h t = (rw (append-nil before) at t, tt)
AllTaken-append post before (q ∷ ps) p h t =
    (h.0, AllTaken-append post (before ++ q ∷ []) ps p h.1 (rw (append_assoc before (q ∷ []) ps) t))

concat-append : (ps : List Bytes) (p : Bytes) → concat (ps ++ p ∷ []) ≡ concat ps ++ p
concat-append [] p = append-nil p
concat-append (q ∷ ps) p = ap (◌++◌ q) (concat-append ps p) ∙ sym (append_assoc q (concat ps) p)

AllFit-append :
    (m : ℕ) (ps : List Bytes) (p : Bytes)
    → AllFit m ps
    → 0 < length p
    → length p ≤ m
    → AllFit m (ps ++ p ∷ [])
AllFit-append m [] p h l b = (l, b, tt)
AllFit-append m (q ∷ ps) p h l b = (h.0, h.1, AllFit-append m ps p h.2 l b)

take-drop : (n : ℕ) (xs : Bytes) → take n xs ++ drop n xs ≡ xs
take-drop zero xs = refl
take-drop (suc n) [] = refl
take-drop (suc n) (x ∷ xs) = ap (◌∷◌ x) (take-drop n xs)

take-length : (xs ys : Bytes) → take (length xs) (xs ++ ys) ≡ xs
take-length [] ys = refl
take-length (x ∷ xs) ys = ap (◌∷◌ x) (take-length xs ys)

walk_back_le : (text : Bytes) (n : ℕ) → walk_back text n ≤ n
unfolding walk_back
walk_back_le text zero = omega arith
walk_back_le text (suc n) = ground (arith, walk_back_le text n)

-- A piece of a text that is not empty has a byte, fits the bound, and is no longer than the text.
pub outbound_chunk_len-bounds :
    (text : Bytes) (max_bytes : ℕ)
    → 0 < length text
    → 0 < max_bytes
    → (0 < outbound_chunk_len text max_bytes)
      × (outbound_chunk_len text max_bytes ≤ max_bytes)
      × (outbound_chunk_len text max_bytes ≤ length text)
unfolding outbound_chunk_len
outbound_chunk_len-bounds text m l b =
    let w = walk_back_le text m in
    let z : (m == 0) ≡ false = ground arith in
    rw z (elim (Bool-cases (leb (length text) m)) [
      | inl short ↦ rw short (l, ground arith, omega arith)
      | inr long ↦ rw long (elim (Bool-cases (ltb 0 (walk_back text m))) [
        | inl some_bytes ↦ rw some_bytes (ground arith, w, ground arith)
        | inr none_left ↦ rw none_left (b, omega arith, ground arith)
      ])
    ])

module _ (post : Post) (text : Bytes) (max_bytes : ℕ) (b : 0 < max_bytes) where
  send_from-Posted :
      (rounds : ℕ) (cursor : Bytes) (index offset : ℕ) (sent : List Bytes)
      → concat sent ++ cursor ≡ text
      → length (concat sent) ≡ offset
      → length sent ≡ index
      → AllFit max_bytes sent
      → AllTaken post [] sent
      → length cursor ≤ rounds
      → Posted post text max_bytes (send_from post max_bytes rounds cursor index offset sent)
  unfolding send_from
  send_from-Posted rounds [] index offset sent e o i f t r =
      (sym (append-nil (concat sent)) ∙ e, f, t)
  send_from-Posted zero (c ∷ cs) index offset sent e o i f t r = absurd (omega arith)
  send_from-Posted (suc rounds) (c ∷ cs) index offset sent e o i f t r =
      let n = outbound_chunk_len (c ∷ cs) max_bytes in
      let (some_bytes, fits, inside) =
        outbound_chunk_len-bounds (c ∷ cs) max_bytes (omega arith) b in
      let piece = take n (c ∷ cs) in
      let len : length piece ≡ n = omega (arith, length-take n (c ∷ cs), inside) in
      let so_far : concat sent ≡ take offset text =
        rw (sym e, sym o) (sym (take-length (concat sent) (c ∷ cs))) in
      let safe : (n == 0 || ltb max_bytes n) ≡ false = ground (arith, some_bytes, fits) in
      rw safe (elim (Bool-cases (post sent piece)) [
        | inr refused ↦ rw refused (
          so_far,
          i,
          f,
          t,
          record {
            piece = piece;
            rest = drop n (c ∷ cs);
            next = sym e ∙ ap (◌++◌ (concat sent)) (sym (take-drop n (c ∷ cs)));
            some_bytes = omega (arith, len, some_bytes);
            fits = omega (arith, len, fits);
            refused = refused;
          },
        )
        | inl taken ↦ rw taken (
            send_from-Posted rounds (drop n (c ∷ cs)) (index + 1) (offset + n) (sent ++ piece ∷ [])
              (ap (λ (x : Bytes). x ++ drop n (c ∷ cs)) (concat-append sent piece)
                ∙ append_assoc (concat sent) piece (drop n (c ∷ cs))
                ∙ ap (◌++◌ (concat sent)) (take-drop n (c ∷ cs))
                ∙ e)
              (ap length (concat-append sent piece)
                ∙ length-append (concat sent) piece
                ∙ omega (arith, o, len))
              (length-append sent (piece ∷ []) ∙ omega (arith, i))
              (AllFit-append max_bytes sent piece f (omega (arith, len, some_bytes))
                (omega (arith, len, fits)))
              (AllTaken-append post [] sent piece t taken)
              (omega (arith, length-drop n (c ∷ cs), r, some_bytes)))
      ])

-- The pieces that are posted, each of at least one byte and at most `max_bytes`, are those that the
-- callback took one after the other. Put together they are the whole text, or else the text up to the
-- offset that is reported, as many as the index reported, and the piece of the text behind them is one
-- that the callback refused; the loop always ends.
pub send_chunked-Posted :
    (post : Post) (text : Bytes) (max_bytes : ℕ)
    → 0 < max_bytes
    → Posted post text max_bytes (send_chunked post text max_bytes)
unfolding send_chunked
send_chunked-Posted post text m b =
    let z : (m == 0) ≡ false = ground arith in
    rw z
      (send_from-Posted post text m b (length text) text 0 0 [] refl refl refl tt tt (omega arith))
