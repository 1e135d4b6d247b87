-- ===== src/Asap/Ulid/Order.antt =====
-- src/asap/ulid.c: identifiers made one after the other by one process.
use shellclaw.Common.{
  ℕ, ◌+◌, ◌*◌, ◌/◌, ◌%◌, ◌^◌, ◌≤◌, ◌<◌, Bool, true, false, Option, none, some, [], ◌∷◌, ◌≡◌, inl,
  inr, refl, ◌∙◌, arith, ltb, ltb→lt, length, length-append, length-drop, drop, Bool-cases, Bytes,
}
use shellclaw.Asap.Ulid.{
  UlidState, Clock, Random, Fill, filled, short, Outcome, generated, failed, waiting, u80_inc,
  time_to_bytes, raw_bytes, encode_bytes, get_epoch_ms_u48, wait_past, reseed, emit,
  generate_waited, generate_same, generate_at, generate_read, ulid_generate,
}
use shellclaw.Asap.Ulid.Increment.{
  bytes_value_from-acc, bytes_value-append, AllBytes-append, time_to_bytes-value, bytes_value-lt,
  AllBytes-drop, carried, u80_inc-value,
}
use shellclaw.Asap.Ulid.Encoding.{c32_value, bytes_value, AllBytes, encode_bytes-value}

pub record IsUlidState (s : UlidState) : Type 0 where
  pub in_range : s.last_ms < 2 ^ 48
  pub sized : length s.rand ≡ 10
  pub all_bytes : AllBytes s.rand

-- A read of ten random bytes writes ten bytes, or fewer before it fails.
abbrev pub IsFill : Fill → Type 0
IsFill (filled r) = (length r ≡ 10) × AllBytes r
IsFill (short r) = (length r ≤ 10) × AllBytes r

abbrev pub AllFills : Random → Type 0
AllFills [] = Unit
AllFills (r ∷ rs) = IsFill r × AllFills rs

raw_bytes-value :
    (s : UlidState)
    → IsUlidState s
    → bytes_value (raw_bytes s) ≡ s.last_ms * 256 ^ 10 + bytes_value s.rand
unfolding raw_bytes
raw_bytes-value s h =
    rw
      (
        bytes_value-append 0 (time_to_bytes s.last_ms) s.rand,
        (time_to_bytes-value s.last_ms h.in_range).0,
        bytes_value_from-acc s.last_ms s.rand,
        h.sized,
      )
      refl

-- what the call makes of the state, in terms of the state before
abbrev pub Grows : UlidState → Outcome → Type 0
Grows s (generated out s') =
    (out ≡ encode_bytes (raw_bytes s'))
    × IsUlidState s'
    × (bytes_value (raw_bytes s) < bytes_value (raw_bytes s'))
Grows s (failed s') = IsUlidState s'
Grows s (waiting s') = IsUlidState s'

raw_later :
    (s s' : UlidState)
    → IsUlidState s
    → IsUlidState s'
    → s.last_ms < s'.last_ms
    → bytes_value (raw_bytes s) < bytes_value (raw_bytes s')
raw_later s s' h h' l =
    rw (raw_bytes-value s h, raw_bytes-value s' h')
      (let b : bytes_value s.rand < 256 ^ 10 = rw h.sized at (bytes_value-lt s.rand h.all_bytes) in
        omega arith)

emit-Grows :
    (s s' : UlidState)
    → IsUlidState s
    → IsUlidState s'
    → s.last_ms < s'.last_ms
    → Grows s (emit (s', false))
unfolding emit
emit-Grows s s' h h' l = (refl, h', raw_later s s' h h' l)

reseed-Grows :
    (s s1 : UlidState) (ms : ℕ) (rnd : Random)
    → IsUlidState s
    → length s1.rand ≡ 10
    → AllBytes s1.rand
    → s.last_ms < ms
    → ms < 2 ^ 48
    → AllFills rnd
    → Grows s (emit (reseed s1 ms rnd))
unfolding reseed
reseed-Grows s s1 ms [] h z a l m f =
    unfold emit in record { in_range = m; sized = z; all_bytes = a }
reseed-Grows s s1 ms (short r ∷ rnd) h z a l m f =
    unfold emit in
    record {
      in_range = m;
      sized =
          omega (
            arith,
            length-append r (drop (length r) s1.rand),
            length-drop (length r) s1.rand,
            f.0.0,
          );
      all_bytes = AllBytes-append r _ f.0.1 (AllBytes-drop (length r) s1.rand a);
    }
reseed-Grows s s1 ms (filled r ∷ rnd) h z a l m f =
    emit-Grows s _ h (record { in_range = m; sized = f.0.0; all_bytes = f.0.1 }) l

wait_past-lt :
    (last : ℕ) (clock : Clock) (ms : ℕ)
    → wait_past last clock ≡ some (some ms)
    → (last < ms) × (ms < 2 ^ 48)
unfolding wait_past get_epoch_ms_u48
wait_past-lt last [] ms h = cc
wait_past-lt last (r ∷ clock) ms h = ground (arith, wait_past-lt last clock ms)

module _ (s : UlidState) (h : IsUlidState s) (rnd : Random) (f : AllFills rnd) where
  waited-Grows :
      (s1 : UlidState) (o : Option (Option ℕ))
      → IsUlidState s1
      → ((ms : ℕ) → o ≡ some (some ms) → (s.last_ms < ms) × (ms < 2 ^ 48))
      → Grows s (generate_waited s1 o rnd)
  unfolding generate_waited
  waited-Grows s1 none h1 late = h1
  waited-Grows s1 (some none) h1 late = h1
  waited-Grows s1 (some (some ms)) h1 late =
      let (l, m) = late ms refl in reseed-Grows s s1 ms rnd h h1.sized h1.all_bytes l m f

  same-Grows :
      (rand : Bytes) (carry : Bool) (clock : Clock)
      → bytes_value rand + carried carry 10 ≡ bytes_value s.rand + 1
      → length rand ≡ 10
      → AllBytes rand
      → Grows s (generate_same s (rand, carry) clock rnd)
  unfolding generate_same
  same-Grows rand false clock v z a =
      let h1 : IsUlidState (record s { rand = rand }) = record {
        in_range = h.in_range;
        sized = z;
        all_bytes = a;
      } in
      unfold emit in
      (
        refl,
        h1,
        rw (raw_bytes-value s h, raw_bytes-value (record s { rand = rand }) h1) (omega (arith, v)),
      )
  same-Grows rand true clock v z a =
      waited-Grows (record s { rand = rand }) (wait_past s.last_ms clock)
        (record { in_range = h.in_range; sized = z; all_bytes = a }) (wait_past-lt s.last_ms clock)

  at-Grows :
      (ms : ℕ) (clock : Clock) → s.last_ms ≤ ms → ms < 2 ^ 48 → Grows s (generate_at s ms clock rnd)
  unfolding generate_at
  at-Grows ms clock l m =
      let e : ltb ms s.last_ms ≡ false = ground arith in
      rw e (elim (Bool-cases (ltb s.last_ms ms)) [
        | inl later ↦
            rw later (reseed-Grows s s ms rnd h h.sized h.all_bytes (ltb→lt _ _ later) m f)
        | inr not_later ↦
            let (v, z, a) = u80_inc-value s.rand h.all_bytes in
            rw not_later (
              same-Grows (u80_inc s.rand).0 (u80_inc s.rand).1 clock (rw h.sized at v) (z ∙ h.sized)
                a)
      ])

  read-Grows :
      (r : Option (ℕ × ℕ)) (clock : Clock)
      → ((ms : ℕ) → get_epoch_ms_u48 r ≡ some ms → s.last_ms ≤ ms)
      → Grows s (generate_read s (get_epoch_ms_u48 r) clock rnd)
  unfolding generate_read get_epoch_ms_u48
  read-Grows none clock l = h
  read-Grows (some (sec, nsec)) clock l =
      at-Grows ((sec * 1000 + nsec / 1000000) % 2 ^ 64 % 2 ^ 48) clock (l _ refl) (omega arith)

  -- Unless the clock reads earlier than at the last call, a call that writes an identifier writes the
  -- encoding of its new state, and the bytes of that state are a greater number than before. On every
  -- path, the failing ones too, the state stays well formed.
  pub ulid_generate-Grows :
      (out_size : ℕ) (r : Option (ℕ × ℕ)) (clock : Clock)
      → ((ms : ℕ) → get_epoch_ms_u48 r ≡ some ms → s.last_ms ≤ ms)
      → Grows s (ulid_generate s out_size (r ∷ clock) rnd)
  unfolding ulid_generate
  ulid_generate-Grows out_size r clock l = elim (Bool-cases (ltb out_size 27)) [
    | inl small ↦ rw small h
    | inr room ↦ rw room (read-Grows r clock l)
  ]

length-time_to_bytes : (t : ℕ) → length (time_to_bytes t) ≡ 6
unfolding time_to_bytes
length-time_to_bytes t = refl

raw_bytes-16 :
    (s : UlidState) → IsUlidState s → (length (raw_bytes s) ≡ 16) × AllBytes (raw_bytes s)
unfolding raw_bytes
raw_bytes-16 s h = (
  omega (
    arith,
    length-append (time_to_bytes s.last_ms) s.rand,
    h.sized,
    length-time_to_bytes s.last_ms,
  ),
  AllBytes-append (time_to_bytes s.last_ms) s.rand (time_to_bytes-value s.last_ms h.in_range).1
      h.all_bytes,
)

-- Of two calls one after the other that both write an identifier, with no clock that goes back, the second
-- writes one that is, as a number in base 32, greater than the first one's.
pub ulid_generate-increasing :
    (s0 s s' : UlidState) (size0 size : ℕ) (r0 r : Option (ℕ × ℕ)) (clock0 clock : Clock)
    (rnd0 rnd : Random) (first second : Bytes)
    → IsUlidState s0
    → AllFills rnd0
    → AllFills rnd
    → ((ms : ℕ) → get_epoch_ms_u48 r0 ≡ some ms → s0.last_ms ≤ ms)
    → ((ms : ℕ) → get_epoch_ms_u48 r ≡ some ms → s.last_ms ≤ ms)
    → ulid_generate s0 size0 (r0 ∷ clock0) rnd0 ≡ generated first s
    → ulid_generate s size (r ∷ clock) rnd ≡ generated second s'
    → c32_value 0 first < c32_value 0 second
ulid_generate-increasing s0 s s' size0 size r0 r clock0 clock rnd0 rnd first second h0 f0 f l0 l e0
      e =
    let (o0, h, lt0) = rw e0 at (ulid_generate-Grows s0 h0 rnd0 f0 size0 r0 clock0 l0) in
    let (o, h', lt) = rw e at (ulid_generate-Grows s h rnd f size r clock l) in
    let (z, a) = raw_bytes-16 s h in
    let (z', a') = raw_bytes-16 s' h' in
    rw (o0, o, encode_bytes-value (raw_bytes s) z a, encode_bytes-value (raw_bytes s') z' a')
      (omega (arith, lt))
