-- ===== src/Asap/Ulid/Tests.antt =====
-- src/asap/ulid.c: the theorems at two identifiers of one millisecond.
use mathlib.Core.Option.{some-injective}
use shellclaw.Common.{ℕ, ◌*◌, ◌<◌, ◌≤◌, some, [], ◌∷◌, ◌≡◌, refl, arith, Bytes}
use shellclaw.Asap.Ulid.{
  UlidState, generated, failed, u80_inc, encode_bytes, raw_bytes, get_epoch_ms_u48, ulid_generate,
}
use shellclaw.Asap.Ulid.Encoding.{AllBytes, bytes_value, c32_value, encode_bytes-value}
use shellclaw.Asap.Ulid.Order.{IsUlidState, ulid_generate-increasing}

abbrev before : UlidState
before = record { last_ms = 1000; rand = 0 ∷ 1 ∷ 2 ∷ 3 ∷ 4 ∷ 5 ∷ 6 ∷ 7 ∷ 8 ∷ 255 ∷ [] }

abbrev after : UlidState
after = record { last_ms = 1000; rand = 0 ∷ 1 ∷ 2 ∷ 3 ∷ 4 ∷ 5 ∷ 6 ∷ 7 ∷ 9 ∷ 0 ∷ [] }

rand-AllBytes : AllBytes before.rand
rand-AllBytes = (
  omega arith,
  (
    omega arith,
    (
      omega arith,
      (
        omega arith,
        (
          omega arith,
          (omega arith, (omega arith, (omega arith, (omega arith, (omega arith, tt))))),
        ),
      ),
    ),
  ),
)

before-IsUlidState : IsUlidState before
before-IsUlidState = record { in_range = omega arith; sized = refl; all_bytes = rand-AllBytes }

same_millisecond :
    ulid_generate before 27 (some (1, 500) ∷ []) []
    ≡ generated (encode_bytes (raw_bytes after)) after
unfolding ulid_generate get_epoch_ms_u48 u80_inc
same_millisecond = refl

small_buffer : ulid_generate before 26 (some (1, 0) ∷ []) [] ≡ failed before
unfolding ulid_generate
small_buffer = refl

not_back : (ms : ℕ) → get_epoch_ms_u48 (some (1, 500)) ≡ some ms → 1000 ≤ ms
unfolding get_epoch_ms_u48
not_back ms e = omega (arith, some-injective 1000 ms e)

abbrev third : UlidState
third = record { last_ms = 1000; rand = 0 ∷ 1 ∷ 2 ∷ 3 ∷ 4 ∷ 5 ∷ 6 ∷ 7 ∷ 9 ∷ 1 ∷ [] }

same_again :
    ulid_generate after 27 (some (1, 500) ∷ []) []
    ≡ generated (encode_bytes (raw_bytes third)) third
unfolding ulid_generate get_epoch_ms_u48 u80_inc
same_again = refl

ulid_generate-increasing_example :
    c32_value 0 (encode_bytes (raw_bytes after)) < c32_value 0 (encode_bytes (raw_bytes third))
ulid_generate-increasing_example =
    ulid_generate-increasing before after third 27 27 (some (1, 500)) (some (1, 500)) [] [] [] []
      (encode_bytes (raw_bytes after)) (encode_bytes (raw_bytes third)) before-IsUlidState tt tt
      not_back not_back same_millisecond same_again

abbrev sixteen : Bytes
sixteen = 1 ∷ 2 ∷ 3 ∷ 4 ∷ 5 ∷ 6 ∷ 7 ∷ 8 ∷ 9 ∷ 10 ∷ 11 ∷ 12 ∷ 13 ∷ 14 ∷ 15 ∷ 16 ∷ []

sixteen-AllBytes : AllBytes sixteen
sixteen-AllBytes = (
  omega arith,
  (
    omega arith,
    (
      omega arith,
      (
        omega arith,
        (
          omega arith,
          (
            omega arith,
            (
              omega arith,
              (
                omega arith,
                (
                  omega arith,
                  (
                    omega arith,
                    (
                      omega arith,
                      (omega arith, (omega arith, (omega arith, (omega arith, (omega arith, tt))))),
                    ),
                  ),
                ),
              ),
            ),
          ),
        ),
      ),
    ),
  ),
)

encode_bytes-value_example : c32_value 0 (encode_bytes sixteen) ≡ bytes_value sixteen * 4
encode_bytes-value_example = encode_bytes-value sixteen refl sixteen-AllBytes
