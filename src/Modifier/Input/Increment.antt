-- ===== src/Modifier/Input/Increment.antt =====
-- tracing/mutation/modifier.go, mutateUintStep: the parameter after the step.
use autopatch.Common.{ℕ, ◌+◌, ◌-◌, ◌*◌, ◌/◌, ◌^◌, ◌≤◌, ◌<◌, ◌≡◌, List, length, get_or, arith}
use autopatch.Common.Int.{ℤ, pos, ◌+ℤ◌, pos_part}
use autopatch.Storage.Bytes.{AreBytes}
use autopatch.Mutation.Pick.{pick, pick-All}
use autopatch.Modifier.Outcome.{returned}
use autopatch.Modifier.Input.Keeps.{Keeps, word_at-lt, put_number-Keeps}
use autopatch.Modifier.Input.Steps.{
  param_start, param_start-fits, with_param-returned, word_at-put_number, get_or-put_number,
}
use autopatch.Modifier.Input.{put_stepped, put_number, word_at, steps, stepped, mutate_uint_step}

add-lt : (n : ℕ) (z : ℤ) → pos_part z < 1001 → pos_part (pos n +ℤ z) < n + 1001
unfolding ◌+ℤ◌
add-lt n z h = ground arith

stepped-lt : (n variant : ℕ) → stepped n variant < n + 1001
stepped-lt n variant = add-lt n (pick (pos 1) steps variant) (
    pick-All (λ z. pos_part z < 1001) (pos 1) steps variant
      (
        omega arith,
        (
          omega arith,
          (
            omega arith,
            (omega arith, (omega arith, (omega arith, (omega arith, (omega arith, tt))))),
          ),
        ),
      ))

-- On call data of one whole word at least, the strategy returns call data whose chosen parameter is the
-- old one plus the step, or 0 for a negative sum, and that keeps its length and its selector, as long as
-- the sum has at most 256 bits.
pub uint_step-value :
    (bs : List ℕ) (variant : ℕ)
    → AreBytes bs
    → 36 ≤ length bs
    → stepped (word_at bs (param_start bs (variant / 8))) variant < 256 ^ 32
    → (out : List ℕ) × (mutate_uint_step bs variant ≡ returned out)
      × (word_at out (param_start bs (variant / 8))
          ≡ stepped (word_at bs (param_start bs (variant / 8))) variant)
      × Keeps 4 bs out
unfolding mutate_uint_step put_stepped
uint_step-value bs variant b h lt =
    let start = param_start bs (variant / 8) in
    let n = stepped (word_at bs start) variant in
    let fits = param_start-fits bs (variant / 8) h in
    (
      put_number bs start n,
      with_param-returned bs (variant / 8) (put_stepped bs variant) h,
      word_at-put_number bs start n fits lt,
      put_number-Keeps 4 0 bs start n (omega arith) fits lt b,
    )

-- A sum of more than 256 bits takes 33 bytes: the byte before the parameter becomes 1. For the first
-- parameter that is the last byte of the selector, so that another function is called.
pub uint_step-overflow :
    (bs : List ℕ) (variant : ℕ)
    → AreBytes bs
    → 36 ≤ length bs
    → 256 ^ 32 ≤ stepped (word_at bs (param_start bs (variant / 8))) variant
    → (out : List ℕ) × (mutate_uint_step bs variant ≡ returned out)
      × (get_or out (param_start bs (variant / 8) - 1) 0 ≡ 1)
      × Keeps 3 bs out
unfolding mutate_uint_step put_stepped
uint_step-overflow bs variant b h over =
    let start = param_start bs (variant / 8) in
    let n = stepped (word_at bs start) variant in
    let fits = param_start-fits bs (variant / 8) h in
    let below : n < 2 * 256 ^ 32 =
      omega (arith, stepped-lt (word_at bs start) variant, word_at-lt bs start fits b) in
    (
      put_number bs start n,
      with_param-returned bs (variant / 8) (put_stepped bs variant) h,
      get_or-put_number bs start n (omega arith) fits over below,
      put_number-Keeps 3 1 bs start n (omega arith) fits (omega (arith, below)) b,
    )
