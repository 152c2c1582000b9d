-- ===== src/Common/Move.antt =====
-- What a step of a concurrent program comes to: `blocked` is a step that cannot happen now, `panics` a
-- runtime panic, such as a send on a closed channel.
pub data Move {ℓ} (A : Type ℓ) : Type ℓ where
  moved : A → Move A
  blocked : Move A
  panics : Move A
