-- ===== src/Ir/Word.antt =====
-- What the integer operators mean on words of `n` bits, numbers below 2 ^ n. This is the
-- description that the passes are held to; `none` is division by zero, a shift by the width or
-- more, or an operand that is no word of the type.
pub mod Laws
pub mod Neutral
use poly_cminus.Prelude.{
  ℕ, ◌+◌, ◌-◌, ◌*◌, ◌/◌, ◌%◌, ◌^◌, bit_and, ◌&&◌, ltb, ◌==◌, if◌then◌else◌, Option, none, some,
}
use poly_cminus.Ir.{OpId, add, sub, mul, sdiv, srem, shl, lshr, ashr, and_}

-- The absolute value of the integer that a word stands for; `m` is the number of words.
abbrev pub magnitude : ℕ → ℕ → ℕ
magnitude m a = if ltb a (m / 2) then a else m - a

-- The word of -a.
abbrev pub negated : ℕ → ℕ → ℕ
negated m a = (m - a) % m

-- Division truncates toward zero, and the remainder has the sign of the dividend.
abbrev pub signed_quotient : ℕ → ℕ → ℕ → ℕ
signed_quotient m a b =
    let q = magnitude m a / magnitude m b in
    if ltb a (m / 2)
    then if ltb b (m / 2) then q else negated m q
    else if ltb b (m / 2)
    then negated m q
    else q

abbrev pub signed_remainder : ℕ → ℕ → ℕ → ℕ
signed_remainder m a b =
    let r = magnitude m a % magnitude m b in if ltb a (m / 2) then r else negated m r

-- The arithmetic shift by one factor `p`, a power of two, rounds toward minus infinity.
abbrev pub arithmetic_shift : ℕ → ℕ → ℕ → ℕ
arithmetic_shift m a p = if ltb a (m / 2) then a / p else m - 1 - (m - 1 - a) / p

abbrev pub apply_op : ℕ → OpId → ℕ → ℕ → Option ℕ
apply_op n add a b = some ((a + b) % 2 ^ n)
apply_op n sub a b = some ((a + 2 ^ n - b) % 2 ^ n)
apply_op n mul a b = some (a * b % 2 ^ n)
apply_op n sdiv a b = if b == 0 then none else some (signed_quotient (2 ^ n) a b)
apply_op n srem a b = if b == 0 then none else some (signed_remainder (2 ^ n) a b)
apply_op n shl a b = if ltb b n then some (a * 2 ^ b % 2 ^ n) else none
apply_op n lshr a b = if ltb b n then some (a / 2 ^ b) else none
apply_op n ashr a b = if ltb b n then some (arithmetic_shift (2 ^ n) a (2 ^ b)) else none
apply_op n and_ a b = some (bit_and a b)

unfoldable pub word_op : ℕ → OpId → ℕ → ℕ → Option ℕ
word_op n op a b = if ltb a (2 ^ n) && ltb b (2 ^ n) then apply_op n op a b else none

-- A C `int`, a 32-bit pattern, as a word of `n` bits: sign extension, or the low bits.
abbrev pub sign_extend : ℕ → ℕ → ℕ
sign_extend n c = if ltb c (2 ^ 31) then c % 2 ^ n else (c + 2 ^ 64 - 2 ^ 32) % 2 ^ n
