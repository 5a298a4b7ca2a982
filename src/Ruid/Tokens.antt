-- ===== src/Ruid/Tokens.antt =====
-- libkycore/RUIDGen.h: `RandomValueGenerator`, which writes the words of the engine in hexadecimal.
use kyzddfer.Base.{
  ℕ, zero, suc, ◌+◌, ◌-◌, ◌*◌, ◌/◌, ◌%◌, ◌^◌, ◌≤◌, ◌<◌, ◌≡◌, refl, ap, sym, ◌∙◌, Bool-cases, inl,
  inr, [], ◌∷◌, ◌++◌, ltb, length, length-append, if◌then◌else◌, arith,
}
use kyzddfer.Base.Text.{Text}

-- `std::hex`: the last digit goes in front of what is written; the fuel is more than the number.
abbrev pub hex_digit : ℕ → ℕ
hex_digit d = if ltb d 10 then b'0' + d else b'a' + (d - 10)

unfoldable pub hex_loop : ℕ → ℕ → Text → Text
hex_loop zero n out = out
hex_loop (suc fuel) n out =
    let rest = hex_loop fuel (n / 16) (hex_digit (n % 16) ∷ out) in
    if ltb n 16 then hex_digit n ∷ out else rest

unfoldable pub to_hex : ℕ → Text
unfolding hex_loop
to_hex n = hex_loop (suc n) n []

-- `std::setw` with the fill `0`.
unfoldable pub zeros : ℕ → Text
zeros zero = []
zeros (suc n) = b'0' ∷ zeros n

unfoldable pub write_word : ℕ → ℕ → Text
unfolding to_hex zeros
write_word width n = zeros (width - length (to_hex n)) ++ to_hex n

-- The widths of the texts, by the type that they are made from.
pub data Bits : Type 0 where
  bits32 bits64 bits128 : Bits

-- What the generators make of the words that the distribution gives, from a position on.
unfoldable pub generate : Bits → (ℕ → ℕ) → ℕ → Text
unfolding write_word
generate bits32 words i = write_word 8 (words i)
generate bits64 words i = write_word 16 (words i)
generate bits128 words i = write_word 16 (words i) ++ write_word 16 (words (i + 1))

-- The numbers with at most so many digits.
abbrev pub below : ℕ → ℕ
below zero = 1
below (suc w) = 16 * below w

abbrev hex_value_of : ℕ → ℕ
hex_value_of c = if ltb c b'a' then c - b'0' else c - b'a' + 10

unfoldable hex_value : ℕ → Text → ℕ
hex_value n [] = n
hex_value n (c ∷ s) = hex_value (n * 16 + hex_value_of c) s

hex_value_of-hex_digit : (d : ℕ) → d < 16 → hex_value_of (hex_digit d) ≡ d
hex_value_of-hex_digit d h = ground arith

hex_value-hex_loop :
    (fuel n : ℕ) (out : Text) → n < fuel → hex_value 0 (hex_loop fuel n out) ≡ hex_value n out
unfolding hex_loop hex_value
hex_value-hex_loop zero n out h = elim h [ ]
hex_value-hex_loop (suc fuel) n out h = elim (Bool-cases (ltb n 16)) [
  | inl small ↦
      rw small (ap (λ k. hex_value k out) (omega (arith, hex_value_of-hex_digit n (ground arith))))
  | inr big ↦ rw big (
      hex_value-hex_loop fuel (n / 16) (hex_digit (n % 16) ∷ out) (ground arith)
      ∙ ap (λ k. hex_value k out) (omega (arith, hex_value_of-hex_digit (n % 16) (omega arith))))
]

length-hex_loop :
    (fuel n w : ℕ) (out : Text)
    → n < fuel
    → n < below (suc w)
    → length (hex_loop fuel n out) ≤ suc w + length out
unfolding hex_loop
length-hex_loop zero n w out h b = elim h [ ]
length-hex_loop (suc fuel) n zero out h b = elim (Bool-cases (ltb n 16)) [
  | inl small ↦ rw small (omega arith)
  | inr big ↦ absurd (ground arith)
]
length-hex_loop (suc fuel) n (suc w) out h b = elim (Bool-cases (ltb n 16)) [
  | inl small ↦ rw small (omega arith)
  | inr big ↦ rw big (
      omega (
        arith,
        length-hex_loop fuel (n / 16) w (hex_digit (n % 16) ∷ out) (ground arith)
            (omega (arith, b)),
      ))
]

-- The zeros in front change neither the value nor, up to the width, the length.
hex_value-zeros : (k : ℕ) (s : Text) → hex_value 0 (zeros k ++ s) ≡ hex_value 0 s
unfolding zeros hex_value
hex_value-zeros zero s = refl
hex_value-zeros (suc k) s = hex_value-zeros k s

length-zeros : (k : ℕ) → length (zeros k) ≡ k
unfolding zeros
length-zeros zero = refl
length-zeros (suc k) = ap (λ (n : ℕ). suc n) (length-zeros k)

length-write_word : (w n : ℕ) → n < below (suc w) → length (write_word (suc w) n) ≡ suc w
unfolding write_word to_hex
length-write_word w n h = omega (
  arith,
  length-append (zeros (suc w - length (to_hex n))) (to_hex n),
  length-zeros (suc w - length (to_hex n)),
  length-hex_loop (suc n) n w [] (omega arith) h,
)

hex_value-write_word : (w n : ℕ) → hex_value 0 (write_word w n) ≡ n
unfolding write_word to_hex hex_value
hex_value-write_word w n =
    hex_value-zeros (w - length (to_hex n)) (to_hex n)
    ∙ hex_value-hex_loop (suc n) n [] (omega arith)

write_word-injective : (w m n : ℕ) → write_word w m ≡ write_word w n → m ≡ n
write_word-injective w m n e =
    sym (hex_value-write_word w m) ∙ ap (hex_value 0) e ∙ hex_value-write_word w n

append-injective :
    (xs ys a b : Text) → length xs ≡ length ys → xs ++ a ≡ ys ++ b → (xs ≡ ys) × (a ≡ b)
append-injective [] [] a b l e = (refl, e)
append-injective [] (y ∷ ys) a b l e = absurd (omega (arith, l))
append-injective (x ∷ xs) [] a b l e = absurd (omega (arith, l))
append-injective (x ∷ xs) (y ∷ ys) a b l e =
    let front : x ≡ y = cc in
    let behind : xs ++ a ≡ ys ++ b = cc in
    let (p, q) = append-injective xs ys a b (omega (arith, l)) behind in (rw (front, p) refl, q)

-- The words that a text is made of, and how many values they have.
abbrev pub width : Bits → ℕ
width bits32 = 8
width bits64 = 16
width bits128 = 32

abbrev pub range : Bits → ℕ
range bits32 = 2 ^ 32
range bits64 = 2 ^ 64
range bits128 = 2 ^ 64

abbrev pub SameWords : Bits → (ℕ → ℕ) → ℕ → ℕ → Type 0
SameWords bits32 words i j = words i ≡ words j
SameWords bits64 words i j = words i ≡ words j
SameWords bits128 words i j = (words i ≡ words j) × (words (i + 1) ≡ words (j + 1))

-- Where the words are in their range, every text has the length of its type, and two texts are the
-- same only if they are made of the same words.
pub generate_lem :
    (b : Bits) (words : ℕ → ℕ)
    → ((i : ℕ) → words i < range b)
    → ((i : ℕ) → length (generate b words i) ≡ width b)
      × ((i j : ℕ) → generate b words i ≡ generate b words j → SameWords b words i j)
unfolding generate
generate_lem bits32 words h = (
  (λ i. length-write_word 7 (words i) (h i)),
  (λ i j e. write_word-injective 8 (words i) (words j) e),
)
generate_lem bits64 words h = (
  (λ i. length-write_word 15 (words i) (h i)),
  (λ i j e. write_word-injective 16 (words i) (words j) e),
)
generate_lem bits128 words h =
    let len = λ (i : ℕ). length-write_word 15 (words i) (h i) in
    (
      (λ i. omega (
        arith,
        length-append (write_word 16 (words i)) (write_word 16 (words (i + 1))),
        len i,
        len (i + 1),
      )),
      λ i j e.
          let (p, q) =
            append-injective (write_word 16 (words i)) (write_word 16 (words j)) _ _
              (len i ∙ sym (len j)) e in
          (
            write_word-injective 16 (words i) (words j) p,
            write_word-injective 16 (words (i + 1)) (words (j + 1)) q,
          ),
    )
