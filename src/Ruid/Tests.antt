-- ===== src/Ruid/Tests.antt =====
-- RUIDGen.h's theorems over an engine that gives the numbers in their order.
use kyzddfer.Base.{ℕ, length, ◌≤◌, ◌≡◌, refl, some, [], ◌∷◌, count, ℕ_discrete, arith}
use kyzddfer.Base.Text.{codes}
use kyzddfer.Ruid.{RuidGen, attempts, is_issued, issue_loop, issue, revoke}
use kyzddfer.Ruid.Tokens.{
  bits128, generate, hex_loop, to_hex, zeros, write_word, width, SameWords, generate_lem,
}
use kyzddfer.Ruid.Issues.{Issued, issue-Issued, fresh, issues, revokes, Reach-unique}

abbrev in_order : ℕ → ℕ
in_order n = n

-- Zero and one are in use.
abbrev two : RuidGen ℕ
two = record { issued = 1 ∷ 0 ∷ []; drawn = 0 }

third : (issue ℕ_discrete in_order two).1 ≡ some 2
unfolding issue issue_loop is_issued count ℕ_discrete
third = refl

issue-Issued_example : Issued ℕ_discrete in_order attempts two (issue ℕ_discrete in_order two)
issue-Issued_example = issue-Issued ℕ_discrete in_order two

abbrev empty : RuidGen ℕ
empty = record { issued = []; drawn = 0 }

abbrev one : RuidGen ℕ
one = (issue ℕ_discrete in_order empty).0

Reach-unique_example : count ℕ_discrete 0 (revoke ℕ_discrete one 7).0.issued ≤ 1
Reach-unique_example =
    Reach-unique ℕ_discrete (revoke ℕ_discrete one 7).0
      (revokes one 7 (issues in_order empty fresh)) 0

abbrev words : ℕ → ℕ
words i = 171

first_token : generate bits128 words 0 ≡ codes "00000000000000ab00000000000000ab"
unfolding generate hex_loop to_hex zeros write_word
first_token = refl

generate_lem_example :
    ((i : ℕ) → length (generate bits128 words i) ≡ width bits128)
    × ((i j : ℕ)
        → generate bits128 words i ≡ generate bits128 words j
        → SameWords bits128 words i j)
generate_lem_example = generate_lem bits128 words (λ i. omega arith)
