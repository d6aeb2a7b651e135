-- ===== src/Logging/Banner.antt =====
-- `separator` of utilities/logger.py, for the width of the terminal.
use Prim.Native.Nat.{◌/◌}
use Prim.Native.String.{count}
use opendatahub_tests.Shared.{
  ℕ, zero, suc, ◌+◌, ◌-◌, String, ◌≡◌, Option, none, some, ◌==◌, if◌then◌else◌, join, false, arith,
  ◌≤◌, ◌<◌, ◌⊎◌,
}
use text.Mathlib.TextLemmas.{length-nil, length-append}

-- `symbol_ * n`
unfoldable pub repeated : ℕ → String → String
repeated zero symbol = ""
repeated (suc n) symbol = join symbol (repeated n symbol)

-- `symbol_ * n` is empty too where `n` is negative.
unfoldable pub separator : ℕ → String → Option String → String
separator terminal_width symbol none = repeated terminal_width symbol
separator terminal_width symbol (some val) =
    if val == ""
    then repeated terminal_width symbol
    else let sepa = (terminal_width - count val - 2) / 2 in
      join (repeated sepa symbol) (join " " (join val (join " " (repeated sepa symbol))))

count-repeated : (n : ℕ) (symbol : String) → count symbol ≡ 1 → count (repeated n symbol) ≡ n
unfolding repeated
count-repeated zero symbol one = omega (arith, length-nil)
count-repeated (suc n) symbol one =
    omega (arith, one, length-append symbol (repeated n symbol), count-repeated n symbol one)

-- With a symbol of one character the banner of a text that is not empty fills the terminal, or
-- leaves one column, if the text fits with a space on either side; otherwise it is the text with
-- these spaces.
pub count-separator :
    (width : ℕ) (symbol val : String)
    → count symbol ≡ 1
    → (val == "") ≡ false
    → (count val + 2 ≤ width
        → (count (separator width symbol (some val)) ≡ width)
          ⊎ (count (separator width symbol (some val)) + 1 ≡ width))
      × (width < count val + 2 → count (separator width symbol (some val)) ≡ count val + 2)
unfolding separator
count-separator width symbol val one e =
    let sepa = (width - count val - 2) / 2 in
    let side = repeated sepa symbol in
    let total : count (separator width symbol (some val)) ≡ sepa + sepa + count val + 2 = rw e (
      ground (
        arith,
        length-append side (join " " (join val (join " " side))),
        length-append " " (join val (join " " side)),
        length-append val (join " " side),
        length-append " " side,
        count-repeated sepa symbol one,
      )) in
    ((λ fits. ground (arith, total)), (λ long. omega (arith, total)))
