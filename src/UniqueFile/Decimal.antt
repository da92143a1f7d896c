-- ===== src/UniqueFile/Decimal.antt =====
-- `%d` of Go's `fmt` for natural numbers.
use pdf_to_epub.FilePath.{slash, contains_byte}
use pdf_to_epub.Prelude.{
  ℕ, zero, suc, ◌+◌, ◌/◌, ◌%◌, ◌≡◌, refl, false, [], ◌∷◌, ltb, if◌then◌else◌, Str, arith, codes,
}

-- The digits of `n` before those in `tail`; `n` has at most `fuel` of them.
unfoldable pub digits : ℕ → ℕ → Str → Str
digits zero n tail = tail
digits (suc fuel) n tail =
    let t = (b'0' + n % 10) ∷ tail in
    let more = digits fuel (n / 10) t in if ltb n 10 then t else more

unfoldable pub decimal : ℕ → Str
decimal n = digits (suc n) n []

digits-no_slash :
    (fuel n : ℕ) (tail : Str)
    → contains_byte slash tail ≡ false
    → contains_byte slash (digits fuel n tail) ≡ false
unfolding digits contains_byte
digits-no_slash zero n tail h = h
digits-no_slash (suc fuel) n tail h =
    ground (arith, digits-no_slash fuel (n / 10) ((b'0' + n % 10) ∷ tail))

pub decimal-no_slash : (n : ℕ) → contains_byte slash (decimal n) ≡ false
unfolding decimal contains_byte
decimal-no_slash n = digits-no_slash (suc n) n [] refl

decimal_test : decimal 10000 ≡ codes "10000"
unfolding decimal digits
decimal_test = refl
