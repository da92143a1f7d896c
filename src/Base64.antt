-- ===== src/Base64.antt =====
-- Go's `base64.RawURLEncoding`: the URL alphabet without padding. Decoding skips line ends, and reads
-- over the unused bits of the last character.
use pdf_to_epub.FilePath.{contains_byte}
use pdf_to_epub.Prelude.{
  ℕ, ◌+◌, ◌-◌, ◌*◌, ◌/◌, ◌%◌, ◌<◌, false, ◌||◌, ◌&&◌, Option, none, some, List, [], ◌∷◌, ◌==◌, ltb,
  leb, if◌then◌else◌, Str, ◌≡◌, refl, All, arith, map, ap,
}

abbrev pub encode_sextet : ℕ → ℕ
encode_sextet n =
    if ltb n 26
    then b'A' + n
    else if ltb n 52
    then b'a' + (n - 26)
    else if ltb n 62
    then b'0' + (n - 52)
    else if n == 62
    then b'-'
    else b'_'

abbrev pub decode_sextet : ℕ → Option ℕ
decode_sextet c =
    if leb b'A' c && leb c b'Z'
    then some (c - b'A')
    else if leb b'a' c && leb c b'z'
    then some (c - b'a' + 26)
    else if leb b'0' c && leb c b'9'
    then some (c - b'0' + 52)
    else if c == b'-'
    then some 62
    else if c == b'_'
    then some 63
    else none

unfoldable pub encode : Str → Str
encode [] = []
encode (a ∷ []) = encode_sextet (a / 4) ∷ encode_sextet (a % 4 * 16) ∷ []
encode (a ∷ b ∷ []) =
    encode_sextet (a / 4) ∷ encode_sextet (a % 4 * 16 + b / 16) ∷ encode_sextet (b % 16 * 4) ∷ []
encode (a ∷ b ∷ c ∷ s) =
    encode_sextet (a / 4)
    ∷ encode_sextet (a % 4 * 16 + b / 16)
    ∷ encode_sextet (b % 16 * 4 + c / 64)
    ∷ encode_sextet (c % 64)
    ∷ encode s

-- The values of the characters, line ends left out.
unfoldable pub sextets : Str → Option (List ℕ)
sextets [] = some []
sextets (c ∷ s) =
    let rest = sextets s in
    if c == b'\n' || c == b'\r' then rest else elim (decode_sextet c) [
      | none ↦ none
      | some n ↦ elim rest [ none ↦ none | some l ↦ some (n ∷ l) ]
    ]

unfoldable pub join_sextets : List ℕ → Option Str
join_sextets [] = some []
join_sextets (w ∷ []) = none
join_sextets (w ∷ x ∷ []) = some ((w * 4 + x / 16) ∷ [])
join_sextets (w ∷ x ∷ y ∷ []) = some ((w * 4 + x / 16) ∷ (x % 16 * 16 + y / 4) ∷ [])
join_sextets (w ∷ x ∷ y ∷ z ∷ l) = elim (join_sextets l) [
  | none ↦ none
  | some s ↦ some ((w * 4 + x / 16) ∷ (x % 16 * 16 + y / 4) ∷ (y % 4 * 64 + z) ∷ s)
]

unfoldable pub decode : Str → Option Str
decode s = elim (sextets s) [ none ↦ none | some l ↦ join_sextets l ]

abbrev pub IsByte : ℕ → Type 0
IsByte n = n < 256

-- The sextets of a text.
unfoldable groups : Str → List ℕ
groups [] = []
groups (a ∷ []) = (a / 4) ∷ (a % 4 * 16) ∷ []
groups (a ∷ b ∷ []) = (a / 4) ∷ (a % 4 * 16 + b / 16) ∷ (b % 16 * 4) ∷ []
groups (a ∷ b ∷ c ∷ s) =
    (a / 4) ∷ (a % 4 * 16 + b / 16) ∷ (b % 16 * 4 + c / 64) ∷ (c % 64) ∷ groups s

decode_sextet-encode_sextet : (n : ℕ) → n < 64 → decode_sextet (encode_sextet n) ≡ some n
decode_sextet-encode_sextet n h = ground arith

sextets-cons :
    (n : ℕ) (s : Str) (l : List ℕ)
    → n < 64
    → sextets s ≡ some l
    → sextets (encode_sextet n ∷ s) ≡ some (n ∷ l)
unfolding sextets
sextets-cons n s l h e = ground arith

sextets-encode : (s : Str) → All IsByte s → sextets (encode s) ≡ some (groups s)
unfolding encode groups
sextets-encode [] h = unfold sextets in refl
sextets-encode (a ∷ []) h =
    sextets-cons (a / 4) _ _ (omega (arith, h.0))
      (sextets-cons (a % 4 * 16) [] [] (omega (arith, h.0)) (unfold sextets in refl))
sextets-encode (a ∷ b ∷ []) h = sextets-cons (a / 4) _ _ (omega (arith, h.0)) (
    sextets-cons (a % 4 * 16 + b / 16) _ _ (omega (arith, h.0, h.1.0))
      (sextets-cons (b % 16 * 4) [] [] (omega arith) (unfold sextets in refl)))
sextets-encode (a ∷ b ∷ c ∷ s) h = sextets-cons (a / 4) _ _ (omega (arith, h.0)) (
    sextets-cons (a % 4 * 16 + b / 16) _ _ (omega (arith, h.0, h.1.0)) (
      sextets-cons (b % 16 * 4 + c / 64) _ _ (omega (arith, h.1.1.0))
        (sextets-cons (c % 64) _ _ (omega arith) (sextets-encode s h.1.1.1))))

join_sextets-groups : (s : Str) → All IsByte s → join_sextets (groups s) ≡ some s
unfolding join_sextets groups
join_sextets-groups [] h = refl
join_sextets-groups (a ∷ []) h = ground arith
join_sextets-groups (a ∷ b ∷ []) h = ground (arith, h.1.0)
join_sextets-groups (a ∷ b ∷ c ∷ s) h =
    ground (arith, h.1.0, h.1.1.0, join_sextets-groups s h.1.1.1)

-- What is encoded is decoded to the same bytes.
pub decode-encode : (s : Str) → All IsByte s → decode (encode s) ≡ some s
unfolding decode
decode-encode s h = rw (sextets-encode s h, decode) (join_sextets-groups s h)

no_dot-cons :
    (n : ℕ) (s : Str)
    → contains_byte b'.' s ≡ false
    → contains_byte b'.' (encode_sextet n ∷ s) ≡ false
unfolding contains_byte
no_dot-cons n s h = ground arith

encode-groups : (s : Str) → encode s ≡ map encode_sextet (groups s)
unfolding encode groups
encode-groups [] = refl
encode-groups (a ∷ []) = refl
encode-groups (a ∷ b ∷ []) = refl
encode-groups (a ∷ b ∷ c ∷ s) =
    ap
      (λ l.
        encode_sextet (a / 4)
        ∷ encode_sextet (a % 4 * 16 + b / 16)
        ∷ encode_sextet (b % 16 * 4 + c / 64)
        ∷ encode_sextet (c % 64)
        ∷ l)
      (encode-groups s)

no_dot-map : (l : List ℕ) → contains_byte b'.' (map encode_sextet l) ≡ false
no_dot-map [] = unfold contains_byte in refl
no_dot-map (n ∷ l) = no_dot-cons n (map encode_sextet l) (no_dot-map l)

-- An encoded text has no dot.
pub encode-no_dot : (s : Str) → contains_byte b'.' (encode s) ≡ false
encode-no_dot s = rw (encode-groups s) (no_dot-map (groups s))
