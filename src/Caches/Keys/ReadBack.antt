-- ===== src/Caches/Keys/ReadBack.antt =====
-- caches/keys.py: what `_quote` writes is read back, and has the characters of a key.
use pysqlsuggestions.Prelude.{
  ℕ, zero, suc, ◌+◌, ◌-◌, ◌*◌, ◌<◌, ◌/◌, ◌%◌, Bool, true, false, not, ◌&&◌, List, [], ◌∷◌, ◌++◌,
  Str, ltb, ◌==◌, ==_iff, if◌then◌else◌, has_char, all, ◌≡◌, refl, ap, ◌∙◌, arith, Bool-cases, inl,
  inr, and-eq-true,
}
use pysqlsuggestions.Caches.Keys.Defs.{safe, hex_digit, quote_byte, quote_bytes}

abbrev unhex : ℕ → ℕ
unhex c = if ltb c b'A' then c - b'0' else c - b'A' + 10

-- Reads a quoted component back into its bytes.
pub unquote : Str → List ℕ
unquote [] = []
unquote (c ∷ []) = c ∷ []
unquote (c ∷ h ∷ []) = c ∷ h ∷ []
unquote (c ∷ h ∷ l ∷ rest) =
    let escape = (unhex h * 16 + unhex l) ∷ unquote rest in
    let plain = c ∷ unquote (h ∷ l ∷ rest) in if c == b'%' then escape else plain

-- The characters of a key, as the source promises: ASCII, and no separator.
abbrev pub key_char : ℕ → Bool
key_char c = ltb c 128 && not (c == b':')

test_byte_range : (ℕ → Bool) → ℕ → Bool
test_byte_range test zero = true
test_byte_range test (suc k) = test_byte_range test k && test k

test_byte_range-elem :
    (test : ℕ → Bool) (k b : ℕ) → b < k → test_byte_range test k ≡ true → test b ≡ true
unfolding test_byte_range
test_byte_range-elem test zero b below passed = absurd (omega arith)
test_byte_range-elem test (suc k) b below passed = ground (arith, test_byte_range-elem test k b)

-- What is checked of each byte: what is written for it is read back, and fits into a key.
abbrev unescaped : ℕ → ℕ
unescaped b = unhex (hex_digit (b / 16)) * 16 + unhex (hex_digit (b % 16))

abbrev byte_read_back : ℕ → Bool
byte_read_back b = if has_char safe b then not (b == b'%') else unescaped b == b

abbrev byte_fits : ℕ → Bool
byte_fits b = byte_read_back b && all key_char (quote_byte b)

bytes_fit : test_byte_range byte_fits 256 ≡ true
unfolding test_byte_range quote_byte
bytes_fit = refl

unquote-plain : (c : ℕ) (rest : Str) → (c == b'%') ≡ false → unquote (c ∷ rest) ≡ c ∷ unquote rest
unfolding unquote
unquote-plain c [] h = refl
unquote-plain c (x ∷ []) h = refl
unquote-plain c (x ∷ y ∷ rest) h = rw h

unquote-quote_byte :
    (b : ℕ) (rest : Str) → b < 256 → unquote (quote_byte b ++ rest) ≡ b ∷ unquote rest
unfolding quote_byte
unquote-quote_byte b rest h =
    let fits = test_byte_range-elem byte_fits 256 b h bytes_fit in
    let back = (and-eq-true (byte_read_back b) (all key_char (quote_byte b)) fits).0 in
    elim (Bool-cases (has_char safe b)) [
      | inl e ↦
          rw e
            (unquote-plain b rest (let p : not (b == b'%') ≡ true = rw e at back in ground arith))
      | inr e ↦ rw e (
          unfold unquote in
          ap (λ (x : ℕ). x ∷ unquote rest) ((==_iff (unescaped b) b).0 (rw e at back)))
    ]

abbrev pub AllBytes : List ℕ → Type 0
AllBytes [] = Unit
AllBytes (b ∷ bs) = (b < 256) × AllBytes bs

pub unquote-quote_bytes : (bs : List ℕ) → AllBytes bs → unquote (quote_bytes bs) ≡ bs
unfolding quote_bytes
unquote-quote_bytes [] h = unfold unquote in refl
unquote-quote_bytes (b ∷ bs) (h, hs) =
    unquote-quote_byte b (quote_bytes bs) h ∙ ap (◌∷◌ b) (unquote-quote_bytes bs hs)

all-append : (p : ℕ → Bool) (xs ys : Str) → all p (xs ++ ys) ≡ (all p xs && all p ys)
all-append p [] ys = refl
all-append p (x ∷ xs) ys = ground (arith, all-append p xs ys)

pub quote_bytes_fit : (bs : List ℕ) → AllBytes bs → all key_char (quote_bytes bs) ≡ true
unfolding quote_bytes
quote_bytes_fit [] h = refl
quote_bytes_fit (b ∷ bs) (h, hs) =
    all-append key_char (quote_byte b) (quote_bytes bs)
    ∙ rw
        ((and-eq-true _ (all key_char (quote_byte b))
          (test_byte_range-elem byte_fits 256 b h bytes_fit)).1)
        (quote_bytes_fit bs hs)
