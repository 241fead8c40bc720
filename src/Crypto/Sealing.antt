-- ===== src/Crypto/Sealing.antt =====
-- internal/crypto/crypto.go: what is sealed is opened again.
use cli_relay.Prelude.{
  ℕ, ltb, false, sym, ◌+◌, ◌*◌, ◌/◌, ◌%◌, ◌<◌, some, [], ◌∷◌, ◌++◌, ◌≡◌, refl, ap, arith, All,
}
use cli_relay.Prelude.{length, length-append}
use cli_relay.Prelude.Results.{ok, ◌>>=◌}
use cli_relay.Crypto.{
  Bytes, Aead, hex_digit, hex_value, encode_hex, decode_hex, take, drop, encrypt, decrypt,
}

hex_value-hex_digit : (n : ℕ) → n < 16 → hex_value (hex_digit n) ≡ some n
hex_value-hex_digit n h = ground arith

joined : (b : ℕ) → b / 16 * 16 + b % 16 ≡ b
joined b = omega arith

long_enough : (a b : Bytes) → ltb (length (a ++ b)) (length a) ≡ false
long_enough a b = ground (arith, length-append a b)

abbrev pub IsByte : ℕ → Type 0
IsByte b = b < 256

pub decode_hex-encode_hex : (bs : Bytes) → All IsByte bs → decode_hex (encode_hex bs) ≡ some bs
unfolding decode_hex encode_hex
decode_hex-encode_hex [] h = refl
decode_hex-encode_hex (b ∷ bs) (h, hs) =
    rw
      (
        hex_value-hex_digit (b / 16) (omega arith),
        hex_value-hex_digit (b % 16) (omega arith),
        decode_hex-encode_hex bs hs,
      )
      (ap (λ (c : ℕ). some (c ∷ bs)) (joined b))

take-append : (a b : Bytes) → take (length a) (a ++ b) ≡ a
unfolding take
take-append [] b = refl
take-append (x ∷ a) b = ap (λ rest. x ∷ rest) (take-append a b)

drop-append : (a b : Bytes) → drop (length a) (a ++ b) ≡ b
unfolding drop
drop-append [] b = refl
drop-append (x ∷ a) b = drop-append a b

All-append : (a b : Bytes) → All IsByte a → All IsByte b → All IsByte (a ++ b)
All-append [] b ha hb = hb
All-append (x ∷ a) b (h, ha) hb = (h, All-append a b ha hb)

-- What the program relies on: `unseal` undoes `seal` with the same nonce, and both deal in bytes.
pub record IsAead (g : Aead) : Type 0 where
  pub opens :
      (nonce text : Bytes)
      → length nonce ≡ g.nonce_size
      → g.unseal nonce (g.seal nonce text) ≡ some text
  pub seals_bytes : (nonce text : Bytes) → All IsByte text → All IsByte (g.seal nonce text)

-- With a cipher that opens what it seals, Encrypt succeeds with a nonce of the right size, and Decrypt
-- reads the text back from what it wrote.
pub decrypt-encrypt :
    (g : Aead)
    → IsAead g
    → (nonce text : Bytes) → length nonce ≡ g.nonce_size
    → All IsByte nonce
    → All IsByte text
    → (encrypt (some g) (some nonce) text >>= λ sealed. decrypt (some g) sealed) ≡ ok text
unfolding encrypt decrypt
decrypt-encrypt g law nonce text e bytes plain =
    rw
      (decode_hex-encode_hex (nonce ++ g.seal nonce text)
        (All-append nonce _ bytes (law.seals_bytes nonce text plain)))
      (rw
        (
          sym e,
          long_enough nonce (g.seal nonce text),
          take-append nonce (g.seal nonce text),
          drop-append nonce (g.seal nonce text),
          law.opens nonce text e,
        )
        refl)
