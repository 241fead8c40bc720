-- ===== src/Crypto/Tests.antt =====
-- internal/crypto/crypto.go with a cipher that leaves a text as it is.
use cli_relay.Prelude.{some, none, [], ◌∷◌, ◌≡◌, refl, arith}
use cli_relay.Prelude.Results.{ok, err, ◌>>=◌}
use cli_relay.Crypto.{Aead, encode_hex, decode_hex, encrypt, decrypt}
use cli_relay.Crypto.Sealing.{IsAead, decrypt-encrypt}

abbrev plain : Aead
plain = record { nonce_size = 2; seal = λ nonce text. text; unseal = λ nonce text. some text }

plain-IsAead : IsAead plain
plain-IsAead = record { opens = λ nonce text e. refl; seals_bytes = λ nonce text h. h }

decrypt-encrypt_example :
    (encrypt (some plain) (some (7 ∷ 255 ∷ [])) (104 ∷ 105 ∷ []) >>= λ sealed.
    decrypt (some plain) sealed)
    ≡ ok (104 ∷ 105 ∷ [])
decrypt-encrypt_example =
    decrypt-encrypt plain plain-IsAead (7 ∷ 255 ∷ []) (104 ∷ 105 ∷ []) refl
      (omega arith, (omega arith, tt)) (omega arith, (omega arith, tt))

written_in_hex :
    encrypt (some plain) (some (7 ∷ 255 ∷ [])) (104 ∷ [])
    ≡ ok (b'0' ∷ b'7' ∷ b'f' ∷ b'f' ∷ b'6' ∷ b'8' ∷ [])
unfolding encrypt encode_hex
written_in_hex = refl

refused :
    (decrypt none [] ≡ err "crypto not initialized")
    × (decrypt (some plain) (b'0' ∷ []) ≡ err "decode hex")
    × (decrypt (some plain) (b'0' ∷ b'F' ∷ []) ≡ err "ciphertext too short")
unfolding decrypt decode_hex
refused = (refl, refl, refl)
