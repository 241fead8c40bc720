-- ===== src/Crypto.antt =====
-- internal/crypto/crypto.go: sealed texts, written in hexadecimal digits. A Go string is a list of
-- bytes here. `Aead` is what the program uses of package crypto/cipher.
use cli_relay.Prelude.{
  ℕ, zero, suc, String, ◌+◌, ◌*◌, ◌/◌, ◌%◌, ◌-◌, Bool, Option, none, some, List, [], ◌∷◌, ◌++◌,
  if◌then◌else◌, ◌&&◌, leb, ltb, not,
}
use cli_relay.Prelude.Results.{Result, ok, err, ◌>>=◌}
use cli_relay.Prelude.{length}
pub mod Sealing
mod Tests

abbrev pub Bytes : Type 0
Bytes = List ℕ

-- `unseal` is `Open`, none where the text was not sealed with this key.
pub record Aead : Type 0 where
  pub nonce_size : ℕ
  pub seal : Bytes → Bytes → Bytes
  pub unseal : Bytes → Bytes → Option Bytes

-- A digit of `hex.EncodeToString`.
abbrev pub hex_digit : ℕ → ℕ
hex_digit n = if ltb n 10 then b'0' + n else 87 + n

unfoldable pub encode_hex : Bytes → Bytes
encode_hex [] = []
encode_hex (b ∷ bs) = hex_digit (b / 16) ∷ hex_digit (b % 16) ∷ encode_hex bs

-- `hex.DecodeString` reads capital letters too.
abbrev pub hex_value : ℕ → Option ℕ
hex_value c =
    if leb b'0' c && leb c b'9'
    then some (c - b'0')
    else if leb b'a' c && leb c b'f'
    then some (c - 87)
    else if leb b'A' c && leb c b'F'
    then some (c - 55)
    else none

abbrev pub hex_byte : Option ℕ → Option ℕ → Option Bytes → Option Bytes
hex_byte (some high) (some low) (some bs) = some ((high * 16 + low) ∷ bs)
hex_byte _ _ _ = none

unfoldable pub decode_hex : Bytes → Option Bytes
decode_hex [] = some []
decode_hex (c ∷ []) = none
decode_hex (c ∷ d ∷ text) = hex_byte (hex_value c) (hex_value d) (decode_hex text)

-- `data[:n]` and `data[n:]`
unfoldable pub take : ℕ → Bytes → Bytes
take zero bs = []
take (suc n) [] = []
take (suc n) (b ∷ bs) = b ∷ take n bs

unfoldable pub drop : ℕ → Bytes → Bytes
drop zero bs = bs
drop (suc n) [] = []
drop (suc n) (b ∷ bs) = drop n bs

abbrev or_error {ℓ} : {A : Type ℓ} → String → Option A → Result A
or_error message none = err message
or_error message (some a) = ok a

-- The package's variable `gcm` after `Init`, with its error. The cipher is nil where `NewGCM` fails.
module _ {Block : Type 0} (new_cipher : Bytes → Result Block) (new_gcm : Block → Result Aead) where
  abbrev assign : Result Aead → Option Aead × Result (Unit {0})
  assign (err e) = (none, err "create GCM")
  assign (ok g) = (some g, ok tt)

  abbrev with_block : Option Aead → Result Block → Option Aead × Result (Unit {0})
  with_block gcm (err e) = (gcm, err "create cipher")
  with_block gcm (ok block) = assign (new_gcm block)

  abbrev with_key : Option Aead → Option Bytes → Option Aead × Result (Unit {0})
  with_key gcm none = (gcm, err "decode hex key")
  with_key gcm (some key) =
      if leb (length key) 32 && leb 32 (length key)
      then with_block gcm (new_cipher key)
      else (gcm, err "key must be 32 bytes")

  unfoldable pub init : Option Aead → Bytes → Option Aead × Result (Unit {0})
  unfolding decode_hex
  init gcm hex_key = with_key gcm (decode_hex hex_key)

-- `nonce` is what the system's randomness gives, none where it fails.
unfoldable pub encrypt : Option Aead → Option Bytes → Bytes → Result Bytes
unfolding encode_hex
encrypt gcm nonce plaintext = or_error "crypto not initialized" gcm >>= λ g.
    or_error "generate nonce" nonce >>= λ nonce. ok (encode_hex (nonce ++ g.seal nonce plaintext))

abbrev pub open_data : Aead → Bytes → Result Bytes
open_data g sealed =
    if ltb (length sealed) g.nonce_size
    then err "ciphertext too short"
    else or_error "decrypt" (g.unseal (take g.nonce_size sealed) (drop g.nonce_size sealed))

unfoldable pub decrypt : Option Aead → Bytes → Result Bytes
unfolding decode_hex take drop
decrypt gcm ciphertext = or_error "crypto not initialized" gcm >>= λ g.
    or_error "decode hex" (decode_hex ciphertext) >>= λ sealed. open_data g sealed
