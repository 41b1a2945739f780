-- ===== src/Encryption.antt =====
-- internal/services/encryption.go: secrets are sealed by AES-256-GCM, the nonce in front, and
-- stored as base64.
pub mod Laws
use email_proxy.Prelude.{ℕ, ◌||◌, ◌++◌, length, take, drop, ◌==◌, ltb, if◌then◌else◌}
use email_proxy.Prelude.Results.{Result, ok, err, ◌>>=◌}
use email_proxy.Text.{Text, text}
use email_proxy.Services.{Platform}

pub record EncryptionService : Type 0 where
  pub key : Text

unfoldable pub new_encryption_service : Text → Result EncryptionService
new_encryption_service key =
    if length key == 32
    then ok (record { key = key })
    else err (text "encryption key must be 32 bytes")

-- aes.NewCipher and cipher.NewGCM: the key sizes that AES has.
unfoldable pub new_gcm : Text → Result Text
new_gcm key =
    if length key == 16 || length key == 24 || length key == 32
    then ok key
    else err (text "crypto/aes: invalid key size")

-- gcm.NonceSize()
abbrev pub nonce_size : ℕ
nonce_size = 12

module _ (p : Platform) (s : EncryptionService) where
  -- `random` is what io.ReadFull read for the nonce.
  unfoldable pub encrypt : Result Text → Text → Result Text
  encrypt random plaintext = do
    key ← new_gcm s.key
    nonce ← random
    ok (p.base64_encode (nonce ++ p.gcm_seal key nonce plaintext))

  unfoldable pub decrypt : Text → Result Text
  decrypt ciphertext = do
    bytes ← p.base64_decode ciphertext
    key ← new_gcm s.key
    if ltb (length bytes) nonce_size
        then err (text "ciphertext too short")
        else p.gcm_open key (take nonce_size bytes) (drop nonce_size bytes)
