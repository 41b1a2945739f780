-- ===== src/Encryption/Laws.antt =====
-- A secret that was encrypted is decrypted.
use email_proxy.Prelude.{
  ℕ, zero, suc, ◌≡◌, refl, ap, ◌++◌, [], ◌∷◌, false, arith, length, take, drop, length-append, ltb,
}
use email_proxy.Prelude.Results.{ok}
use email_proxy.Text.{Text}
use email_proxy.Services.{Platform}
use email_proxy.Encryption.{
  EncryptionService, new_encryption_service, new_gcm, nonce_size, encrypt, decrypt,
}

take-append_exact : (s t : Text) (n : ℕ) → length s ≡ n → take n (s ++ t) ≡ s
take-append_exact [] t zero h = refl
take-append_exact [] t (suc n) h = absurd (omega arith)
take-append_exact (c ∷ s) t zero h = absurd (omega arith)
take-append_exact (c ∷ s) t (suc n) h = ap (λ r. c ∷ r) (take-append_exact s t n (omega arith))

drop-append_exact : (s t : Text) (n : ℕ) → length s ≡ n → drop n (s ++ t) ≡ t
drop-append_exact [] t zero h = refl
drop-append_exact [] t (suc n) h = absurd (omega arith)
drop-append_exact (c ∷ s) t zero h = absurd (omega arith)
drop-append_exact (c ∷ s) t (suc n) h = drop-append_exact s t n (omega arith)

new_gcm_of_service :
    (k : Text) (s : EncryptionService) → new_encryption_service k ≡ ok s → new_gcm s.key ≡ ok s.key
unfolding new_encryption_service new_gcm
new_gcm_of_service k s h = ground arith

long_enough : (n t : Text) → length n ≡ nonce_size → ltb (length (n ++ t)) nonce_size ≡ false
long_enough n t h = ground (arith, length-append n t)

-- With a service made from a key, and a nonce of the size that was asked for, a text that was
-- encrypted is decrypted to itself, if base64 and AES-GCM undo themselves on the values that arise.
pub decrypt-encrypt :
    (p : Platform) (k : Text) (s : EncryptionService) (nonce plaintext : Text)
    → new_encryption_service k ≡ ok s
    → length nonce ≡ nonce_size
    → ((t : Text) → p.base64_decode (p.base64_encode t) ≡ ok t)
    → p.gcm_open s.key nonce (p.gcm_seal s.key nonce plaintext) ≡ ok plaintext
    → (stored : Text) × (encrypt p s (ok nonce) plaintext ≡ ok stored)
      × (decrypt p s stored ≡ ok plaintext)
unfolding encrypt decrypt
decrypt-encrypt p k s nonce plaintext made sized base64 gcm =
    let sealed = p.gcm_seal s.key nonce plaintext in
    (
      p.base64_encode (nonce ++ sealed),
      rw (new_gcm_of_service k s made),
      rw
          (
            base64,
            new_gcm_of_service k s made,
            long_enough nonce sealed sized,
            take-append_exact nonce sealed nonce_size sized,
            drop-append_exact nonce sealed nonce_size sized,
          )
          gcm,
    )
