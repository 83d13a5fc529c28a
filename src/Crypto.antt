-- ===== src/Crypto.antt =====
-- internal/crypto/crypto.go: tokens are stored as the nonce followed by what AES-GCM seals with it.
-- AES-GCM itself and the random source belong to the environment.
pub mod RoundTrip
use jeffrey_s_agenda_tool.Prelude.{
  ℕ, Bool, true, false, not, Option, none, some, ◌++◌, length, take, drop, ltb, ◌==◌, if◌then◌else◌,
}
use jeffrey_s_agenda_tool.Domain.{Bytes}
use jeffrey_s_agenda_tool.Database.{
  Result, ok, err, bad_key, ciphertext_too_short, decryption_failed,
}
use jeffrey_s_agenda_tool.Action.{Env, Action, pure, fail, ask, ◌>>=◌}

-- gcm.NonceSize()
abbrev pub nonce_size : ℕ
nonce_size = 12

abbrev pub key_size : ℕ
key_size = 32

unfoldable pub encrypt : Env → Bytes → Action Bytes
encrypt env plaintext = if not (length env.encryption_key == key_size) then fail bad_key else do
  nonce ← ask env.nonce
  pure (nonce ++ env.cipher.seal env.encryption_key nonce plaintext)

-- gcm.Open on the two parts of the ciphertext.
abbrev pub opened : Option Bytes → Result Bytes
opened none = err decryption_failed
opened (some plaintext) = ok plaintext

unfoldable pub decrypt : Env → Bytes → Result Bytes
decrypt env ciphertext =
    if not (length env.encryption_key == key_size)
    then err bad_key
    else if ltb (length ciphertext) nonce_size
    then err ciphertext_too_short
    else opened (
        env.cipher.unseal env.encryption_key (take nonce_size ciphertext)
          (drop nonce_size ciphertext))
