-- ===== src/Crypto/RoundTrip.antt =====
-- internal/crypto/crypto.go: Encrypt followed by Decrypt.
use jeffrey_s_agenda_tool.Prelude.{
  ℕ, ◌≡◌, refl, some, ◌++◌, length, take, drop, length-append, take-append_length,
  drop-append_length, arith, ltb, false,
}
use jeffrey_s_agenda_tool.Domain.{Bytes}
use jeffrey_s_agenda_tool.Database.{ok}
use jeffrey_s_agenda_tool.Google.{answer}
use jeffrey_s_agenda_tool.Action.{Env, World, step, pure, fail, ask, receive, ◌>>=◌}
use jeffrey_s_agenda_tool.Crypto.{nonce_size, key_size, encrypt, decrypt}

-- The documented behaviour of AES-GCM: Open undoes Seal under the same key and nonce.
abbrev pub OpensSealed : Env → Type 0
OpensSealed env =
    (key nonce plaintext : Bytes)
    → env.cipher.unseal key nonce (env.cipher.seal key nonce plaintext) ≡ some plaintext

-- io.ReadFull fills the buffer that it is given.
abbrev pub FillsNonce : Env → Type 0
FillsNonce env = (n : ℕ) (b : Bytes) → env.nonce n ≡ answer b → length b ≡ nonce_size

decrypt_sealed :
    (env : Env) (nonce plaintext : Bytes)
    → OpensSealed env
    → length env.encryption_key ≡ key_size
    → length nonce ≡ nonce_size
    → decrypt env (nonce ++ env.cipher.seal env.encryption_key nonce plaintext) ≡ ok plaintext
unfolding decrypt
decrypt_sealed env nonce plaintext opens key_fits fits =
    let sealed = env.cipher.seal env.encryption_key nonce plaintext in
    let long : ltb (length (nonce ++ sealed)) nonce_size ≡ false =
      ground (arith, length-append nonce sealed) in
    let front : take nonce_size (nonce ++ sealed) ≡ nonce =
      rw (← fits) (take-append_length nonce sealed) in
    let back : drop nonce_size (nonce ++ sealed) ≡ sealed =
      rw (← fits) (drop-append_length nonce sealed) in
    rw (key_fits, long, front, back, opens env.encryption_key nonce plaintext) refl

-- With a key of 32 bytes, if AES-GCM opens what it has sealed and the random source answers and
-- fills the nonce, Encrypt succeeds, the tables and the requests stay, and Decrypt of what it
-- returns is the plaintext.
pub decrypt-encrypt :
    (env : Env) (plaintext : Bytes) (w : World)
    → OpensSealed env
    → FillsNonce env
    → length env.encryption_key ≡ key_size
    → (b : Bytes) → env.nonce w.tick ≡ answer b
    → (c : Bytes) × (encrypt env plaintext w ≡ (ok c, step w)) × (decrypt env c ≡ ok plaintext)
unfolding encrypt ask receive ◌>>=◌ pure fail
decrypt-encrypt env plaintext w opens fills key_fits b drawn = (
  b ++ env.cipher.seal env.encryption_key b plaintext,
  rw (key_fits, drawn) refl,
  decrypt_sealed env b plaintext opens key_fits (fills w.tick b drawn),
)
