-- ===== src/Crypto.antt =====
-- src/libs/protobuf_comm/crypto.{h,cpp}: encryption and decryption of buffers. The functions of
-- OpenSSL are an interface, with the documented behaviour that the code relies on; the build has
-- OpenSSL.
pub mod Inverse
pub mod Plain
use at_work_central_factory.Common.{
  ℕ, ◌+◌, ◌-◌, ◌*◌, ◌/◌, ◌%◌, ◌^◌, ◌≤◌, ◌<◌, ◌≡◌, String, Bool, true, false, Option, none, some,
  List, [], ◌∷◌, ◌++◌, length, take, drop, ltb, leb, ◌==◌, str_eq, if◌then◌else◌, Result, ok, err,
  ◌>>=◌, or_throw, is_some,
}
use at_work_central_factory.Common.Int.{ℤ, pos, negsuc, signed32}
use at_work_central_factory.Common.Dict.{Dict, nat_key, find, insert}

-- What the `EVP_aes_*` functions give.
pub data Cipher : Type 0 where
  aes_128_ecb aes_128_cbc aes_256_ecb aes_256_cbc : Cipher

-- `long_name` are the `LN_*` constants, `short_name` the `SN_*` ones. The bytes that `Update` and
-- `Final` give are those that they write; NULL and a result of 0 are `none`.
pub record Openssl (Context : Type 0) : Type 0 where
  pub long_name : Cipher → String
  pub short_name : Cipher → String
  pub iv_length : Cipher → ℕ
  pub block_size : Cipher → ℕ
  pub bytes_to_key : Cipher → String → Option (List ℕ)
  pub sha256 : ℕ → Option (List ℕ)
  pub encrypt_init : Cipher → (key iv : List ℕ) → Option Context
  pub encrypt_update : Context → List ℕ → (size : ℤ) → Option (List ℕ × Context)
  pub encrypt_final : Context → Option (List ℕ)
  pub decrypt_init : Cipher → (key iv : List ℕ) → Option Context
  pub decrypt_update : Context → List ℕ → (size : ℤ) → Option (List ℕ × Context)
  pub decrypt_final : Context → Option (List ℕ)

module _ {Context : Type 0} (o : Openssl Context) where
  open o use {
    iv_length, block_size, sha256, encrypt_init, encrypt_update, encrypt_final, decrypt_init,
    decrypt_update, decrypt_final,
  }

  -- What its documentation says of these: a digest is longer than any initialisation vector, a
  -- plain text is padded to whole blocks, by one byte at least, a size below 0 is refused, and
  -- decryption undoes encryption.
  pub record OpensslLaws : Type 0 where
    pub digest_covers_iv :
        (c : Cipher) (n : ℕ) (digest : List ℕ)
        → sha256 n ≡ some digest
        → iv_length c ≤ length digest
    pub block_size_pos : (c : Cipher) → 0 < block_size c
    pub padded :
        (c : Cipher) (key iv plain a b : List ℕ) (x x' : Context) (n : ℕ)
        → n ≤ length plain
        → encrypt_init c key iv ≡ some x
        → encrypt_update x plain (pos n) ≡ some (a, x')
        → encrypt_final x' ≡ some b
        → length (a ++ b) ≡ (n / block_size c + 1) * block_size c
    pub negative_refused :
        (x : Context) (plain : List ℕ) (n : ℕ) → encrypt_update x plain (negsuc n) ≡ none
    pub decrypts :
        (c : Cipher) (key iv plain a b rest : List ℕ) (x x' : Context)
        → encrypt_init c key iv ≡ some x
        → encrypt_update x plain (pos (length plain)) ≡ some (a, x')
        → encrypt_final x' ≡ some b
        → (y y' : Context) × (p q : List ℕ) × (decrypt_init c key iv ≡ some y)
          × (decrypt_update y ((a ++ b) ++ rest) (pos (length (a ++ b))) ≡ some (p, y'))
          × (decrypt_final y' ≡ some q)
          × (p ++ q ≡ plain)

-- One reason for each `throw` of the file, and the write past the end of a buffer.
pub data CryptoError : Type 0 where
  unknown_cipher no_key no_iv no_context update_failed final_failed overrun : CryptoError

-- `PB_ENCRYPTION_*`
unfoldable pub cipher_by_id : ℕ → Result CryptoError Cipher
cipher_by_id id =
    if id == 0x01
    then ok aes_128_ecb
    else (if id == 0x02
        then ok aes_128_cbc
        else (if id == 0x03
            then ok aes_256_ecb
            else (if id == 0x04 then ok aes_256_cbc else err unknown_cipher)))

pub record BufferEncryptor : Type 0 where
  pub key : List ℕ
  pub iv : ℕ
  pub cipher : Cipher
  pub cipher_id : ℕ

pub record BufferDecryptor : Type 0 where
  pub key : String
  pub keys : Dict ℕ (List ℕ)

-- The constructor
unfoldable pub new_decryptor : String → BufferDecryptor
new_decryptor key = record { key = key; keys = [] }

module _ {Context : Type 0} (o : Openssl Context) where
  open o use {
    long_name, short_name, iv_length, block_size, bytes_to_key, sha256, encrypt_init,
    encrypt_update, encrypt_final, decrypt_init, decrypt_update, decrypt_final,
  }

  -- The first branch whose name is equal.
  abbrev by_long_name {ℓ} : {A : Type ℓ} → String → A → A → A → A → Result CryptoError A
  by_long_name name a b c d =
      if str_eq name (long_name aes_128_ecb)
      then ok a
      else (if str_eq name (long_name aes_128_cbc)
          then ok b
          else (if str_eq name (long_name aes_256_ecb)
              then ok c
              else (if str_eq name (long_name aes_256_cbc) then ok d else err unknown_cipher)))

  unfoldable pub cipher_by_name : String → Result CryptoError Cipher
  cipher_by_name name = by_long_name name aes_128_ecb aes_128_cbc aes_256_ecb aes_256_cbc

  unfoldable pub cipher_name_to_id : String → Result CryptoError ℕ
  cipher_name_to_id name = by_long_name name 0x01 0x02 0x03 0x04

  unfoldable pub cipher_name_by_id : ℕ → Result CryptoError String
  unfolding cipher_by_id
  cipher_name_by_id id = cipher_by_id id >>= λ c. ok (short_name c)

  -- The constructor; `random` is what `RAND_bytes` gives.
  unfoldable pub new_encryptor :
      (key cipher_name : String) (random : Option ℕ) → Result CryptoError BufferEncryptor
  new_encryptor key cipher_name random = do
    cipher ← cipher_by_name cipher_name
    cipher_id ← cipher_name_to_id cipher_name
    key' ← or_throw (bytes_to_key cipher key) no_key
    iv ← or_throw random no_iv
    ok (record { key = key'; iv = iv; cipher = cipher; cipher_id = cipher_id })

  -- `iv_` is counted up and hashed, if the cipher takes an initialisation vector.
  unfoldable pub next_iv : BufferEncryptor → Cipher → BufferEncryptor × Result CryptoError (List ℕ)
  next_iv e c =
      if ltb 0 (iv_length c)
      then (
        record e { iv = (e.iv + 1) % 2 ^ 64 },
        or_throw (sha256 ((e.iv + 1) % 2 ^ 64)) no_iv >>= λ digest. ok (take (iv_length c) digest),
      )
      else (e, ok [])

  -- The vector, and the cipher text behind it, in the buffer `enc`, which is cut to that length. The
  -- size of the plain text is a `size_t` that goes to the library as an `int`. A write past the end
  -- of the buffer shows once the text is complete.
  unfoldable pub encrypt_with : Cipher → (key iv plain enc : List ℕ) → Result CryptoError (List ℕ)
  encrypt_with c key iv plain enc = do
    ctx ← or_throw (encrypt_init c key iv) no_context
    (a, ctx') ← or_throw (encrypt_update ctx plain (signed32 (length plain % 2 ^ 32))) update_failed
    b ← or_throw (encrypt_final ctx') final_failed
    let text = iv ++ (a ++ b)
    (if leb (length text) (length (iv ++ drop (length iv) enc)) then ok text else err overrun)

  unfoldable pub encrypt :
      BufferEncryptor → (plain enc : List ℕ) → BufferEncryptor × Result CryptoError (List ℕ)
  encrypt e plain enc = elim (cipher_by_id e.cipher_id) [
    | err what ↦ (e, err what)
    | ok c ↦ let (e', iv) = next_iv e c in (e', iv >>= λ iv. encrypt_with c e.key iv plain enc)
  ]

  unfoldable pub encrypted_buffer_size : BufferEncryptor → ℕ → Result CryptoError ℕ
  encrypted_buffer_size e plain_length = do
    c ← cipher_by_id e.cipher_id
    ok ((plain_length / block_size c + 1) * block_size c + iv_length c)

  unfoldable pub generate_key : BufferDecryptor → ℕ → Result CryptoError BufferDecryptor
  generate_key d cipher = do
    c ← cipher_by_id cipher
    key ← or_throw (bytes_to_key c d.key) no_key
    ok (record d { keys = insert cipher key d.keys })

  unfoldable pub with_key : BufferDecryptor → ℕ → Result CryptoError BufferDecryptor
  with_key d cipher = if is_some (find cipher d.keys) then ok d else generate_key d cipher

  abbrev key_or_empty : Option (List ℕ) → List ℕ
  key_or_empty none = []
  key_or_empty (some key) = key

  -- `enc` is what stands in memory from the buffer on; the size is a `size_t` that goes to the
  -- library as an `int`.
  unfoldable pub decrypt_with :
      BufferDecryptor → ℕ → (enc : List ℕ) (enc_size : ℕ) → Result CryptoError (List ℕ)
  decrypt_with d cipher enc enc_size = do
    c ← cipher_by_id cipher
    let size = signed32 ((enc_size + 2 ^ 64 - iv_length c) % 2 ^ 64 % 2 ^ 32)
    ctx ←
        or_throw (decrypt_init c (key_or_empty (find cipher d.keys)) (take (iv_length c) enc))
          no_context
    (p, ctx') ← or_throw (decrypt_update ctx (drop (iv_length c) enc) size) update_failed
    q ← or_throw (decrypt_final ctx') final_failed
    ok (p ++ q)

  unfoldable pub decrypt :
      BufferDecryptor
      → ℕ
      → (enc : List ℕ) (enc_size : ℕ) → BufferDecryptor × Result CryptoError (List ℕ)
  decrypt d cipher enc enc_size = elim (with_key d cipher) [
    | err what ↦ (d, err what)
    | ok d' ↦ (d', decrypt_with d' cipher enc enc_size)
  ]
