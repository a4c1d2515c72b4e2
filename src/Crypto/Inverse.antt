-- ===== src/Crypto/Inverse.antt =====
-- Decryption undoes encryption, over src/libs/protobuf_comm/crypto.cpp, and encryption stays inside
-- the buffer that it asks for.
use at_work_central_factory.Common.{
  ℕ, ◌+◌, ◌-◌, ◌*◌, ◌/◌, ◌%◌, ◌^◌, ◌≤◌, ◌<◌, ◌≡◌, ◌≢◌, refl, sym, ◌⊎◌, leb, ◌∙◌, ap, some, inl, inr,
  List, ◌++◌, append_assoc, length, take, drop, ltb, ok, err, ◌>>=◌, or_throw, or_throw-eq-ok,
  >>=-eq-ok, Result-cases, Option-cases, Bool-cases, length-append, length-take, length-drop,
  take-append, drop-append, arith,
}
use at_work_central_factory.Common.Int.{pos, negsuc, signed32}
use at_work_central_factory.Common.Dict.{nat_key, find, insert, find-insert_self}
use at_work_central_factory.Crypto.{
  Cipher, Openssl, OpensslLaws, overrun, BufferEncryptor, BufferDecryptor, cipher_by_id, next_iv,
  encrypt_with, encrypt, encrypted_buffer_size, with_key, generate_key, decrypt_with, decrypt,
}

-- The size that goes to the library, of a buffer that starts with a vector.
text_size : (n k : ℕ) → k + n < 2 ^ 31 → signed32 ((k + n + 2 ^ 64 - k) % 2 ^ 64 % 2 ^ 32) ≡ pos n
text_size n k h = ground arith

-- The size that goes to the library, of a plain text.
plain_size : (n : ℕ) → n < 2 ^ 31 → signed32 (n % 2 ^ 32) ≡ pos n
plain_size n h = ground arith

-- That of any plain text: a prefix of it, or negative.
any_size :
    (n : ℕ)
    → ((k : ℕ) × (signed32 (n % 2 ^ 32) ≡ pos k) × (k ≤ n))
      ⊎ ((k : ℕ) × (signed32 (n % 2 ^ 32) ≡ negsuc k))
any_size n = elim (Bool-cases (leb (2 ^ 31) (n % 2 ^ 32))) [
  | inl big ↦ inr (2 ^ 32 - 1 - n % 2 ^ 32, rw big refl)
  | inr small ↦ inl (n % 2 ^ 32, rw small refl, omega arith)
]

blocks_mono : (k n b : ℕ) → 0 < b → k ≤ n → (k / b + 1) * b ≤ (n / b + 1) * b
blocks_mono k n b some_size le = grind arith

module _ {Context : Type 0} (o : Openssl Context) (laws : OpensslLaws o) where
  open o use {
    iv_length, block_size, bytes_to_key, sha256, encrypt_init, encrypt_update, encrypt_final,
    decrypt_init, decrypt_update, decrypt_final,
  }

  length-next_iv :
      (e : BufferEncryptor) (c : Cipher) (iv : List ℕ)
      → (next_iv o e c).1 ≡ ok iv
      → length iv ≡ iv_length c
  unfolding next_iv
  length-next_iv e c iv h = elim (Bool-cases (ltb 0 (iv_length c))) [
    | inl some_iv ↦ elim (Option-cases (sha256 ((e.iv + 1) % 2 ^ 64))) [
      | inl bad ↦ ground arith
      | inr (digest, good) ↦
          let e' : iv ≡ take (iv_length c) digest = ground arith in
          rw e' (length-take (iv_length c) digest (laws.digest_covers_iv c _ digest good))
    ]
    | inr without ↦ ground arith
  ]

  -- What an encryption that succeeds was made of.
  pub record Encrypted (c : Cipher) (key iv plain enc out : List ℕ) : Type 0 where
    pub x : Context
    pub x' : Context
    pub a : List ℕ
    pub b : List ℕ
    pub init : encrypt_init c key iv ≡ some x
    pub update : encrypt_update x plain (signed32 (length plain % 2 ^ 32)) ≡ some (a, x')
    pub final : encrypt_final x' ≡ some b
    pub text : out ≡ iv ++ (a ++ b)

  encrypt_with-Encrypted :
      (c : Cipher) (key iv plain enc out : List ℕ)
      → encrypt_with o c key iv plain enc ≡ ok out
      → Encrypted c key iv plain enc out
  unfolding encrypt_with
  encrypt_with-Encrypted c key iv plain enc out h =
      let (x, hx, h1) = >>=-eq-ok (or_throw (encrypt_init c key iv) _) _ h in
      let ((a, x'), hu, h2) =
        >>=-eq-ok (or_throw (encrypt_update x plain (signed32 (length plain % 2 ^ 32))) _) _ h1 in
      let (b, hf, h3) = >>=-eq-ok (or_throw (encrypt_final x') _) _ h2 in
      record {
        x = x;
        x' = x';
        a = a;
        b = b;
        init = or_throw-eq-ok _ _ hx;
        update = or_throw-eq-ok _ _ hu;
        final = or_throw-eq-ok _ _ hf;
        text = ground (arith, h3);
      }

  decrypt_with_text :
      (d : BufferDecryptor) (id : ℕ) (c : Cipher) (key iv plain enc out rest : List ℕ)
      → cipher_by_id id ≡ ok c
      → find id d.keys ≡ some key
      → length iv ≡ iv_length c
      → Encrypted c key iv plain enc out
      → length plain < 2 ^ 31
      → length out < 2 ^ 31
      → decrypt_with o d id (out ++ rest) (length out) ≡ ok plain
  unfolding decrypt_with
  decrypt_with_text d id c key iv plain enc out rest hc hk hl e short small =
      let (y, y', p, q, hi, hu, hf, same) =
        laws.decrypts c key iv plain e.a e.b rest e.x e.x' e.init
          (ap (λ s. encrypt_update e.x plain s) (sym (plain_size (length plain) short)) ∙ e.update)
          e.final in
      let ab = e.a ++ e.b in
      let split : out ++ rest ≡ iv ++ (ab ++ rest) = rw (e.text) (append_assoc iv ab rest) in
      let len : length out ≡ iv_length c + length ab =
        rw e.text (length-append iv ab ∙ omega arith) in
      let front : take (iv_length c) (out ++ rest) ≡ iv =
        rw (split, ← hl) (take-append iv (ab ++ rest)) in
      let back : drop (iv_length c) (out ++ rest) ≡ ab ++ rest =
        rw (split, ← hl) (drop-append iv (ab ++ rest)) in
      let size : signed32 ((length out + 2 ^ 64 - iv_length c) % 2 ^ 64 % 2 ^ 32)
          ≡ pos (length ab) =
        rw len (text_size (length ab) (iv_length c) (omega arith)) in
      rw (hc, hk, size, front, back, hi, hu, hf) (ap ok same)

  -- The keys that a decryptor keeps are those of its text.
  pub record KeysMatch (d : BufferDecryptor) : Type 0 where
    pub generated :
        (id : ℕ) (key : List ℕ)
        → find id d.keys ≡ some key
        → (c : Cipher) × (cipher_by_id id ≡ ok c) × (bytes_to_key c d.key ≡ some key)

  with_key_found :
      (d : BufferDecryptor) (id : ℕ) (c : Cipher) (key : List ℕ)
      → KeysMatch d
      → cipher_by_id id ≡ ok c
      → bytes_to_key c d.key ≡ some key
      → (d' : BufferDecryptor) × (with_key o d id ≡ ok d') × (find id d'.keys ≡ some key)
  unfolding with_key generate_key
  with_key_found d id c key m hc hb = elim (Option-cases (find id d.keys)) [
    | inl missing ↦ (
      record d { keys = insert id key d.keys },
      rw (missing, hc, hb) refl,
      find-insert_self id key d.keys,
    )
    | inr (k, there) ↦
        let (c', hc', hb') = m.generated id k there in
        let same : k ≡ key = ground arith in (d, rw there refl, there ∙ ap some same)
  ]

  pub encrypt-eq-ok :
      (e : BufferEncryptor) (plain enc out : List ℕ)
      → (encrypt o e plain enc).1 ≡ ok out
      → (c : Cipher) × (iv : List ℕ) × (cipher_by_id e.cipher_id ≡ ok c)
        × (length iv ≡ iv_length c)
        × Encrypted c e.key iv plain enc out
  unfolding encrypt
  encrypt-eq-ok e plain enc out h = elim (Result-cases (cipher_by_id e.cipher_id)) [
    | inl (c, hc) ↦
        let h' : (next_iv o e c).1 >>= (λ iv. encrypt_with o c e.key iv plain enc) ≡ ok out =
          ground arith in
        let (iv, hi, hw) = >>=-eq-ok (next_iv o e c).1 _ h' in
        (c, iv, hc, length-next_iv e c iv hi, encrypt_with-Encrypted c e.key iv plain enc out hw)
    | inr (what, bad) ↦ ground arith
  ]

  -- A decryptor whose text gives the key of an encryptor undoes its encryption, whatever stands in
  -- memory behind the cipher text, as long as both texts are shorter than 2 ^ 31 bytes.
  pub decrypt-encrypt :
      (e : BufferEncryptor) (d : BufferDecryptor) (plain enc out rest : List ℕ)
      → KeysMatch d
      → ((c : Cipher) → cipher_by_id e.cipher_id ≡ ok c → bytes_to_key c d.key ≡ some e.key)
      → (encrypt o e plain enc).1 ≡ ok out
      → length plain < 2 ^ 31
      → length out < 2 ^ 31
      → (decrypt o d e.cipher_id (out ++ rest) (length out)).1 ≡ ok plain
  unfolding decrypt
  decrypt-encrypt e d plain enc out rest m same h short small =
      let (c, iv, hc, hl, w) = encrypt-eq-ok e plain enc out h in
      let (d', hd, hk) = with_key_found d e.cipher_id c e.key m hc (same c hc) in
      rw (hd, decrypt)
        (decrypt_with_text d' e.cipher_id c e.key iv plain enc out rest hc hk hl w short small)

  length_text :
      (c : Cipher) (key iv plain a b : List ℕ) (x x' : Context)
      → encrypt_init c key iv ≡ some x
      → encrypt_update x plain (signed32 (length plain % 2 ^ 32)) ≡ some (a, x')
      → encrypt_final x' ≡ some b
      → length (a ++ b) ≤ (length plain / block_size c + 1) * block_size c
  length_text c key iv plain a b x x' hx hu hf = elim (any_size (length plain)) [
    | inl (k, size, le) ↦
        let hu' = ap (λ s. encrypt_update x plain s) (sym size) ∙ hu in
        rw (laws.padded c key iv plain a b x x' k le hx hu' hf)
          (blocks_mono k (length plain) (block_size c) (laws.block_size_pos c) le)
    | inr (k, size) ↦
        let hu' = ap (λ s. encrypt_update x plain s) (sym size) ∙ hu in
        let no = laws.negative_refused x plain k in absurd (cc)
  ]

  encrypt_with_fits :
      (c : Cipher) (key iv plain enc : List ℕ)
      → length iv ≡ iv_length c
      → length enc ≡ (length plain / block_size c + 1) * block_size c + iv_length c
      → encrypt_with o c key iv plain enc ≢ err overrun
  unfolding encrypt_with
  encrypt_with_fits c key iv plain enc hl he h = elim (Option-cases (encrypt_init c key iv)) [
    | inl bad ↦ ground arith
    | inr (x, hx) ↦
        elim (Option-cases (encrypt_update x plain (signed32 (length plain % 2 ^ 32)))) [
          | inl bad ↦ ground arith
          | inr ((a, x'), hu) ↦ elim (Option-cases (encrypt_final x')) [
            | inl bad ↦ ground arith
            | inr (b, hf) ↦
                let text = length_text c key iv plain a b x x' hx hu hf in
                let one = length-append iv (a ++ b) in
                let two = length-append iv (drop (length iv) enc) in
                let three = length-drop (length iv) enc in
                let fits : length (iv ++ (a ++ b)) ≤ length (iv ++ drop (length iv) enc) =
                  omega arith in
                ground arith
          ]
        ]
  ]

  next_iv_inside : (e : BufferEncryptor) (c : Cipher) → (next_iv o e c).1 ≢ err overrun
  unfolding next_iv
  next_iv_inside e c h = elim (Option-cases (sha256 ((e.iv + 1) % 2 ^ 64))) [
    | inl bad ↦ ground arith
    | inr (digest, good) ↦ ground arith
  ]

  -- Encryption never writes past the end of a buffer of the size that the encryptor asked for.
  pub encrypt_fits :
      (e : BufferEncryptor) (plain enc : List ℕ)
      → encrypted_buffer_size o e (length plain) ≡ ok (length enc)
      → (encrypt o e plain enc).1 ≢ err overrun
  unfolding encrypt encrypted_buffer_size
  encrypt_fits e plain enc hs h = elim (Result-cases (cipher_by_id e.cipher_id)) [
    | inl (c, hc) ↦ elim (Result-cases (next_iv o e c).1) [
      | inl (iv, hi) ↦
          encrypt_with_fits c e.key iv plain enc (length-next_iv e c iv hi) (ground arith)
            (ground arith)
      | inr (what, bad) ↦ ground (arith, next_iv_inside e c)
    ]
    | inr (what, bad) ↦ ground arith
  ]

  whole_blocks : (n k : ℕ) → 0 < k → n < (n / k + 1) * k
  whole_blocks n k h = grind arith

  -- A cipher text is longer than its plain text.
  pub length-encrypt :
      (e : BufferEncryptor) (plain enc out : List ℕ)
      → (encrypt o e plain enc).1 ≡ ok out
      → length plain < 2 ^ 31
      → length plain < length out
  length-encrypt e plain enc out h short =
      let (c, iv, hc, hl, w) = encrypt-eq-ok e plain enc out h in
      let pad =
        laws.padded c e.key iv plain w.a w.b w.x w.x' (length plain) (omega arith) w.init
          (ap (λ s. encrypt_update w.x plain s) (sym (plain_size (length plain) short)) ∙ w.update)
          w.final in
      let more = whole_blocks (length plain) (block_size c) (laws.block_size_pos c) in
      rw w.text (omega (arith, length-append iv (w.a ++ w.b)))
