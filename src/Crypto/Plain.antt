-- ===== src/Crypto/Plain.antt =====
-- An instance of the interface of OpenSSL that meets its laws, for tests: a cipher that leaves the
-- text as it is, in blocks of one byte, with a byte of padding.
use at_work_central_factory.Common.{
  ℕ, ◌+◌, ◌-◌, ◌*◌, ◌/◌, ◌%◌, ◌≤◌, ◌≡◌, refl, sym, ap, ◌∙◌, String, Option, none, some, List, [],
  ◌∷◌, ◌++◌, append_assoc, append-nil, length, take, length-take, length-append, take-append, arith,
}
use at_work_central_factory.Common.Int.{ℤ, pos, negsuc}
use at_work_central_factory.Crypto.{
  Cipher, aes_128_ecb, aes_128_cbc, aes_256_ecb, aes_256_cbc, Openssl, OpensslLaws,
}

abbrev pub name_of : Cipher → String
name_of aes_128_ecb = "aes-128-ecb"
name_of aes_128_cbc = "aes-128-cbc"
name_of aes_256_ecb = "aes-256-ecb"
name_of aes_256_cbc = "aes-256-cbc"

abbrev pub short_name_of : Cipher → String
short_name_of aes_128_ecb = "AES-128-ECB"
short_name_of aes_128_cbc = "AES-128-CBC"
short_name_of aes_256_ecb = "AES-256-ECB"
short_name_of aes_256_cbc = "AES-256-CBC"

-- Chaining takes a vector of four bytes.
abbrev pub vector_length : Cipher → ℕ
vector_length aes_128_ecb = 0
vector_length aes_128_cbc = 4
vector_length aes_256_ecb = 0
vector_length aes_256_cbc = 4

abbrev pub unpad : ℕ → List ℕ → ℤ → Option (List ℕ × ℕ)
unpad x text (pos n) = some (take (n - 1) text, x)
unpad x text (negsuc n) = none

abbrev pub pass : ℕ → List ℕ → ℤ → Option (List ℕ × ℕ)
pass x text (pos n) = some (take n text, x)
pass x text (negsuc n) = none

abbrev pub plain_openssl : Openssl ℕ
plain_openssl = record {
  long_name = name_of;
  short_name = short_name_of;
  iv_length = vector_length;
  block_size = λ c. 1;
  bytes_to_key = λ c key. some (1 ∷ 2 ∷ []);
  sha256 = λ n. some (n % 256 ∷ 1 ∷ 2 ∷ 3 ∷ []);
  encrypt_init = λ c key iv. some 0;
  encrypt_update = pass;
  encrypt_final = λ x. some (0 ∷ []);
  decrypt_init = λ c key iv. some 0;
  decrypt_update = unpad;
  decrypt_final = λ x. some [];
}

vector_fits :
    (c : Cipher) (n : ℕ) (digest : List ℕ)
    → plain_openssl.sha256 n ≡ some digest
    → vector_length c ≤ length digest
vector_fits aes_128_ecb n digest h = omega arith
vector_fits aes_128_cbc n digest h = ground arith
vector_fits aes_256_ecb n digest h = omega arith
vector_fits aes_256_cbc n digest h = ground arith

passed :
    (plain a : List ℕ) (x x' : ℕ)
    → plain_openssl.encrypt_update x plain (pos (length plain)) ≡ some (a, x')
    → a ≡ plain
passed plain a x x' h =
    let whole : take (length plain) plain ≡ plain =
      ap (take (length plain)) (sym (append-nil plain)) ∙ take-append plain [] in
    ground (arith, whole)

padded_by_one :
    (plain a b : List ℕ) (x x' n : ℕ)
    → n ≤ length plain
    → plain_openssl.encrypt_update x plain (pos n) ≡ some (a, x')
    → plain_openssl.encrypt_final x' ≡ some b
    → length (a ++ b) ≡ (n / 1 + 1) * 1
padded_by_one plain a b x x' n small hu hf =
    let ea : a ≡ take n plain = ground arith in
    let eb : b ≡ 0 ∷ [] = ground arith in
    let len = length-take n plain small in
    rw (ea, eb) (length-append (take n plain) (0 ∷ []) ∙ omega arith)

unpadded :
    (plain rest : List ℕ)
    → take (length (plain ++ 0 ∷ []) - 1) ((plain ++ 0 ∷ []) ++ rest) ++ [] ≡ plain
unpadded plain rest =
    let n : length (plain ++ 0 ∷ []) - 1 ≡ length plain =
      omega (arith, length-append plain (0 ∷ [])) in
    rw (n, append_assoc plain (0 ∷ []) rest, take-append plain (0 ∷ rest), append-nil plain)

pub plain_openssl-OpensslLaws : OpensslLaws plain_openssl
plain_openssl-OpensslLaws = record {
  digest_covers_iv = vector_fits;
  block_size_pos = λ c. omega arith;
  padded = λ c key iv plain a b x x' n small hi hu hf. padded_by_one plain a b x x' n small hu hf;
  negative_refused = λ x plain n. refl;
  decrypts = λ c key iv plain a b rest x x' hi hu hf.
      let ea : a ≡ plain = passed plain a x x' hu in
      let eb : b ≡ 0 ∷ [] = ground arith in
      (
        0,
        0,
        take (length (a ++ b) - 1) ((a ++ b) ++ rest),
        [],
        refl,
        refl,
        refl,
        rw (ea, eb) (unpadded plain rest),
      );
}
