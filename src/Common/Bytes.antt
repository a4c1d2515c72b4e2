-- ===== src/Common/Bytes.antt =====
-- Network byte order on a little-endian host (`htons`, `htonl` of <arpa/inet.h>), and the bytes of
-- fixed-width fields in the host's memory.
use Prim.Native.Nat.{ℕ, ◌+◌, ◌*◌, ◌/◌, ◌%◌, ◌<◌, ◌^◌}
use mathlib.Core.Path.{◌≡◌}
use native.Mathlib.Omega.{arith}

unfoldable pub htons : ℕ → ℕ
htons x = x % 256 * 256 + x / 256 % 256

unfoldable pub htonl : ℕ → ℕ
htonl x = x % 256 * 2 ^ 24 + x / 256 % 256 * 2 ^ 16 + x / 2 ^ 16 % 256 * 256 + x / 2 ^ 24 % 256

-- `ntohs` and `ntohl` are the same swaps.
abbrev pub ntohs : ℕ → ℕ
ntohs = htons

abbrev pub ntohl : ℕ → ℕ
ntohl = htonl

pub ntohs-htons : (x : ℕ) → x < 2 ^ 16 → ntohs (htons x) ≡ x
unfolding htons
ntohs-htons x h = omega arith

pub ntohl-htonl : (x : ℕ) → x < 2 ^ 32 → ntohl (htonl x) ≡ x
unfolding htonl
ntohl-htonl x h = omega arith

pub htons-lt : (x : ℕ) → htons x < 2 ^ 16
unfolding htons
htons-lt x = omega arith

pub htonl-lt : (x : ℕ) → htonl x < 2 ^ 32
unfolding htonl
htonl-lt x = omega arith
