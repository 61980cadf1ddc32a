-- ===== src/Framing.antt =====
-- libs/ipc: a message on the socket is its size, four bytes with the highest first, and its bytes.
pub mod Writer
pub mod Reader
pub mod RoundTrip
pub mod Sending
use task_master.Base.{ℕ, ◌+◌, ◌*◌, ◌/◌, ◌%◌, ◌<◌, List, [], ◌∷◌, ◌≡◌, refl, arith}
use task_master.Base.Text.{Text}

-- 2 ^ 32
abbrev pub word : ℕ
word = 4294967296

-- `htonl` of a `size_t` stored in a `u32`, byte by byte.
unfoldable pub htonl : ℕ → Text
htonl n = (n / 16777216 % 256) ∷ (n / 65536 % 256) ∷ (n / 256 % 256) ∷ (n % 256) ∷ []

-- `ntohl` of four bytes.
unfoldable pub ntohl : ℕ → ℕ → ℕ → ℕ → ℕ
ntohl a b c d = a * 16777216 + b * 65536 + c * 256 + d

pub ntohl-htonl :
    (n : ℕ) → n < word → ntohl (n / 16777216 % 256) (n / 65536 % 256) (n / 256 % 256) (n % 256) ≡ n
unfolding ntohl
ntohl-htonl n h = omega arith
