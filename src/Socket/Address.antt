-- ===== src/Socket/Address.antt =====
-- libs/ipc/src/Address.cpp: the socket address that the kernel is given.
use task_master.Base.{
  ℕ, zero, suc, ◌+◌, ◌/◌, ◌%◌, [], ◌∷◌, ◌++◌, Option, some, none, ◌⊎◌, inl, inr, length, drop, leb,
  if◌then◌else◌,
}
use task_master.Base.Text.{Text}
use task_master.Exec.{Error, invalid_address, path_too_long}

-- `Address::Type`
pub data Family : Type 0 where
  ipv4 ipv6 unix : Family

-- The fields of `sockaddr_in`, `sockaddr_in6` and `sockaddr_un` that are written.
pub data SockAddr : Type 0 where
  inet inet6 : (port : Text) → (ip : Text) → SockAddr
  local : (sun_path : Text) → SockAddr

pub record Address : Type 0 where
  pub family : Family
  pub address : Text
  pub addr : SockAddr
  pub addrlen : ℕ

-- `sizeof(sun_path)` on Linux.
abbrev pub path_size : ℕ
path_size = 108

unfoldable pub zeros : ℕ → Text
zeros zero = []
zeros (suc n) = 0 ∷ zeros n

-- `htons`, byte by byte.
abbrev htons : ℕ → Text
htons port = (port / 256 % 256) ∷ (port % 256) ∷ []

-- `memset` of the whole path and `memcpy` of the address into it.
unfoldable pub sun_path : Text → Text
unfolding zeros
sun_path address = address ++ drop (length address) (zeros path_size)

-- `inet_pton` is the C library's.
module _ (inet_pton : Family → Text → Option Text) where
  abbrev inet_address : Family → Text → (Text → SockAddr) → ℕ → Option Text → Address ⊎ Error
  inet_address family address addr len none = inr (invalid_address address)
  inet_address family address addr len (some ip) =
      inl (record { family = family; address = address; addr = addr ip; addrlen = len })

  -- `Address::Address`
  unfoldable pub create : Family → Text → ℕ → Address ⊎ Error
  unfolding sun_path
  create ipv4 address port =
      inet_address ipv4 address (inet (htons port)) 16 (inet_pton ipv4 address)
  create ipv6 address port =
      inet_address ipv6 address (inet6 (htons port)) 28 (inet_pton ipv6 address)
  create unix address port =
      if leb path_size (length address)
      then inr (path_too_long address)
      else inl (record {
        family = unix;
        address = address;
        addr = local (sun_path address);
        addrlen = 2 + length address + 1;
      })
