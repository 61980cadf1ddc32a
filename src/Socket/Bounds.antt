-- ===== src/Socket/Bounds.antt =====
-- What `Address::Address` (libs/ipc/src/Address.cpp) gives the kernel for the path of a UNIX socket.
use task_master.Base.{
  ℕ, zero, suc, ◌+◌, ◌-◌, ◌<◌, ◌≤◌, ◌++◌, Option, ◌≡◌, refl, ap, ◌⊎◌, inl, inr, arith, length, drop,
  leb, length-append, Bool-cases,
}
use task_master.Base.Text.{Text}
use task_master.Exec.{path_too_long}
use task_master.Socket.Address
use task_master.Socket.Address.{Family, zeros, create, path_size}

sub_zero : (n : ℕ) → n - 0 ≡ n
sub_zero n = omega arith

zero_sub : (n : ℕ) → 0 - n ≡ 0
zero_sub n = omega arith

suc_sub : (k n : ℕ) → suc k - suc n ≡ k - n
suc_sub k n = omega arith

drop-zeros : (n k : ℕ) → drop n (zeros k) ≡ zeros (k - n)
unfolding zeros
drop-zeros zero k = rw (sub_zero k) refl
drop-zeros (suc n) zero = rw (zero_sub (suc n)) refl
drop-zeros (suc n) (suc k) = rw (suc_sub k n) (drop-zeros n k)

length-zeros : (n : ℕ) → length (zeros n) ≡ n
unfolding zeros
length-zeros zero = refl
length-zeros (suc n) = ap suc (length-zeros n)

-- A path of 108 bytes or more is refused. A shorter one fills the 108 bytes of `sun_path` with zeros, one at
-- least, so that it ends with a NUL, and the length that the kernel is given covers the family, the path and
-- that NUL, and lies within the 110 bytes of a `sockaddr_un`.
pub create_unix :
    (inet_pton : Family → Text → Option Text) (path : Text) (port : ℕ)
    → ((path_size ≤ length path)
        × (create inet_pton Address.Family.unix path port ≡ inr (path_too_long path)))
      ⊎ ((length path < path_size)
          × (create inet_pton Address.Family.unix path port
              ≡ inl (record {
                family = Address.Family.unix;
                address = path;
                addr = Address.SockAddr.local (path ++ zeros (path_size - length path));
                addrlen = 2 + length path + 1;
              }))
          × (length (path ++ zeros (path_size - length path)) ≡ path_size)
          × (0 < path_size - length path)
          × (2 + length path + 1 ≤ 110))
unfolding create Address.sun_path
create_unix inet_pton path port = elim (Bool-cases (leb path_size (length path))) [
  | inl long ↦ inl (ground arith, rw long refl)
  | inr short ↦ inr (
    ground arith,
    rw (short, drop-zeros (length path) path_size) refl,
    ground (
      arith,
      length-append path (zeros (path_size - length path)),
      length-zeros (path_size - length path),
    ),
    ground arith,
    ground arith,
  )
]
