-- ===== src/Bytes.antt =====
-- encoding/binary, net: big-endian words in byte slices, and internet addresses. A byte is a number.
pub mod Words
pub mod Xor
use super_mario_bros_wonder.Base.{
  ℕ, ℤ, Bool, ◌&&◌, Option, none, some, List, [], ◌∷◌, ◌++◌, ◌+◌, ◌*◌, ◌/◌, ◌%◌, ◌<◌, if◌then◌else◌,
  eqb, length, take, drop, All,
}

abbrev pub Bytes : Type 0
Bytes = List ℕ

abbrev pub IsByte : ℕ → Type 0
IsByte b = b < 256

-- binary.BigEndian.Uint16 and Uint32; the source reads no slice that is too short.
unfoldable pub uint16 : Bytes → ℕ
uint16 (a ∷ b ∷ _) = a * 256 + b
uint16 _ = 0

unfoldable pub uint32 : Bytes → ℕ
uint32 (a ∷ b ∷ c ∷ d ∷ _) = ((a * 256 + b) * 256 + c) * 256 + d
uint32 _ = 0

unfoldable pub put_uint16 : ℕ → Bytes
put_uint16 n = n / 256 % 256 ∷ n % 256 ∷ []

unfoldable pub put_uint32 : ℕ → Bytes
put_uint32 n = n / 16777216 % 256 ∷ n / 65536 % 256 ∷ n / 256 % 256 ∷ n % 256 ∷ []

-- A word written over what stands at an offset.
unfoldable pub set_uint16 : ℕ → ℕ → Bytes → Bytes
set_uint16 p n bytes = take p bytes ++ (put_uint16 n ++ drop (p + 2) bytes)

-- net.IP: 4 or 16 bytes.
abbrev zeros10 : Bytes → Bool
zeros10 (a ∷ b ∷ c ∷ d ∷ e ∷ f ∷ g ∷ h ∷ i ∷ j ∷ k ∷ l ∷ _) =
    eqb (a + b + c + d + e + f + g + h + i + j) 0 && (eqb k 255 && eqb l 255)
zeros10 _ = Bool.false

unfoldable pub to4 : Bytes → Option Bytes
to4 ip =
    if eqb (length ip) 4
    then some ip
    else if eqb (length ip) 16 && zeros10 ip
    then some (drop 12 ip)
    else none

unfoldable pub to16 : Bytes → Option Bytes
to16 ip =
    if eqb (length ip) 4
    then some (0 ∷ 0 ∷ 0 ∷ 0 ∷ 0 ∷ 0 ∷ 0 ∷ 0 ∷ 0 ∷ 0 ∷ 255 ∷ 255 ∷ ip)
    else if eqb (length ip) 16
    then some ip
    else none

pub record UdpAddr : Type 0 where
  pub ip : Bytes
  pub port : ℤ
