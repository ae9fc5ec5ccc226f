-- ===== src/SockTool.antt =====
-- libnet/net_socktool.h, class gUtils. The calls of the kernel are parameters: their results, -1
-- for a failure.
use c_s_online_library.Common.{
  ℕ, ◌+◌, ◌-◌, ◌*◌, ◌/◌, ◌%◌, ◌<◌, ◌≡◌, ◌≢◌, refl, ap, false, ◌&&◌, ◌||◌, Option, none, some, [],
  ◌∷◌, Bytes, ltb, leb, ◌==◌, if◌then◌else◌, arith, ℤ, pos, negsuc, minus_one, is_negative,
}
use mathlib.Core.Option

-- The port that `createListenFd` binds: 20000 for one out of range.
unfoldable pub listen_port : ℤ → ℕ
listen_port (negsuc n) = 20000
listen_port (pos port) = if leb port 1024 || leb 65535 port then 20000 else port

-- What socket, bind and listen return for this port.
pub record ListenCalls : Type 0 where
  pub socket : ℤ
  pub bind : ℕ → ℤ
  pub listen : ℕ → ℤ

-- `createListenFd`. A socket whose bind or listen fails is not closed.
unfoldable pub create_listen_fd : ListenCalls → ℤ → ℤ
unfolding listen_port
create_listen_fd calls port =
    if is_negative calls.socket
    then minus_one
    else if is_negative (calls.bind (listen_port port))
    then minus_one
    else if is_negative (calls.listen 1024)
    then minus_one
    else calls.socket

-- `FromHex`; the assertion fails on any other byte.
unfoldable pub from_hex : ℕ → Option ℕ
from_hex x =
    if leb b'A' x && leb x b'Z'
    then some (x - b'A' + 10)
    else if leb b'a' x && leb x b'z'
    then some (x - b'a' + 10)
    else if leb b'0' x && leb x b'9'
    then some (x - b'0')
    else none

-- The `char` of two digits.
unfoldable pub decode_pair : ℕ → ℕ → Option ℕ
decode_pair a b = elim (from_hex a) [
  | none ↦ none
  | some high ↦ elim (from_hex b) [ none ↦ none | some low ↦ some ((high * 16 + low) % 256) ]
]

-- `strtmp += c` in front of what is decoded behind it.
abbrev cons_byte : Option ℕ → Option Bytes → Option Bytes
cons_byte none rest = none
cons_byte (some c) rest = Option.map (◌∷◌ c) rest

-- `urlDecode`; `none` is a failed assertion. An escape needs two bytes behind its '%'.
unfoldable pub url_decode : Bytes → Option Bytes
url_decode [] = some []
url_decode (x ∷ []) =
    if x == b'+' then some (b' ' ∷ []) else if x == b'%' then none else some (x ∷ [])
url_decode (x ∷ y ∷ []) =
    let rest = url_decode (y ∷ []) in
    if x == b'+'
    then cons_byte (some b' ') rest
    else if x == b'%'
    then none
    else cons_byte (some x) rest
url_decode (x ∷ y ∷ z ∷ str) =
    let rest = url_decode (y ∷ z ∷ str) in
    let behind = url_decode str in
    if x == b'+'
    then cons_byte (some b' ') rest
    else if x == b'%'
    then cons_byte (decode_pair y z) behind
    else cons_byte (some x) rest

abbrev hex_digit : ℕ → ℕ
hex_digit n = if ltb n 10 then b'0' + n else b'A' + (n - 10)

-- Percent encoding, every byte escaped or not as the encoder likes.
pub data Encodes : Bytes → Bytes → Type 0 where
  stop : Encodes [] []
  plus : {s t : Bytes} → Encodes s t → Encodes (b' ' ∷ s) (b'+' ∷ t)
  plain : {s t : Bytes} (c : ℕ) → c ≢ b'+' → c ≢ b'%' → Encodes s t → Encodes (c ∷ s) (c ∷ t)
  escaped :
      {s t : Bytes} (c : ℕ)
      → c < 256
      → Encodes s t
      → Encodes (c ∷ s) (b'%' ∷ hex_digit (c / 16) ∷ hex_digit (c % 16) ∷ t)

url_decode-plus : (t : Bytes) → url_decode (b'+' ∷ t) ≡ Option.map (◌∷◌ b' ') (url_decode t)
unfolding url_decode
url_decode-plus [] = refl
url_decode-plus (y ∷ []) = refl
url_decode-plus (y ∷ z ∷ t) = refl

url_decode-plain :
    (c : ℕ) (t : Bytes)
    → c ≢ b'+'
    → c ≢ b'%'
    → url_decode (c ∷ t) ≡ Option.map (◌∷◌ c) (url_decode t)
unfolding url_decode
url_decode-plain c [] h k = ground arith
url_decode-plain c (y ∷ []) h k = ground arith
url_decode-plain c (y ∷ z ∷ t) h k = ground arith

url_decode-escape :
    (y z : ℕ) (t : Bytes)
    → url_decode (b'%' ∷ y ∷ z ∷ t) ≡ cons_byte (decode_pair y z) (url_decode t)
unfolding url_decode
url_decode-escape y z t = refl

from_hex-hex_digit : (n : ℕ) → n < 16 → from_hex (hex_digit n) ≡ some n
unfolding from_hex
from_hex-hex_digit n h = ground arith

decode_pair-hex_digit :
    (c : ℕ) → c < 256 → decode_pair (hex_digit (c / 16)) (hex_digit (c % 16)) ≡ some c
unfolding decode_pair
decode_pair-hex_digit c h =
    rw
      (
        from_hex-hex_digit (c / 16) (omega arith),
        from_hex-hex_digit (c % 16) (omega arith),
        decode_pair,
      )
      (ap some (omega arith))

-- `urlDecode` undoes every percent encoding: '+' for a blank, "%XY" with upper-case digits for any
-- byte, and any byte but '+' and '%' for itself.
pub url_decode-Encodes : {s t : Bytes} → Encodes s t → url_decode t ≡ some s
url_decode-Encodes stop = unfold url_decode in refl
url_decode-Encodes (plus {t} e) = rw (url_decode-plus t, url_decode-Encodes e)
url_decode-Encodes (plain {t} c h k e) = rw (url_decode-plain c t h k, url_decode-Encodes e)
url_decode-Encodes (escaped {t} c h e) =
    rw (url_decode-escape _ _ t, decode_pair-hex_digit c h, url_decode-Encodes e)

-- The range of the bound port, and the three failures.
pub create_listen_fd_lem :
    (calls : ListenCalls) (port : ℤ)
    → (1024 < listen_port port)
      × (listen_port port < 65535)
      × (is_negative (create_listen_fd calls port) ≡ false
          → (create_listen_fd calls port ≡ calls.socket)
            × (is_negative (calls.bind (listen_port port)) ≡ false)
            × (is_negative (calls.listen 1024) ≡ false))
unfolding create_listen_fd
create_listen_fd_lem calls (pos port) = (ground arith, ground arith, λ h. ground arith)
create_listen_fd_lem calls (negsuc n) = (ground arith, ground arith, λ h. ground arith)
