-- ===== src/Mq.antt =====
-- libnet/net_mq.h: `MqData`, a tagged message, and `NetMq`, a POSIX message queue. What mq_open,
-- mq_send and mq_receive do is an argument; `none` is a write past what was allocated, or a failed
-- assertion.
use c_s_online_library.Common.{
  ℕ, zero, suc, ◌+◌, ◌*◌, ◌/◌, ◌%◌, ◌≤◌, ◌≡◌, refl, Bool, true, false, Option, none, some, [], ◌∷◌,
  ◌++◌, Bytes, length, length-append, take, take_length, ltb, if◌then◌else◌, ℤ, pos, negsuc,
  minus_one, arith,
}

-- The message of a `MqData`, behind its pointer if that is not null
pub record MqData : Type 0 where
  pub size : ℕ
  pub tag : ℕ
  pub memory : Option Bytes

abbrev pub no_message : MqData
no_message = record { size = 0; tag = 0; memory = none }

-- std::make_shared<char>(n) makes one char, of the value n.
abbrev make_shared_room : ℕ → ℕ
make_shared_room n = 1

-- memcpy to the start of an allocation
abbrev copy_into : ℕ → Bytes → Option Bytes
copy_into room bytes = if ltb room (length bytes) then none else some bytes

-- The `size_t` as it lies in memory
unfoldable pub le_bytes : ℕ → ℕ → Bytes
le_bytes zero n = []
le_bytes (suc w) n = n % 256 ∷ le_bytes w (n / 256)

-- `getTag`, for an argument that an `int` holds; `now` is what time returns.
unfoldable pub get_tag : ℕ → ℕ → ℕ
get_tag socket now = socket / 8 + now

-- The constructor with data, which asks for the time and passes it to `getTag` for a socket; `now` is
-- the time that this returns, and `later` the one that `getTag` asks for.
unfoldable pub new_mq_data : ℕ → ℕ → Bytes → Option MqData
new_mq_data now later bytes =
    let size = length bytes + 8 in
    let tag = get_tag now later in
    elim (copy_into (make_shared_room size) (le_bytes 8 tag ++ bytes)) [
      | none ↦ none
      | some memory ↦ some (record { size = size; tag = tag; memory = some memory })
    ]

-- A `size_t` out of eight bytes
abbrev from_le : Bytes → ℕ
from_le [] = 0
from_le (b ∷ bs) = b + 256 * from_le bs

-- `Init` on the zeroed buffer of `Recv` that starts with these bytes; a size of -1 is a copy of
-- 2 ^ 64 - 1 bytes.
unfoldable pub init_mq_data : Bytes → ℤ → Option MqData
init_mq_data bytes (negsuc n) = none
init_mq_data bytes (pos size) = elim (copy_into (make_shared_room (size + 8)) (take size bytes)) [
  | none ↦ none
  | some memory ↦ some (record { size = size; tag = from_le (take 8 bytes); memory = some memory })
]

pub record NetMq : Type 0 where
  pub name : Bytes
  pub linked : Bool
  pub message : MqData

-- `Create` and `Link`, which differ in the flags of mq_open
unfoldable pub connect_mq : Bool → NetMq → NetMq × Bool
connect_mq opened q =
    if q.linked
    then (q, true)
    else if opened
    then (record q { linked = true }, true)
    else (q, false)

-- `Send`, and what mq_send returns for a message; `none` is a send from a null pointer.
unfoldable pub send_mq : (Bytes → ℤ) → NetMq → MqData → Option ℤ
send_mq mq_send q d =
    let sent : Option ℤ = elim d.memory [
      | none ↦ none
      | some memory ↦ some (mq_send (take d.size memory))
    ] in
    if q.linked then sent else some minus_one

-- `mData` after `Init`, and what `Recv` returns
abbrev keep_message : NetMq → Option MqData → Option (NetMq × MqData)
keep_message q none = none
keep_message q (some d) = some (record q { message = d }, d)

-- `Recv`; mq_receive returns these bytes, or `none` for -1.
unfoldable pub recv_mq : Option Bytes → NetMq → Option (NetMq × MqData)
recv_mq received q =
    let kept : Option (NetMq × MqData) = elim received [
      | none ↦ keep_message q (init_mq_data [] minus_one)
      | some bytes ↦ keep_message q (init_mq_data bytes (pos (length bytes)))
    ] in
    if q.linked then kept else none

length-le_bytes : (w n : ℕ) → length (le_bytes w n) ≡ w
unfolding le_bytes
length-le_bytes zero n = refl
length-le_bytes (suc w) n = omega (arith, length-le_bytes w (n / 256))

-- No message can be made, and none that holds a tag can be received, since what is allocated for it is
-- one char: the constructor writes past it for any data and time, and so does `Recv`, or it fails its
-- assertion on a queue that is not open, for an error and for every message of at least the 8 bytes of
-- a tag.
pub mq_no_message :
    (now later : ℕ) (bytes : Bytes) (q : NetMq)
    → (new_mq_data now later bytes ≡ none)
      × (recv_mq none q ≡ none)
      × (8 ≤ length bytes → recv_mq (some bytes) q ≡ none)
unfolding new_mq_data recv_mq init_mq_data
mq_no_message now later bytes q = (
  ground (
    arith,
    length-append (le_bytes 8 (get_tag now later)) bytes,
    length-le_bytes 8 (get_tag now later),
  ),
  ground arith,
  (λ long. ground (arith, take_length bytes)),
)
