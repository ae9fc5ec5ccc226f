-- ===== src/Buffer/Defs.antt =====
-- libnet/data_buffer.h: the byte buffer of a connection, with its read cursor. A pointer into the
-- vector is an offset; `allocated` says that the vector has storage, so that `&mCharVec[0]` is not
-- null. Memory behind a pointer is its bytes, which reach at least as far as the size given.
use c_s_online_library.Common.{
  ℕ, ◌+◌, Bool, true, false, ◌||◌, Option, none, some, [], ◌++◌, Bytes, crlf, length, take, drop,
  search_for, ltb, leb, if◌then◌else◌, ℤ, pos, negsuc, minus_one, to_int,
}

pub record DataBuffer : Type 0 where
  pub char_vec : Bytes
  pub cur : ℕ
  pub allocated : Bool

abbrev pub fresh : DataBuffer
fresh = record { char_vec = []; cur = 0; allocated = false }

-- `SetCur(const size_t)`
unfoldable pub set_cur : DataBuffer → ℕ → DataBuffer × Bool
set_cur b index =
    if ltb (length b.char_vec) index then (b, false) else (record b { cur = index }, true)

-- `SetCur(const char *)`: the result of the call above is not looked at.
unfoldable pub set_cur_ptr : DataBuffer → Option ℕ → DataBuffer × Bool
unfolding set_cur
set_cur_ptr b none = (b, false)
set_cur_ptr b (some p) = ((set_cur b p).0, true)

-- `Append(const char *, const int)` on the memory behind the pointer, if it is not null.
unfoldable pub append : DataBuffer → Option Bytes → ℤ → DataBuffer × ℤ
append b none size = (b, minus_one)
append b (some p) (negsuc n) = (b, minus_one)
append b (some p) (pos n) =
    (record b { char_vec = b.char_vec ++ take n p; allocated = b.allocated || ltb 0 n }, pos n)

-- `&buff.mCharVec[0]`
abbrev storage : DataBuffer → Option Bytes
storage b = if b.allocated then some b.char_vec else none

-- `Append(const DataBuffer &)`
unfoldable pub append_buffer : DataBuffer → DataBuffer → DataBuffer × ℤ
unfolding append
append_buffer b buff = append b (storage buff) (to_int (length buff.char_vec))

-- `Append(const std::string &)`
unfoldable pub append_string : DataBuffer → Bytes → DataBuffer × ℤ
unfolding append
append_string b str = append b (some str) (to_int (length str))

-- `findCRLF()`: the search ends at the end of the vector, which is null without storage.
unfoldable pub find_crlf : DataBuffer → Option ℕ
find_crlf b = if b.allocated then some (b.cur + search_for crlf (drop b.cur b.char_vec)) else none

-- `findCRLF(const char *)`, the pointer as an offset from the first byte
unfoldable pub find_crlf_from : DataBuffer → ℕ → Option ℕ
find_crlf_from b start =
    if leb (length b.char_vec) start
    then none
    else some (start + search_for crlf (drop start b.char_vec))

-- `Retrieve()`: the cursor stays.
unfoldable pub retrieve : DataBuffer → DataBuffer
retrieve b = record b { char_vec = [] }

unfoldable pub data_size : DataBuffer → ℤ
data_size b = to_int (length b.char_vec)

unfoldable pub clear : DataBuffer → DataBuffer
clear b = record b { char_vec = []; cur = 0 }
