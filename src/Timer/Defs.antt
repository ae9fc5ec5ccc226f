-- ===== src/Timer/Defs.antt =====
-- libnet/net_timer.h. A timer lives from `new` in addTimer, which pushes it, to the `delete` at its
-- pop: the objects that exist are those of the queue, and a pointer is a timer's name. Times are
-- nanoseconds of the clock. The priority queue is its list of elements, the top first; of two that
-- expire together the older is in front.
use c_s_online_library.Common.{
  ℕ, suc, ◌+◌, ◌-◌, ◌*◌, ◌/◌, ◌%◌, to_int, Bool, true, false, Option, none, some, List, [], ◌∷◌,
  ltb, leb, ◌==◌, if◌then◌else◌, ℤ, pos, negsuc, minus_one, is_negative,
}
use c_s_online_library.Request.Defs.{NetHttpRequest}

-- `callback` is the request that the bound `__closeConnection` closes.
pub record NetTimer : Type 0 where
  pub name : ℕ
  pub expire_time : ℕ
  pub callback : ℕ
  pub deleted : Bool

-- `next_name` is the name of the next timer that `new` makes.
pub record TimerManager : Type 0 where
  pub time_queue : List NetTimer
  pub next_name : ℕ

abbrev pub no_timers : TimerManager
no_timers = record { time_queue = []; next_name = 0 }

-- `_timeQueue.push`
unfoldable pub push : NetTimer → List NetTimer → List NetTimer
push t [] = t ∷ []
push t (x ∷ xs) = if ltb t.expire_time x.expire_time then t ∷ x ∷ xs else x ∷ push t xs

-- `_timeQueue.pop()`
abbrev pub pop : List NetTimer → List NetTimer
pop [] = []
pop (x ∷ xs) = xs

-- `isDeleted` through a pointer; `none` for an object that is freed.
unfoldable pub is_deleted : ℕ → List NetTimer → Option Bool
is_deleted p [] = none
is_deleted p (x ∷ xs) = if x.name == p then some x.deleted else is_deleted p xs

-- `setDel` through a pointer
unfoldable pub set_del : ℕ → List NetTimer → List NetTimer
set_del p [] = []
set_del p (x ∷ xs) = if x.name == p then record x { deleted = true } ∷ xs else x ∷ set_del p xs

-- `delTimer`; `none` is the use of a freed timer.
unfoldable pub del_timer : TimerManager → NetHttpRequest → Option (TimerManager × NetHttpRequest)
del_timer m req = elim req.timer [
  | none ↦ some (m, req)
  | some p ↦ elim (is_deleted p m.time_queue) [
    | none ↦ none
    | some gone ↦
        if gone
        then some (m, req)
        else some (record m { time_queue = set_del p m.time_queue }, record req { timer = none })
  ]
]

-- `addTimer` at the time `now`; the timeout is in milliseconds.
unfoldable pub add_timer :
    TimerManager → NetHttpRequest → ℕ → ℕ → Option (TimerManager × NetHttpRequest)
add_timer m req timeout now =
    let timer : NetTimer = record {
      name = m.next_name;
      expire_time = now + timeout * 1000000;
      callback = req.fd;
      deleted = false;
    } in
    let m' : TimerManager = record {
      time_queue = push timer m.time_queue;
      next_name = suc m.next_name;
    } in
    elim (del_timer m' req) [
      | none ↦ none
      | some (m'', req') ↦ some (m'', record req' { timer = some m.next_name })
    ]

-- `duration_cast<MS>(expire - now).count()`, which cuts towards zero
unfoldable pub remaining_ms : NetTimer → ℕ → ℤ
remaining_ms t now =
    if leb now t.expire_time
    then pos ((t.expire_time - now) / 1000000)
    else let late = (now - t.expire_time) / 1000000 in
      if late == 0 then pos 0 else negsuc (late - 1)

-- The `int` of a `long` in range
unfoldable pub narrow : ℤ → ℤ
narrow (pos n) = to_int n
narrow (negsuc n) = to_int (4294967295 - n % 4294967296)

-- The deleted timers at the top are freed.
unfoldable pub drop_deleted : List NetTimer → List NetTimer
drop_deleted [] = []
drop_deleted (x ∷ xs) = if x.deleted then drop_deleted xs else x ∷ xs

unfoldable pub next_wait : List NetTimer → ℕ → ℤ
next_wait [] now = minus_one
next_wait (x ∷ xs) now =
    let res = narrow (remaining_ms x now) in if is_negative res then pos 0 else res

-- `getNextExpireTime`
unfoldable pub get_next_expire_time : TimerManager → ℕ → TimerManager × ℤ
unfolding drop_deleted
get_next_expire_time m now =
    let queue = drop_deleted m.time_queue in (record m { time_queue = queue }, next_wait queue now)

-- `count() > 0` does not hold.
unfoldable pub is_due : NetTimer → ℕ → Bool
is_due t now = elim (remaining_ms t now) [ pos n ↦ n == 0 | negsuc n ↦ true ]

-- What `handleExpireTimers` does next: it stops, frees the deleted top, or runs the top's callback.
pub data Expiry : Type 0 where
  idle : Expiry
  freed : List NetTimer → Expiry
  fires : NetTimer → Expiry

unfoldable pub next_expiry : List NetTimer → ℕ → Expiry
next_expiry [] now = idle
next_expiry (x ∷ xs) now = if x.deleted then freed xs else if is_due x now then fires x else idle
