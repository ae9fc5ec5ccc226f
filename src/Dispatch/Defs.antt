-- ===== src/Dispatch/Defs.antt =====
-- src/server.cc, `pthread_prudect` and `pthread_handler`: producers, one thread for each event, and
-- consumers, around the queue `fd_que`, two semaphores and a mutex. What a thread does under the
-- mutex is one step, and so is each call of a semaphore; `sem_wait` is a step only while the
-- semaphore is not 0.
use c_s_online_library.Common.{ℕ, suc, ◌≡◌, Option, none, some, List, [], ◌∷◌, ◌++◌}

-- The threads are counted, or listed with their descriptors, by the place where they are.
pub record Dispatch : Type 0 where
  pub sem_capacity : ℕ
  pub sem_product : ℕ
  pub fd_que : List ℕ
  -- producers before `sem_wait(&sem_capacity)`, before the push, and before `sem_post(&sem_product)`
  pub arriving : List ℕ
  pub admitted : List ℕ
  pub posting : ℕ
  -- consumers before `sem_wait(&sem_product)`, before `front` and `pop`, before
  -- `sem_post(&sem_capacity)`, and behind it
  pub idle : ℕ
  pub woken : ℕ
  pub freeing : List ℕ
  pub handling : List ℕ
  -- what was pushed so far, and what was taken out
  pub pushed : List ℕ
  pub popped : List ℕ

-- `sem_init` of both, and the consumers that `main` creates
abbrev pub start : ℕ → Dispatch
start threads = record {
  sem_capacity = 500;
  sem_product = 0;
  fd_que = [];
  arriving = [];
  admitted = [];
  posting = 0;
  idle = threads;
  woken = 0;
  freeing = [];
  handling = [];
  pushed = [];
  popped = [];
}

-- `fd_que.push(fd)`, by a producer that has been let in
abbrev pub push_fd : List ℕ → ℕ → List ℕ → Dispatch → Dispatch
push_fd before fd after d = record d {
  fd_que = d.fd_que ++ (fd ∷ []);
  admitted = before ++ after;
  posting = suc d.posting;
  pushed = d.pushed ++ (fd ∷ []);
}

-- `fd_que.pop()` of the front `fd`, by the last of `suc n` woken consumers
abbrev pub take_front : ℕ → ℕ → List ℕ → Dispatch → Dispatch
take_front n fd fds d = record d {
  fd_que = fds;
  woken = n;
  freeing = fd ∷ d.freeing;
  popped = d.popped ++ (fd ∷ []);
}

-- `fd_que.front()` and `fd_que.pop()`, by the last of `suc n` woken consumers; `none` is the use
-- of an empty queue.
unfoldable pub pop_fd : ℕ → Dispatch → Option Dispatch
pop_fd n d = elim d.fd_que [ [] ↦ none | fd ∷ fds ↦ some (take_front n fd fds d) ]

-- A step of one of the threads that is not in `main_job`
pub data Turn : Dispatch → Dispatch → Type 0 where
  -- `sem_wait(&sem_capacity)`, by any of the producers
  admits :
      (d : Dispatch) (fd c : ℕ) (before after : List ℕ)
      → d.sem_capacity ≡ suc c
      → d.arriving ≡ before ++ (fd ∷ after)
      → Turn d
          (record d { sem_capacity = c; arriving = before ++ after; admitted = fd ∷ d.admitted })
  pushes :
      (d : Dispatch) (fd : ℕ) (before after : List ℕ)
      → d.admitted ≡ before ++ (fd ∷ after)
      → Turn d (push_fd before fd after d)
  -- `sem_post(&sem_product)`
  posts :
      (d : Dispatch) (n : ℕ)
      → d.posting ≡ suc n
      → Turn d (record d { posting = n; sem_product = suc d.sem_product })
  -- `sem_wait(&sem_product)`
  wakes :
      (d : Dispatch) (n p : ℕ)
      → d.idle ≡ suc n
      → d.sem_product ≡ suc p
      → Turn d (record d { idle = n; sem_product = p; woken = suc d.woken })
  pops : (d d' : Dispatch) (n : ℕ) → d.woken ≡ suc n → pop_fd n d ≡ some d' → Turn d d'
  -- `sem_post(&sem_capacity)`
  frees :
      (d : Dispatch) (fd : ℕ) (before after : List ℕ)
      → d.freeing ≡ before ++ (fd ∷ after)
      → Turn d (record d {
        sem_capacity = suc d.sem_capacity;
        freeing = before ++ after;
        handling = fd ∷ d.handling;
      })

-- A step of the system: of a thread, an event of a client's descriptor, which is a new producer, or the
-- end of a turn of a consumer's loop, where `main_job` has returned
pub data Step : Dispatch → Dispatch → Type 0 where
  arrives : (d : Dispatch) (fd : ℕ) → Step d (record d { arriving = fd ∷ d.arriving })
  turns : {d d' : Dispatch} → Turn d d' → Step d d'
  closes :
      (d : Dispatch) (fd : ℕ) (before after : List ℕ)
      → d.handling ≡ before ++ (fd ∷ after)
      → Step d (record d { handling = before ++ after; idle = suc d.idle })

pub data Reachable (threads : ℕ) : Dispatch → Type 0 where
  starts : Reachable threads (start threads)
  steps : {d d' : Dispatch} → Reachable threads d → Step d d' → Reachable threads d'
