-- ===== src/Library/Coherence.antt =====
-- src/server.cc: what a client gets of the books over several jobs.
use c_s_online_library.Common.{
  Bool, ◌<◌, ◌==◌, if◌then◌else◌, ℕ, ◌≤◌, ◌≡◌, refl, ap, sym, subst, ◌∙◌, false, none, some, [],
  ◌∷◌, ◌++◌, Bytes, length, arith,
}
use c_s_online_library.Library.Cache.{HeapOps}
use c_s_online_library.Library.Exchange.{server_read_http-get_text, server_read_http-put_text}
use c_s_online_library.Library.Http.{get_text, put_text, found_text}
use c_s_online_library.Library.Job.{
  DiskOps, Service, finished, stored_reply, enter, read_book, write_book, do_message, new_msg,
  main_job,
}
use c_s_online_library.Buffer.Socket.{wrote}
use c_s_online_library.Library.Shelf.{
  TakesWhole, Stored, store-Stored, read_book_text, write_book_changes,
}
use c_s_online_library.Library.Path.{checkinput, ok, file_hash}

enter-free : {D : Type 0} (s : Service D) → s.locked ≡ false → enter s ≡ some s
unfolding enter
enter-free s free =
    rw
      (if_false s.locked (if s.holder == s.thread then some (record s { locked = false }) else none)
        (some s) free)
      refl
  where
    if_false : {A : Type 0} (b : Bool) (x y : A) → b ≡ false → (if b then x else y) ≡ y
    if_false b x y e = rw e refl

module _ {H D : Type 0} (heap : HeapOps H) (disk : DiskOps D) (hash_size buf_size now : ℕ) where
  pub main_job-get_text :
      (id : Bytes) (s : Service D)
      → s.locked ≡ false
      → checkinput id ≡ ok
      → main_job heap disk hash_size buf_size now (get_text id) s
        ≡ read_book heap disk hash_size buf_size now id s
  unfolding main_job do_message
  main_job-get_text id s free e =
      rw (server_read_http-get_text id new_msg e refl, main_job)
        (rw (enter-free s free, do_message) refl)

  pub main_job-put_text :
      (id text : Bytes) (s : Service D)
      → s.locked ≡ false
      → checkinput id ≡ ok
      → main_job heap disk hash_size buf_size now (put_text id text) s
        ≡ write_book heap disk hash_size buf_size now id text s
  unfolding main_job do_message
  main_job-put_text id text s free e =
      rw (server_read_http-put_text id text new_msg e refl, main_job)
        (rw (enter-free s free, do_message) refl)

  -- A change of a book and a read of it, one job after the other, for an id that `checkinput` lets
  -- through and with the lock free: where the book has a file that can be written, the cache has at
  -- most 200000 books and the reply fits the buffer, both jobs return. The client of the first gets
  -- "200 OK", and the client of the second gets the text that the first one sent, whether the book
  -- was in the cache or not.
  main_job_put_get :
      (s : Service D) (id text path : Bytes) (size : ℕ) (d : D)
      → s.locked ≡ false
      → length s.cache ≤ 200000
      → length (found_text text) ≤ buf_size
      → checkinput id ≡ ok
      → file_hash hash_size id ≡ some path
      → disk.stat_size s.disk path ≡ some size
      → disk.store s.disk path text ≡ some d
      → 0 < length text
      → TakesWhole s
      → (s' : Service D) × (s'' : Service D) × (main_job heap disk hash_size buf_size now
            (put_text id text)
            s
          ≡ finished s')
        × (main_job heap disk hash_size buf_size now (get_text id) s' ≡ finished s'')
        × (s''.sent ≡ (s.sent ++ (stored_reply ∷ [])) ++ (found_text text ∷ []))
  main_job_put_get s id text path size d free few room e h there w some_ takes =
      let (s', put, changed) =
        write_book_changes heap disk hash_size buf_size now id text path size s d free h there w
          some_ takes in
      let small : length s'.cache ≤ 200000 = omega (arith, changed.same_length, few) in
      let there' =
        subst (Stored disk path text) (sym changed.disk_now)
          (store-Stored disk path text s.disk d some_ w) in
      let (node, mapped, got) =
        read_book_text heap disk hash_size buf_size now id path text s' h there' changed.fresh small
          room
          (subst (λ t. (x : Bytes) → t x ≡ wrote (length x) ∷ []) (sym changed.same_takes) takes) in
      (
        s',
        _,
        main_job-put_text id text s free e ∙ put,
        main_job-get_text id s' changed.free e ∙ got,
        ap (λ l. l ++ (found_text text ∷ [])) changed.replied,
      )
