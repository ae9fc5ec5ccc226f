-- ===== src/Database/Mysql.antt =====
-- src/include/database/mysql_operation.h. The MySQL client and the JSON library are given by their
-- answers. A result of `none` is undefined behaviour: an object that is freed twice, a null pointer that
-- is followed, or a variable that was never set.
use c_s_online_library.Common.{
  ℕ, suc, ◌≡◌, refl, ap, ◌∙◌, Bool, true, false, not, Option, none, some, List, [], ◌∷◌,
  if◌then◌else◌, Bytes, ℤ,
}
use c_s_online_library.Database.Heap.{
  Heap, no_objects, allocate, free_object, free_if, or_empty, free_object-top,
}

-- `sql_sock_` and `result_` point to objects of the heap; an open connection is one of them.
pub record MysqlTool : Type 0 where
  pub is_connected : Bool
  pub sql_sock : Option ℕ
  pub result : Option ℕ

abbrev pub make : MysqlTool
make = record { is_connected = false; sql_sock = none; result = none }

-- What `do_connect` finds: does the file open, and what do the calls of `Get` set.
pub record MysqlSettings : Type 0 where
  pub opens : Bool
  pub host : Option Bytes
  pub user : Option Bytes
  pub passwd : Option Bytes
  pub db : Option Bytes
  pub port : Option ℤ
  pub unix_socket : Option ℤ

-- mysql_real_connect on these arguments: is there a connection
abbrev pub RealConnect : Type 0
RealConnect = Bytes → Bytes → Bytes → Bytes → ℤ → ℤ → Bool

-- `do_connect`, where the descriptor of the settings is an object that nothing closes
unfoldable pub do_connect :
    RealConnect → MysqlSettings → MysqlTool × Heap → Option ((MysqlTool × Heap) × Bool)
do_connect real_connect c (t, m) = if not c.opens then some ((t, m), false) else elim c.port [
  | none ↦ none
  | some port ↦ elim c.unix_socket [
    | none ↦ none
    | some unix_sock ↦
        let m1 = allocate m in
        if real_connect (or_empty c.host) (or_empty c.user) (or_empty c.passwd) (or_empty c.db) port
          unix_sock
        then some ((record t { sql_sock = some m1.next; is_connected = true }, allocate m1), true)
        else some ((record t { sql_sock = none }, m1), false)
  ]
]

-- What a query makes: an error, no set of rows, one that mysql_store_result keeps, or one that it fails
-- to read.
pub data Query : Type 0 where
  fails no_rows rows unread : Query

-- `interactive`
unfoldable pub interactive : Query → MysqlTool × Heap → Option ((MysqlTool × Heap) × Bool)
interactive q (t, m) = if not t.is_connected then some ((t, m), false) else elim q [
  | fails ↦ some ((t, m), false)
  | no_rows ↦ elim (free_if t.result m) [
    | none ↦ none
    | some m' ↦ some ((record t { result = none }, m'), true)
  ]
  | unread ↦ elim (free_if t.result m) [
    | none ↦ none
    | some m' ↦ some ((record t { result = none }, m'), true)
  ]
  | rows ↦ elim (free_if t.result m) [
    | none ↦ none
    | some m' ↦ some ((record t { result = some m'.next }, allocate m'), true)
  ]
]

-- `~MysqlTool`
unfoldable pub destroy : MysqlTool × Heap → Option Heap
destroy (t, m) = elim (free_if t.result m) [ none ↦ none | some m' ↦ free_if t.sql_sock m' ]

abbrev objects : Option ℕ → ℕ → List ℕ → List ℕ
objects none sock files = sock ∷ files
objects (some r) sock files = r ∷ sock ∷ files

-- A tool that is connected, with the objects that it owns and the descriptors, which are all that
-- exist.
pub record Owns (files : List ℕ) (t : MysqlTool) (m : Heap) : Type 0 where
  pub sock : ℕ
  pub connected : t.is_connected ≡ true
  pub has_sock : t.sql_sock ≡ some sock
  pub live : m.live ≡ objects t.result sock files

free_result :
    (sock : ℕ) (files : List ℕ) (o : Option ℕ) (m : Heap)
    → m.live ≡ objects o sock files
    → free_if o m ≡ some (record m { live = sock ∷ files })
unfolding free_if
free_result sock files none m e = ap (λ l. some (record m { live = l })) e
free_result sock files (some r) m e =
    ap (λ l. free_object r (record m { live = l })) e ∙ free_object-top r m.next (sock ∷ files)

abbrev is_accepted : Query → Bool
is_accepted fails = false
is_accepted no_rows = true
is_accepted unread = true
is_accepted rows = true

interactive-Owns :
    (q : Query) (files : List ℕ) (t : MysqlTool) (m : Heap)
    → Owns files t m
    → (t' : MysqlTool) × (m' : Heap) × (interactive q (t, m) ≡ some ((t', m'), is_accepted q))
      × Owns files t' m'
unfolding interactive
interactive-Owns fails files t m o =
    let on : not t.is_connected ≡ false = ap not o.connected in (t, m, rw (on, interactive) refl, o)
interactive-Owns no_rows files t m o =
    let on : not t.is_connected ≡ false = ap not o.connected in
    (
      record t { result = none },
      record m { live = o.sock ∷ files },
      rw (on, interactive) (rw (free_result o.sock files t.result m o.live) refl),
      record { sock = o.sock; connected = o.connected; has_sock = o.has_sock; live = refl },
    )
interactive-Owns unread files t m o =
    let on : not t.is_connected ≡ false = ap not o.connected in
    (
      record t { result = none },
      record m { live = o.sock ∷ files },
      rw (on, interactive) (rw (free_result o.sock files t.result m o.live) refl),
      record { sock = o.sock; connected = o.connected; has_sock = o.has_sock; live = refl },
    )
interactive-Owns rows files t m o =
    let on : not t.is_connected ≡ false = ap not o.connected in
    (
      record t { result = some m.next },
      record { live = m.next ∷ o.sock ∷ files; next = suc m.next },
      rw (on, interactive) (rw (free_result o.sock files t.result m o.live) refl),
      record { sock = o.sock; connected = o.connected; has_sock = o.has_sock; live = refl },
    )

-- A row of queries, with what each call returns
unfoldable pub queries : List Query → MysqlTool × Heap → Option ((MysqlTool × Heap) × List Bool)
queries [] s = some (s, [])
queries (q ∷ qs) s = elim (interactive q s) [
  | none ↦ none
  | some r ↦ elim (queries qs r.0) [ none ↦ none | some rs ↦ some (rs.0, r.1 ∷ rs.1) ]
]

abbrev pub all_accepted : List Query → List Bool
all_accepted [] = []
all_accepted (q ∷ qs) = is_accepted q ∷ all_accepted qs

queries-Owns :
    (qs : List Query) (files : List ℕ) (t : MysqlTool) (m : Heap)
    → Owns files t m
    → (t' : MysqlTool) × (m' : Heap) × (queries qs (t, m) ≡ some ((t', m'), all_accepted qs))
      × Owns files t' m'
unfolding queries
queries-Owns [] files t m o = (t, m, refl, o)
queries-Owns (q ∷ qs) files t m o =
    let (t1, m1, run, o1) = interactive-Owns q files t m o in
    let (t2, m2, rest, o2) = queries-Owns qs files t1 m1 o1 in
    (t2, m2, rw (run, queries) (rw (rest, queries) refl), o2)

destroy-Owns :
    (files : List ℕ) (t : MysqlTool) (m : Heap)
    → (o : Owns files t m) → destroy (t, m) ≡ some (record m { live = files })
unfolding destroy free_if
destroy-Owns files t m o =
    rw (free_result o.sock files t.result m o.live, destroy)
      (ap (λ p. free_if p (record m { live = o.sock ∷ files })) o.has_sock
        ∙ free_object-top o.sock m.next files)

do_connect-Owns :
    (real_connect : RealConnect) (c : MysqlSettings) (port unix_sock : ℤ)
    → c.opens ≡ true
    → c.port ≡ some port
    → c.unix_socket ≡ some unix_sock
    → real_connect
        (or_empty c.host)
        (or_empty c.user)
        (or_empty c.passwd)
        (or_empty c.db)
        port
        unix_sock
      ≡ true
    → (t : MysqlTool) × (m : Heap) × (do_connect real_connect c (make, no_objects)
        ≡ some ((t, m), true))
      × Owns (0 ∷ []) t m
unfolding do_connect
do_connect-Owns real_connect c port unix_sock opens has_port has_socket fine = (
  record { is_connected = true; sql_sock = some 1; result = none },
  allocate (allocate no_objects),
  rw (opens, do_connect)
      (rw (has_port, do_connect) (rw (has_socket, do_connect) (rw (fine, do_connect) refl))),
  record { sock = 1; connected = refl; has_sock = refl; live = refl },
)

-- The life of a tool that connects, where the settings open and have both numbers: any queries, with
-- rows, without, failing, or with rows that cannot be read, and the destructor. `interactive` returns
-- true for exactly the queries that mysql_query accepts, also where the rows cannot be read; no result
-- is freed twice; and in the end only the descriptor of the settings is left, which is never closed.
pub mysql_life :
    (real_connect : RealConnect) (c : MysqlSettings) (port unix_sock : ℤ) (qs : List Query)
    → c.opens ≡ true
    → c.port ≡ some port
    → c.unix_socket ≡ some unix_sock
    → real_connect
        (or_empty c.host)
        (or_empty c.user)
        (or_empty c.passwd)
        (or_empty c.db)
        port
        unix_sock
      ≡ true
    → (s1 : MysqlTool × Heap) × (s2 : MysqlTool × Heap) × (m : Heap) × (do_connect real_connect c
          (make, no_objects)
        ≡ some (s1, true))
      × (queries qs s1 ≡ some (s2, all_accepted qs))
      × (destroy s2 ≡ some m)
      × (m.live ≡ 0 ∷ [])
mysql_life real_connect c port unix_sock qs opens has_port has_socket fine =
    let (t1, m1, connects, o1) =
      do_connect-Owns real_connect c port unix_sock opens has_port has_socket fine in
    let (t2, m2, runs, o2) = queries-Owns qs (0 ∷ []) t1 m1 o1 in
    (
      (t1, m1),
      (t2, m2),
      record m2 { live = 0 ∷ [] },
      connects,
      runs,
      destroy-Owns (0 ∷ []) t2 m2 o2,
      refl,
    )
