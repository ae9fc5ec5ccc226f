-- ===== src/Tests/Databases.antt =====
-- src/include/database on concrete answers.
use c_s_online_library.Common.{
  ◌≡◌, ℕ, refl, Bool, true, false, none, some, [], ◌∷◌, Option, codes, pos, ℤ, Bytes, arith,
}
use c_s_online_library.Database.Heap.{Heap, no_objects}
use c_s_online_library.Database.Mysql
use c_s_online_library.Database.Redis

-- Any server is there.
abbrev redis : Redis.RedisSettings
redis = record { opens = true; ip = some (codes "127.0.0.1"); port = some (pos 6379) }

abbrev redis_connect : Bytes → ℤ → Option Bool
redis_connect ip port = some false

redis_life_example :
    (s1 : Redis.RedisTool × Heap) × (s2 : Redis.RedisTool × Heap) × (m : Heap) × (Redis.do_connect
        redis_connect redis
        (Redis.make, no_objects)
      ≡ some (s1, true))
    × (Redis.interactions (1 ∷ 2 ∷ []) s1 ≡ some s2)
    × (Redis.destroy s2 ≡ some m)
    × (m.live ≡ 0 ∷ [])
redis_life_example = Redis.redis_life redis_connect redis (pos 6379) (1 ∷ 2 ∷ []) refl refl refl

abbrev tool : Redis.RedisTool
tool = record { is_connected = true; redis_sock = some 0; reply = some 1 }

abbrev heap : Heap
heap = record { live = 1 ∷ 0 ∷ []; next = 2 }

tool-Owns : Redis.Owns [] tool heap
tool-Owns = record {
  sock = 0;
  connected = refl;
  has_sock = refl;
  live = refl;
  old = omega arith;
  below = tt;
  between = (omega arith, omega arith);
}

interaction_other_type_example :
    (t' : Redis.RedisTool) × (m' : Heap) × (Redis.interaction (some 6) 1 (tool, heap)
      ≡ some ((t', m'), false))
    × ((answer : Option ℕ) (next_type : ℕ) → Redis.interaction answer next_type (t', m') ≡ none)
    × (Redis.destroy (t', m') ≡ none)
interaction_other_type_example =
    Redis.interaction_other_type 6 1 [] tool heap tool-Owns (λ e. omega (arith, e))

abbrev mysql : Mysql.MysqlSettings
mysql = record {
  opens = true;
  host = some (codes "localhost");
  user = none;
  passwd = none;
  db = some (codes "books");
  port = some (pos 3306);
  unix_socket = some (pos 0);
}

abbrev real_connect : Mysql.RealConnect
real_connect host user passwd db port unix_sock = true

mysql_life_example :
    (s1 : Mysql.MysqlTool × Heap) × (s2 : Mysql.MysqlTool × Heap) × (m : Heap) × (Mysql.do_connect
        real_connect mysql
        (Mysql.make, no_objects)
      ≡ some (s1, true))
    × (Mysql.queries (Mysql.rows ∷ Mysql.fails ∷ Mysql.unread ∷ []) s1
        ≡ some (s2, true ∷ false ∷ true ∷ []))
    × (Mysql.destroy s2 ≡ some m)
    × (m.live ≡ 0 ∷ [])
mysql_life_example =
    Mysql.mysql_life real_connect mysql (pos 3306) (pos 0)
      (Mysql.rows ∷ Mysql.fails ∷ Mysql.unread ∷ []) refl refl refl refl
