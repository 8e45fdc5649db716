-- ===== src/Api/Current.antt =====
-- ripcord/api/evaluate.py, ripcord/services.py and ripcord/cache.py together: the route in the system of
-- changes and rebuilds.
use ripcord.Prelude.Dict
use ripcord.Prelude.Dict.{Dict}
use ripcord.Cache.Redis.{Redis}
use ripcord.Cache.System.{System}
