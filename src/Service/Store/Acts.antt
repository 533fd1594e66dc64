-- ===== src/Service/Store/Acts.antt =====
-- A handler that does to the value of its key what the service's map does: the handlers that only
-- read.
use pedis.Base.{◌≡◌, refl, sym, ◌∙◌, Option, none, some, arith, Option-cases, inl, inr}
use pedis.Keys.{RedisKey}
use pedis.Cache
use pedis.Cache.{Cache, CacheEntry, Value, new_entry, entry_key, set_value}
use pedis.Reply.{Reply}
use pedis.Database.{Db, flag_reply}
use pedis.Database.Strings
use pedis.Database.Lists
use pedis.Service.Store.{Op, act, get_value, strlen_of, llen_of, value_at}
use pedis.Service.Store.Writes.{IsQuiet, Writes, same-Writes}

module _ {F S : Type 0} where
  -- The reply and the effect of a handler are those of the map's request.
  abbrev pub Acts : RedisKey → Db F S → Op → Reply F × Db F S → Type 0
  Acts rk db op r =
      let o = act op (value_at rk db.cache) in (r.0 ≡ o.0) × Writes rk o.1 db.cache r.1.cache

  pub of-Writes :
      (rk : RedisKey) (db : Db F S) (op : Op) (r : Reply F × Db F S) (v : Option (Value F))
      (c : Cache F S)
      → value_at rk db.cache ≡ v
      → r.0 ≡ (act op v).0
      → r.1.cache ≡ c
      → Writes rk (act op v).1 db.cache c
      → Acts rk db op r
  of-Writes rk db op r v c here reply left w = rw (here, left) (reply, w)

  -- A handler that leaves the cache alone.
  pub of-same :
      (rk : RedisKey) (db : Db F S) (op : Op) (r : Reply F × Db F S) (v : Option (Value F))
      → value_at rk db.cache ≡ v
      → r.0 ≡ (act op v).0
      → r.1.cache ≡ db.cache
      → (act op v).1 ≡ v
      → IsQuiet db.cache
      → Acts rk db op r
  of-same rk db op r v here reply left keeps d =
      of-Writes rk db op r v db.cache here reply left
        (same-Writes rk (act op v).1 db.cache (here ∙ sym keeps) d)

  pub value_at-none :
      (rk : RedisKey) (c : Cache F S) → Cache.find rk c ≡ none → value_at rk c ≡ none
  unfolding value_at
  value_at-none rk c absent = ground (arith, absent)

  pub value_at-some :
      (rk : RedisKey) (c : Cache F S) {e : CacheEntry F} {v : Value F}
      → Cache.find rk c ≡ some e
      → e.value ≡ v
      → value_at rk c ≡ some v
  unfolding value_at
  value_at-some rk c found q = ground (arith, found, q)

  -- What a handler that leaves the cache alone has of a key with this value, or of none.
  abbrev Reads : Op → (Db F S → Reply F × Db F S) → Db F S → Option (Value F) → Type 0
  Reads op f db v = ((f db).0 ≡ (act op v).0) × ((f db).1.cache ≡ db.cache) × ((act op v).1 ≡ v)

  pub of-Reads :
      (rk : RedisKey) (db : Db F S) (op : Op) (f : Db F S → Reply F × Db F S)
      → ((e : CacheEntry F) (v : Value F)
          → Cache.find rk db.cache ≡ some e
          → e.value ≡ v
          → Reads op f db (some v))
      → (Cache.find rk db.cache ≡ none → Reads op f db none)
      → IsQuiet db.cache
      → Acts rk db op (f db)
  of-Reads rk db op f there missing d = elim (Option-cases (Cache.find rk db.cache)) [
    | inl absent ↦
        let (reply, left, keeps) = missing absent in
        of-same rk db op (f db) none (value_at-none rk db.cache absent) reply left keeps d
    | inr (e, found) ↦
        let (reply, left, keeps) = there e e.value found refl in
        of-same rk db op (f db) (some e.value) (value_at-some rk db.cache found refl) reply left
          keeps d
  ]

  get-Reads :
      (rk : RedisKey) (db : Db F S) (e : CacheEntry F) (v : Value F)
      → Cache.find rk db.cache ≡ some e
      → e.value ≡ v
      → Reads Op.get (Strings.get rk) db (some v)
  unfolding Strings.get act get_value
  get-Reads rk db e (Value.bytes b) found q = ground (arith, found, q)
  get-Reads rk db e _ found q = ground (arith, found, q)

  get-Reads-none :
      (rk : RedisKey) (db : Db F S)
      → Cache.find rk db.cache ≡ none
      → Reads Op.get (Strings.get rk) db none
  unfolding Strings.get act
  get-Reads-none rk db absent = ground (arith, absent)

  pub get-Acts :
      (rk : RedisKey) (db : Db F S) → IsQuiet db.cache → Acts rk db Op.get (Strings.get rk db)
  get-Acts rk db d =
      of-Reads rk db Op.get (Strings.get rk) (get-Reads rk db) (get-Reads-none rk db) d

  strlen-Reads :
      (rk : RedisKey) (db : Db F S) (e : CacheEntry F) (v : Value F)
      → Cache.find rk db.cache ≡ some e
      → e.value ≡ v
      → Reads Op.strlen (Strings.strlen rk) db (some v)
  unfolding Strings.strlen Strings.strlen_value act strlen_of
  strlen-Reads rk db e (Value.bytes b) found q = ground (arith, found, q)
  strlen-Reads rk db e _ found q = ground (arith, found, q)

  strlen-Reads-none :
      (rk : RedisKey) (db : Db F S)
      → Cache.find rk db.cache ≡ none
      → Reads Op.strlen (Strings.strlen rk) db none
  unfolding Strings.strlen Strings.strlen_value act
  strlen-Reads-none rk db absent = ground (arith, absent)

  pub strlen-Acts :
      (rk : RedisKey) (db : Db F S) → IsQuiet db.cache → Acts rk db Op.strlen (Strings.strlen rk db)
  strlen-Acts rk db d =
      of-Reads rk db Op.strlen (Strings.strlen rk) (strlen-Reads rk db) (strlen-Reads-none rk db) d

  llen-Reads :
      (rk : RedisKey) (db : Db F S) (e : CacheEntry F) (v : Value F)
      → Cache.find rk db.cache ≡ some e
      → e.value ≡ v
      → Reads Op.llen (Lists.llen rk) db (some v)
  unfolding Lists.llen act llen_of
  llen-Reads rk db e (Value.list l) found q = ground (arith, found, q)
  llen-Reads rk db e _ found q = ground (arith, found, q)

  llen-Reads-none :
      (rk : RedisKey) (db : Db F S)
      → Cache.find rk db.cache ≡ none
      → Reads Op.llen (Lists.llen rk) db none
  unfolding Lists.llen act
  llen-Reads-none rk db absent = ground (arith, absent)

  pub llen-Acts :
      (rk : RedisKey) (db : Db F S) → IsQuiet db.cache → Acts rk db Op.llen (Lists.llen rk db)
  llen-Acts rk db d =
      of-Reads rk db Op.llen (Lists.llen rk) (llen-Reads rk db) (llen-Reads-none rk db) d

  exists_direct-Reads :
      (rk : RedisKey) (db : Db F S)
      → ((flag_reply (Strings.exists_direct rk db).0) ≡ (act Op.exists (value_at rk db.cache)).0)
        × ((Strings.exists_direct rk db).1.cache ≡ db.cache)
        × ((act Op.exists (value_at rk db.cache)).1 ≡ value_at rk db.cache)
  unfolding Strings.exists_direct Cache.exists Cache.find value_at act
  exists_direct-Reads rk db = ground arith

  pub exists_direct-Acts :
      (rk : RedisKey) (db : Db F S)
      → IsQuiet db.cache
      → let r = Strings.exists_direct rk db in Acts rk db Op.exists (flag_reply r.0, r.1)
  exists_direct-Acts rk db d =
      let r = Strings.exists_direct rk db in
      let (reply, left, keeps) = exists_direct-Reads rk db in
      of-same rk db Op.exists (flag_reply r.0, r.1) (value_at rk db.cache) refl reply left keeps d
