-- ===== src/Database/Lists.antt =====
-- db.cc: the handlers of lists. `none` is a failed assertion, or an iterator or call that
-- ListLsa.antt says does not come back; `fuel` bounds the calls of `equal` in LINSERT.
use pedis.Base.{
  ℕ, zero, suc, ◌+◌, ◌-◌, ◌%◌, Bool, true, false, Option, none, some, List, [], ◌∷◌, ◌==◌, not,
  ◌||◌, ltb, if◌then◌else◌, length, is_empty,
}
use pedis.Base.Int.{ℤ, pos, negsuc, ltb_ℤ, is_negative}
use pedis.Base.Bytes.{Bytes}
use pedis.DictLsa.{word}
use pedis.ListLsa
use pedis.ListLsa.{Erased}
use pedis.Keys.{RedisKey}
use pedis.TimerSet.{TimerSet}
use pedis.Cache
use pedis.Cache.{Cache, CacheEntry, Value, new_entry}
use pedis.Reply.{Message, Reply}
use pedis.Database.{
  Stat, Db, Handled, bump, with_cache, say, alignment_index_base_on, on_list, create, store_back,
}

-- `static_cast<size_t>(index)`
abbrev pub to_size : ℤ → ℕ
to_size (pos n) = n
to_size (negsuc n) = word - 1 - n % word

-- `for (auto& val : values) left ? insert_head : insert_tail`
unfoldable pub push_all : Bool → List Bytes → List Bytes → List Bytes
push_all left [] l = l
push_all left (v ∷ values) l =
    push_all left values (if left then ListLsa.insert_head v l else ListLsa.insert_tail v l)

-- The elements from `start` up to, and without, `end`.
unfoldable pub range_loop : ℕ → ℕ → List Bytes → List Bytes
range_loop start end [] = []
range_loop zero zero (x ∷ l) = []
range_loop zero (suc end) (x ∷ l) = x ∷ range_loop zero end l
range_loop (suc start) zero (x ∷ l) = []
range_loop (suc start) (suc end) (x ∷ l) = range_loop start end l

-- `if (start < 0) start = 0`
abbrev pub start_index : ℤ → ℕ
start_index (pos n) = n
start_index (negsuc n) = 0

-- `if (end >= size) end = size - 1`; a negative `end` is below every `start`.
abbrev pub end_index : ℕ → ℤ → ℕ
end_index size (pos n) = if ltb n size then n else size - 1
end_index size (negsuc n) = 0

-- LRANGE on the list.
unfoldable pub range_of : ℤ → ℤ → List Bytes → List Bytes
unfolding range_loop alignment_index_base_on
range_of start end l =
    range_loop (start_index (alignment_index_base_on (length l) start))
      (end_index (length l) (alignment_index_base_on (length l) end)) l

-- LTRIM on the list.
unfoldable pub trim_of : ℤ → ℤ → List Bytes → Option (List Bytes)
unfolding alignment_index_base_on
trim_of start end l =
    let nstart = start_index (alignment_index_base_on (length l) start) in
    let nend = alignment_index_base_on (length l) end in
    if ltb_ℤ nend (pos nstart) || (ltb (length l) nstart || is_negative nend)
    then ListLsa.trim nstart (to_size nend) []
    else ListLsa.trim nstart (to_size nend) l

-- LREM on the list.
unfoldable pub rem_of : ℤ → Bytes → List Bytes → Erased
rem_of (pos zero) val l = ListLsa.trem_forward true val 0 0 l
rem_of (pos (suc n)) val l = ListLsa.trem_forward false val (suc n) 0 l
rem_of (negsuc n) val l = ListLsa.trem_backward false val (to_size (negsuc n)) l

-- LINSERT beside the pivot's index. `insert_at(++index)` and `insert_at(--index)` insert before
-- the node of that index.
unfoldable pub insert_beside : Bool → ℕ → Bytes → List Bytes → Option (List Bytes)
insert_beside true index val l =
    if index == length l
    then some (ListLsa.insert_tail val l)
    else ListLsa.insert_at (index + 1) val l
insert_beside false index val l =
    if index == 0 then some (ListLsa.insert_head val l) else ListLsa.insert_at (index - 1) val l

module _ {F S : Type 0} where
  unfoldable pub push_list : RedisKey → List Bytes → Bool → Db F S → List Bytes → Reply F × Db F S
  push_list rk values left db l =
      let l' = push_all left values l in
      (Reply.size (length l'), with_cache (Cache.assign rk (Value.list l') db.cache) db)

  -- LPUSH, RPUSH, LPUSHX and RPUSHX of several values.
  unfoldable pub push_multi : RedisKey → List Bytes → Bool → Bool → Db F S → Reply F × Db F S
  unfolding push_list
  push_multi rk values force left db0 =
      let db = bump (if left then Stat.lpush else Stat.rpush) db0 in
      let created = create rk (Value.list []) Stat.total_list_entries db in
      on_list (Cache.find rk db.cache)
        (if not force then (say Message.err, db) else push_list rk values left created [])
        (say Message.type_err, db) (push_list rk values left db)

  -- The same of one value.
  unfoldable pub push : RedisKey → Bytes → Bool → Bool → Db F S → Reply F × Db F S
  unfolding push_multi
  push rk val force left db = push_multi rk (val ∷ []) force left db

  unfoldable pub llen : RedisKey → Db F S → Reply F × Db F S
  llen rk db0 =
      let db = bump Stat.llen db0 in
      on_list (Cache.find rk db.cache) (say Message.zero, db) (say Message.type_err, db)
        (λ l. (Reply.size (length l), db))

  -- LINDEX. The index `size` is not out of range, and the assertion of `at` fails there.
  unfoldable pub lindex : RedisKey → ℤ → Db F S → Handled F S
  lindex rk idx db0 =
      let db = bump Stat.lindex (bump Stat.read db0) in
      on_list (Cache.find rk db.cache) (some (say Message.nil, db))
        (some (say Message.type_err, db))
        (λ l.
          let index = alignment_index_base_on (length l) idx in
          if ListLsa.index_out_of_range index l
          then some (say Message.nil, db)
          else (elim (ListLsa.at (to_size index) l) [
            | none ↦ none
            | some b ↦ some (Reply.bulk b, bump Stat.hit db)
          ]))

  unfoldable pub lrange : RedisKey → ℤ → ℤ → Db F S → Reply F × Db F S
  unfolding range_of
  lrange rk start end db0 =
      let db = bump Stat.lrange (bump Stat.read db0) in
      on_list (Cache.find rk db.cache) (say Message.err, db) (say Message.type_err, db)
        (λ l.
          let found = range_of start end l in
          (Reply.bulks found, if is_empty found then db else bump Stat.hit db))

  -- LINSERT
  unfoldable pub linsert : ℕ → RedisKey → Bytes → Bytes → Bool → Db F S → Handled F S
  linsert fuel rk pivot val after db0 =
      let db = bump Stat.linsert db0 in
      on_list (Cache.find rk db.cache) (some (say Message.zero, db))
        (some (say Message.type_err, db))
        (λ l. elim (ListLsa.index_of fuel pivot l) [
          | none ↦ none
          | some index ↦
              if ListLsa.index_out_of_range (pos index) l
              then some (say Message.zero, db)
              else (elim (insert_beside after index val l) [
                | none ↦ none
                | some l' ↦
                    some (say Message.one, with_cache (Cache.assign rk (Value.list l') db.cache) db)
              ])
        ])

  -- LSET: the text at the aligned index is destroyed through a pointer that the allocator did not
  -- give; the new text is then assigned at the index as given, where `at` asserts that it is inside
  -- and the assignment destroys what stands there again: no reply is counted on.
  unfoldable pub lset : RedisKey → ℤ → Bytes → Db F S → Handled F S
  lset rk idx val db0 =
      let db = bump Stat.lset db0 in
      on_list (Cache.find rk db.cache) (some (say Message.nokey_err, db))
        (some (say Message.type_err, db))
        (λ l.
          let nidx = alignment_index_base_on (length l) idx in
          if ListLsa.index_out_of_range nidx l
          then some (say Message.out_of_range_err, db)
          else (elim (ListLsa.at (to_size nidx) l) [ none ↦ none | some old ↦ none ]))

module _ {F S : Type 0} ⦃T : TimerSet S⦄ where
  -- LPOP and RPOP
  unfoldable pub pop : RedisKey → Bool → Db F S → Handled F S
  pop rk left db0 =
      let db = bump (if left then Stat.lpop else Stat.rpop) (bump Stat.read db0) in
      on_list (Cache.find rk db.cache) (some (say Message.nil, db))
        (some (say Message.type_err, db))
        (λ l. elim (if left then ListLsa.front l else ListLsa.back l) [
          | none ↦ none
          | some b ↦
              let l' = if left then ListLsa.pop_front l else ListLsa.pop_back l in
              some (
                Reply.bulk b,
                bump Stat.hit
                    (store_back rk (Value.list l') (is_empty l') Stat.total_list_entries db),
              )
        ])

  unfoldable pub lrem : RedisKey → ℤ → Bytes → Db F S → Handled F S
  unfolding rem_of
  lrem rk count val db0 =
      let db = bump Stat.lrem db0 in
      on_list (Cache.find rk db.cache) (some (say Message.err, db))
        (some (say Message.type_err, db))
        (λ l. elim (rem_of count val l) [
          | none ↦ none
          | some (l', removed) ↦ some (
            Reply.size removed,
            store_back rk (Value.list l') (is_empty l') Stat.total_list_entries db,
          )
        ])

  unfoldable pub ltrim : RedisKey → ℤ → ℤ → Db F S → Handled F S
  unfolding trim_of
  ltrim rk start end db0 =
      let db = bump Stat.ltrim db0 in
      on_list (Cache.find rk db.cache) (some (say Message.ok, db)) (some (say Message.type_err, db))
        (λ l. elim (trim_of start end l) [
          | none ↦ none
          | some l' ↦ some (
            say Message.ok,
            store_back rk (Value.list l') (is_empty l') Stat.total_list_entries db,
          )
        ])
