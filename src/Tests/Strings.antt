-- ===== src/Tests/Strings.antt =====
-- The theorems on strings and lists at concrete inputs.
use pedis.Base.{
  ℕ, zero, suc, ap, ◌≡◌, refl, Option, none, some, List, [], ◌∷◌, if◌then◌else◌, true, false, ◌&&◌,
  ◌++◌, take, drop, ◌==◌, ◌||◌, leb, is_empty, length, ◌-◌, ◌+◌, arith,
}
use mathlib.Core.Option
use pedis.Base.Int.{pos}
use pedis.Base.Bytes.{Bytes, bytes_eq}
use pedis.ListLsa
use pedis.ListLsa.Removal.{occurrences, trem_forward-without, trim_lem}
use pedis.Keys.{RedisKey}
use pedis.Cache
use pedis.Cache.{Value}
use pedis.Reply.{Message, Reply}
use pedis.Reply.Wire.{Printer, build, crlf}
use pedis.Reply.Framing.{SizeReader, read_batch, read_batch-build}
use pedis.Database.{Stat, bump, say, Handled, Db}
use pedis.Database.Lists
use pedis.Database.Lists.{push_all, range_of}
use pedis.Database.Laws.Lists.{pop-push, range_of-take, linsert-never}
use pedis.Tests.Instances.{key_timers}
use pedis.Tests.Data.{key1, db_with, db_dying, found_with}

abbrev hello : Bytes
hello = 104 ∷ 105 ∷ []

abbrev dying : Db ℕ (List RedisKey)
dying = db_dying (Value.bytes hello)

abbrev two : List Bytes
two = hello ∷ (7 ∷ []) ∷ []

abbrev listed : Db ℕ (List RedisKey)
listed = db_with (Value.list two)

pop-push_example :
    (db' : Db ℕ (List RedisKey)) × (Lists.pop key1 false
        (Lists.push key1 (9 ∷ []) true false listed).1
      ≡ some (Reply.bulk (9 ∷ []), db'))
    × ((k : RedisKey) → Cache.find k db'.cache ≡ Cache.find k listed.cache)
pop-push_example =
    pop-push key1 (9 ∷ []) hello ((7 ∷ []) ∷ []) true false listed (found_with (Value.list two))
      refl

range_of-take_example : range_of (pos 0) (pos 1) two ≡ take (1 - 0) (drop 0 two)
range_of-take_example = range_of-take 0 1 two (omega arith)

abbrev refused_set : Handled ℕ (List RedisKey)
refused_set = some (say Message.out_of_range_err, bump Stat.lset listed)

linsert-never_example : Lists.linsert 1000 key1 hello hello true listed ≡ none
linsert-never_example =
    linsert-never 1000 key1 hello hello hello ((7 ∷ []) ∷ []) true listed
      (found_with (Value.list two)) refl

trem_forward-without_example :
    ListLsa.trem_forward true hello 0 0 two
    ≡ some (ListLsa.without hello two, 0 + occurrences hello two)
unfolding bytes_eq
trem_forward-without_example = trem_forward-without hello 0 0 two (λ _. refl, refl)

trim_lem_example :
    ListLsa.trim 0 2 two
    ≡ (if (0 == 0 || is_empty two) && leb (length two) 2 then some two else none)
trim_lem_example = trim_lem 0 2 two

-- A printer of sizes in strokes, and its reader.
strokes : ℕ → Bytes
strokes zero = []
strokes (suc n) = b'1' ∷ strokes n

count_strokes : Bytes → Option (ℕ × Bytes)
count_strokes [] = none
count_strokes (x ∷ text) =
    let rest = count_strokes text in
    if x == b'1' then Option.map (λ r. (suc r.0, r.1)) rest else some (0, drop 1 text)

abbrev stroke_printer : Printer ℕ
stroke_printer = record { size = strokes; integer = strokes; double = strokes }

count_strokes-strokes :
    (n : ℕ) (rest : Bytes) → count_strokes (strokes n ++ (crlf ++ rest)) ≡ some (n, rest)
unfolding count_strokes strokes
count_strokes-strokes zero rest = refl
count_strokes-strokes (suc n) rest =
    ap (Option.map (λ r. (suc r.0, r.1))) (count_strokes-strokes n rest)

abbrev stroke_reader : SizeReader stroke_printer
stroke_reader = record { read_size = count_strokes; read_size-print = count_strokes-strokes }

read_batch-build_example :
    read_batch stroke_printer stroke_reader (build stroke_printer (Reply.bulks two) ++ hello)
    ≡ some (two, hello)
read_batch-build_example = read_batch-build stroke_printer stroke_reader two hello
