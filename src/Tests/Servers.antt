-- ===== src/Tests/Servers.antt =====
-- The theorems on connections at concrete inputs, with a stream of one buffer and a queue that is a
-- list.
use pedis.Cache
use pedis.Cache.Timers.{expires}
use pedis.Base.{
  ℕ, ◌≡◌, ◌≢◌, ◌≤◌, refl, ap, true, false, Option, none, some, List, [], ◌∷◌, ◌++◌, arith, leb,
  length,
}
use pedis.Base.Int.{pos}
use pedis.Base.Bytes.{Bytes}
use pedis.Keys.{RedisKey}
use pedis.Protocol
use pedis.Protocol.{Request}
use pedis.Cache.{Value}
use pedis.Reply.{Reply}
use pedis.Service.{Number, Shards}
use pedis.Service.Store.{Op, Call, replay, view}
use pedis.Service.Store.Refines.{AreQuiet, run, run-replay}
use pedis.Server
use pedis.Server.{Answer, do_unexpect_request}
use pedis.Server.Commands.{Environment}
use pedis.Server.Wire.{texts_of}
use pedis.Server.Connection
use pedis.Server.Connection.{Connection, Parser, InputStream, Queue, Stage, Fed}
use pedis.Server.Connection.Steps.{Reach, Step}
use pedis.Server.Connection.Order.{Fits, said, as_answers, Reach-Fits}
use pedis.Server.Connection.Drain.{drain-replies}
use pedis.Server.Connection.Pipeline.{
  native-IsReading, native, wire, AreSendable, exchanges, exchanges-replay,
}
use pedis.Tests.Instances.{key_timers, natural_scores}
use pedis.Tests.Cores.{host, a_key, b_key, texts, cores-AreDistinct, count_text}
use pedis.Tests.Requests.{atoi_marks, in_marks, key_text}

abbrev call_of : Bytes → Op → Call
call_of key op = record { now = pos 3; key = key; op = op }

-- SET, STRLEN, GET and INCR of a text, which is refused, and a DEL of another key.
abbrev calls : List Call
calls =
    call_of b_key (Op.set (9 ∷ []))
    ∷ call_of b_key Op.strlen
    ∷ call_of b_key Op.get
    ∷ call_of b_key (Op.incr true)
    ∷ call_of a_key Op.del
    ∷ []

texts-timeless : (c : ℕ) (j : RedisKey) → expires (Cache.find j (texts c).cache) ≡ false
unfolding Cache.find Cache.find_in
texts-timeless c j = ground arith

texts-AreQuiet : AreQuiet texts
texts-AreQuiet c = (cores-AreDistinct (Value.bytes (5 ∷ [])) c, texts-timeless c)

run-replay_example :
    (m' : Shards ℕ (List RedisKey)) × (run host calls texts
      ≡ some ((replay calls (view host texts)).0, m'))
    × (view host m' ≡ (replay calls (view host texts)).1)
    × AreQuiet m'
run-replay_example = run-replay host calls texts texts-AreQuiet

unfoldable consume_one : {P : Type 0} → Fed P → Option (Bytes × P)
consume_one (Fed.remainder rest p) = some (rest, p)
consume_one _ = none

one_buffer-remainder :
    {P : Type 0} (f : Bytes → P → Fed P) (i : Bytes) (p : P) (rest : Bytes) (p' : P)
    → f i p ≡ Fed.remainder rest p'
    → (i' : Bytes) × (consume_one (f i p) ≡ some (i', p')) × (rest ≢ [] → i' ≡ rest)
unfolding consume_one
one_buffer-remainder f i p rest p' h = (rest, ground (arith, h), λ _. refl)

abbrev one_buffer : {P : Type 0} → InputStream P Bytes
one_buffer = record {
  buffer = λ i. i;
  consume = λ f i p. consume_one (f i p);
  consume-remainder = one_buffer-remainder;
}

unfoldable pop_list : {A : Type 0} → List A → Option (A × List A)
pop_list [] = none
pop_list (a ∷ l) = some (a, l)

pop_list-items :
    {A : Type 0} (q : List A) (a : A) (l : List A)
    → q ≡ a ∷ l
    → (q' : List A) × (pop_list q ≡ some (a, q')) × (q' ≡ l)
unfolding pop_list
pop_list-items q a l h = (l, ground (arith, h), refl)

pop_list-empty : {A : Type 0} (q : List A) → q ≡ [] → pop_list q ≡ none
unfolding pop_list
pop_list-empty q h = ap pop_list h

abbrev list_queue : {A : Type 0} → Queue A (List A)
list_queue = record {
  items = λ q. q;
  full = λ q. leb 16 (length q);
  push = λ a q. q ++ a ∷ [];
  pop = pop_list;
  full-size = λ q. refl;
  items-push = λ a q h. refl;
  pop-items = pop_list-items;
  pop-empty = pop_list-empty;
}

abbrev environment : Environment ℕ (List RedisKey)
environment = record {
  host = host;
  atof = length;
  stod = count_text;
  stol = λ s. Number.value (pos (length s));
  stoi = λ s. Number.value (pos (length s));
  fields_order = λ l. l;
  scores_order = λ l. l;
  arrival = λ l. l;
  equal_fuel = 4;
  one = 1;
  mul = λ x y. x;
  garbage = 7;
  unmodelled = λ name args m. none;
}

abbrev fresh : {P : Type 0} → Bytes → P → Connection ℕ (List RedisKey) P Bytes (List (Answer ℕ))
fresh input parser = record {
  input = input;
  parser = parser;
  done = false;
  replies = [];
  written = [];
  stage = Stage.waiting;
  shards = texts;
}

abbrev sent : Connection ℕ (List RedisKey) Request Bytes (List (Answer ℕ))
sent = fresh (wire in_marks calls) Protocol.init

calls-AreSendable : AreSendable calls
unfolding texts_of
calls-AreSendable = ground arith

exchanges-replay_example :
    (c' : Connection ℕ (List RedisKey) Request Bytes (List (Answer ℕ))) × (exchanges environment []
        in_marks
        (native atoi_marks)
        one_buffer
        list_queue
        calls
        sent
      ≡ some c')
    × (c'.written ≡ (replay calls (view host texts)).0)
    × (view host c'.shards ≡ (replay calls (view host texts)).1)
exchanges-replay_example =
    exchanges-replay environment [] in_marks (native atoi_marks) one_buffer list_queue calls sent
      (native-IsReading in_marks) (record { waiting = refl; open_input = refl; empty = refl })
      calls-AreSendable (λ _. refl) texts-AreQuiet

-- A parser that takes the whole buffer as a command
abbrev whole : Parser Request
whole = record {
  init = λ r. Protocol.init;
  parse = λ buf r. Fed.remainder [] (record r { command = buf });
  request = λ r. r;
}

abbrev Client : Type 0
Client = Connection ℕ (List RedisKey) Request Bytes (List (Answer ℕ))

abbrev first : Client
first = fresh key_text Protocol.init

abbrev after_read : Client
after_read = record first {
  input = [];
  parser = record Protocol.init { command = key_text };
  stage = Stage.parsed;
}

abbrev refusal : Reply ℕ
refusal = do_unexpect_request key_text

abbrev after_answer : Client
after_answer = record after_read { stage = Stage.answered (some refusal) }

abbrev after_push : Client
after_push = record after_answer { replies = some refusal ∷ []; stage = Stage.waiting }

first-read : Connection.read whole one_buffer list_queue first ≡ some after_read
unfolding Connection.read consume_one
first-read = refl

first-answer : Connection.answer whole one_buffer list_queue [] after_read ≡ some after_answer
unfolding Connection.answer Server.do_handle_one Server.find_command do_unexpect_request
    Protocol.init
first-answer = refl

one_request : Reach whole one_buffer list_queue first (as_answers (refusal ∷ [])) after_push
unfolding Connection.push_reply
one_request =
    Reach.later
      (Reach.later (Reach.later Reach.start (Step.read after_read refl first-read))
        (Step.answer [] (some refusal) after_answer refl first-answer refl))
      (Step.push (some refusal) refl)

first-said : said whole one_buffer list_queue first ≡ []
unfolding said
first-said = refl

Reach-Fits_example :
    Fits whole one_buffer list_queue after_push
    × (said whole one_buffer list_queue after_push
        ≡ said whole one_buffer list_queue first ++ as_answers (refusal ∷ []))
Reach-Fits_example = Reach-Fits whole one_buffer list_queue one_request (omega arith)

drain-replies_example :
    (n : ℕ) × (n ≤ 16)
    × (c : Client) × (Connection.drain list_queue n after_push ≡ some c)
    × (c.written ≡ refusal ∷ [])
    × (c.replies ≡ [])
drain-replies_example =
    drain-replies whole one_buffer list_queue (refusal ∷ []) (omega arith) first-said one_request
      refl
