-- ===== src/Tests/Toy.antt =====
-- A toy interpreter whose scripts are lists of calls, with a host, for runs of the Lua plugin.
use service_extensions_sampl.Base.{
  Bool, true, false, Option, none, some, List, [], ◌∷◌, if◌then◌else◌, length, codes, text_eq,
}
use service_extensions_sampl.Wasm.{request_headers, ok}
use service_extensions_sampl.Lua.Script.{
  request_mode, Header, Call, asks_headers, asks_trailers, asks_chunk, adds, yields, Reply,
  returns_ok, returns_yield, Activity, ends, calls, Lua, Host,
}
use service_extensions_sampl.Lua.Api.{is_header_map}
use service_extensions_sampl.Lua.Coroutine.{World, start_world}
use service_extensions_sampl.Lua.Interpreter.{Interpreter}
use service_extensions_sampl.Tests.Host.{Fake, fake, request}

pub record Toy : Type 0 where
  pub suspended : Bool
  pub plan : List Call
  pub has_function : Bool
  pub raw : Bool

-- What follows a call: the script waits, or goes on.
abbrev pub after_call : Toy → Activity Toy → Reply → Activity Toy
after_call v a (yields n) = ends returns_yield v
after_call v a _ = a

abbrev pub play : List Call → Toy → Activity Toy
play [] v = ends returns_ok (record v { plan = []; suspended = false })
play (c ∷ cs) v = calls c (after_call (record v { plan = cs; suspended = true }) (play cs v))

abbrev pub toy : Lua Toy
toy = record {
  get_top = λ v. 2;
  set_top = λ n v. v;
  pop = λ v. v;
  is_suspended = λ v. v.suspended;
  get_global = λ name v. v;
  is_function = λ v. v.has_function;
  to_string = λ v. none;
  push = λ a v. (none, v);
  resume = λ n v. play v.plan v;
}

abbrev pub toy_host : Host Fake
toy_host = record {
  sdk = record fake {
    add_header = λ t k v s.
        if is_header_map t then (ok, record s { headers = (k, v) ∷ s.headers }) else (ok, s);
    replace_header = λ t k v s.
        if is_header_map t then (ok, record s { headers = (k, v) ∷ s.headers }) else (ok, s);
  };
  print = λ t s. s;
  to_text = λ r. codes "error";
  get_header_map_pairs = λ t s. some s.headers;
  proxy_get_header_map_pairs = λ t s. (ok, some s.headers);
  proxy_get_buffer_bytes = λ b i n s. (ok, some s.body);
  get_buffer_status = λ b s. (ok, length s.body);
  equals_ignore_case = text_eq;
}

abbrev pub toy_machine : Interpreter Toy Fake
toy_machine = record {
  thread = λ id. toy;
  main = toy;
  new_state = some (record { suspended = false; plan = []; has_function = true; raw = false });
  load_buffer = λ s v. (true, v);
  pcall = λ w. (true, w);
  open_library = λ name v. (true, v);
  new_thread = λ v. (some 1, v);
  register_classes = λ v. v;
  inject_accessors = λ v. (true, v);
  set_function = λ name v. record v { raw = true };
  set_nil = λ name v. record v { raw = false };
}

-- A script with a plan, and the world before its request.
abbrev pub script : List Call → Toy
script cs = record { suspended = false; plan = cs; has_function = true; raw = false }

abbrev pub plain : Header
plain = record { type = request_headers; is_guarded = false }

abbrev pub guarded : Header
guarded = record { type = request_headers; is_guarded = true }

abbrev pub before : List Call → World Toy Fake
before cs = start_world request_mode (script cs) (request [] [])

-- A script that reads headers and chunks, and then adds a header to the object that it had first.
abbrev pub late : List Call
late = asks_headers ∷ asks_chunk ∷ adds plain (codes "x") (codes "1") ∷ asks_trailers ∷ []

abbrev pub world_or : {A : Type 0} → Option (A × World Toy Fake) → World Toy Fake → World Toy Fake
world_or none w = w
world_or (some (_, w')) w = w'
