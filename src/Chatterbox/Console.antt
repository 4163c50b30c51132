-- ===== src/Chatterbox/Console.antt =====
-- pre-cxx20/chatterbox/console.hpp: the console and its one operation at a time, a coroutine that reads
-- lines until one of them says to quit; app.hpp and app.cpp above it and the pool are in App.
pub mod Laws
pub mod App
mod Tests
use boost_beast_websocket_ec.Prelude.{
  ℕ, ◌+◌, ◌-◌, Bool, true, false, ◌&&◌, ◌||◌, not, Option, none, some, List, [], ◌∷◌, ◌++◌,
  ErrorCode, success, operation_aborted, is_error, Outcome, done, require, ◌>>=◌, ◌>>◌,
  if◌then◌else◌, ◌==◌, leb, empty, take, drop,
}
use boost_beast_websocket_ec.Prelude.Text.{Text, codes}
use boost_beast_websocket_ec.Prelude.Endpoint.{text_eq}

pub data ConsoleEvent : Type 0 where
  quit : ConsoleEvent

-- console, with the members of the run_op that run_op_ points to. `reads` counts the reads on fdin_
-- that have not completed, `cancels` the calls of its cancel, `posts` the functions posted by the
-- branch for an operation that ends at once, `unrecognised` the lines that are no command.
pub record Console : Type 0 where
  pub run_op : Bool
  pub rxstore : Text
  pub ec : ErrorCode
  pub last_event : ConsoleEvent
  pub reads : ℕ
  pub cancels : ℕ
  pub posts : ℕ
  pub unrecognised : ℕ

-- console::console
unfoldable pub console : Console
console = record {
  run_op = false;
  rxstore = [];
  ec = success;
  last_event = quit;
  reads = 0;
  cancels = 0;
  posts = 0;
  unrecognised = 0;
}

-- boost::trim, in the classic locale
abbrev is_space : ℕ → Bool
is_space c = c == 32 || (leb 9 c && leb c 13)

pub trim_left : Text → Text
trim_left [] = []
trim_left (c ∷ cs) = if is_space c then trim_left cs else c ∷ cs

pub trim_right : Text → Text
trim_right [] = []
trim_right (c ∷ cs) = let rest = trim_right cs in if empty rest && is_space c then [] else c ∷ rest

unfoldable pub trim : Text → Text
unfolding trim_left trim_right
trim line = trim_right (trim_left line)

-- what std::regex_constants::icase compares
pub lower : Text → Text
lower [] = []
lower (c ∷ cs) = (if leb 65 c && leb c 90 then c + 32 else c) ∷ lower cs

-- std::regex_match(line, reg_quit)
unfoldable pub is_quit : Text → Bool
unfolding lower
is_quit line =
    let word = lower line in
    text_eq word (codes "quit") || text_eq word (codes "exit") || text_eq word (codes "done")

-- What the handler of the operation is called with, when it is called.
abbrev pub Called : Type 0
Called = Option (ErrorCode × ConsoleEvent)

-- from the label `done`
unfoldable pub finish : Console → Bool → Console × Called
finish c cont =
    if not cont
    then (record c { posts = c.posts + 1 }, none)
    else (record c { run_op = false }, some (c.ec, c.last_event))

-- `while (!ec_)`
unfoldable pub loop : Console → Bool → Console × Called
unfolding finish
loop c cont =
    if not (is_error c.ec) then (record c { reads = c.reads + 1 }, none) else finish c cont

-- run_op::operator(), when the read completes with `ec` and `bytes_transferred`
unfoldable pub resume : Console → ErrorCode → ℕ → Console × Called
unfolding loop finish
resume c ec bytes_transferred =
    let line = trim (take bytes_transferred c.rxstore) in
    let r : Console = record c {
      ec = if is_error ec && not (is_error c.ec) then ec else c.ec;
      rxstore = drop bytes_transferred c.rxstore;
    } in
    if is_quit line
    then finish (record r { last_event = quit }) true
    else loop (record r { unrecognised = r.unrecognised + 1 }) true

-- console::async_run: a new run_op, and its first call
unfoldable pub async_run : Console → Outcome (Console × Called)
unfolding loop
async_run c = do
  require (not c.run_op)
  done (loop (record c { run_op = true; rxstore = []; ec = success; last_event = quit }) false)

-- console::cancel with run_op::cancel, whose function runs at once on the executor of the application
unfoldable pub cancel : Console → Console
cancel c = if c.run_op then record c { ec = operation_aborted; cancels = c.cancels + 1 } else c
