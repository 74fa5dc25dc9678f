-- ===== src/Repl.antt =====
-- cmd/repl/remote.go: the client of the HTTP API that follows leader redirects, and the command line
-- over it. The network is a parameter; an answer comes with its body as text and the leader decoded
-- from it. Closing bodies, the history and the completer are left out.
pub mod Calls
pub mod Reads
use conuredb.Common.{
  ℕ, zero, suc, Bool, true, false, ◌&&◌, Option, none, some, List, [], ◌∷◌, ◌++◌, ◌==◌, leb,
  if◌then◌else◌,
}
use conuredb.Common.Bytes.{Bytes, equal_bytes}
use conuredb.Common.Text.{codes, trim_space, fields, join_with, cut_before, trim_newline}
use conuredb.Api.{Method, get, put, delete}

-- A base URL: the host, with a port after a colon, and all but host, path and query.
pub record Base : Type 0 where
  pub rest : Bytes
  pub host : Bytes

-- A request to a path, with the key as its only query parameter.
pub record Call : Type 0 where
  pub base : Base
  pub path : Bytes
  pub method : Method
  pub key : Bytes
  pub body : Option Bytes

-- The leader is empty where the body is not a leader hint.
pub record Response : Type 0 where
  pub status : ℕ
  pub body : Bytes
  pub leader : Bytes

-- `failed` when the request cannot be made, sent or answered, with the error's text.
pub data Answer : Type 0 where
  failed : Bytes → Answer
  responded : Response → Answer

-- What the client shares with the rest of the world, and the requests it has made with their answers, oldest first.
pub record World (W : Type 0) : Type 0 where
  pub outside : W
  pub calls : List (Call × Answer)

abbrev pub Network : Type 0 → Type 0
Network W = Call → W → Answer × W

-- What an operation returns: the body of an answer, or an error by its text.
pub data Result : Type 0 where
  value : Bytes → Result
  error : Bytes → Result

-- The text after the last colon.
unfoldable pub after_last_colon : Bytes → Option Bytes
after_last_colon [] = none
after_last_colon (b ∷ bs) = elim (after_last_colon bs) [
  | some t ↦ some t
  | none ↦ if b == 58 then some bs else none
]

abbrev pub all_digits : Bytes → Bool
all_digits [] = true
all_digits (b ∷ bs) = (leb 48 b && leb b 57) && all_digits bs

-- `url.URL.Port`.
unfoldable pub port_of : Bytes → Bytes
port_of host = elim (after_last_colon host) [ none ↦ [] | some t ↦ if all_digits t then t else [] ]

abbrev pub default_port : Bytes → Bytes
default_port [] = codes "8081"
default_port (b ∷ bs) = b ∷ bs

unfoldable pub with_leader : Bytes → Base → Base
with_leader [] base = base
with_leader (b ∷ bs) base = record base {
  host = cut_before 58 (b ∷ bs) ++ (58 ∷ default_port (port_of base.host));
}

abbrev pub redirect_loop : Bytes
redirect_loop = codes "leader redirect loop"

abbrev pub without_newline : Result → Result
without_newline (value v) = value (trim_newline v)
without_newline (error e) = error e

module _ {W : Type 0} where
  -- The client's `do`: the request is made and recorded with its answer.
  abbrev pub ask : Network W → Call → World W → Answer × World W
  ask net c w =
      let (answer, after) = net c w.outside in
      (answer, record { outside = after; calls = w.calls ++ ((c, answer) ∷ []) })

  -- The loop of Get, Put and Delete, with the retries left.
  unfoldable pub request :
      Network W → Method → Bytes → Option Bytes → ℕ → Base → World W → Result × Base × World W
  request net method key body zero base w = (error redirect_loop, base, w)
  request net method key body (suc retries) base w =
      let (answer, after) =
        ask net
          (record { base = base; path = codes "/kv"; method = method; key = key; body = body }) w in
      elim answer [
        | failed e ↦ (error e, base, after)
        | responded r ↦
            if r.status == 200
            then (value r.body, base, after)
            else (if r.status == 409
                then request net method key body retries (with_leader r.leader base) after
                else (error (trim_space r.body), base, after))
      ]

  unfoldable pub client_get : Network W → Bytes → Base → World W → Result × Base × World W
  client_get net key base w =
      let (r, next, after) = request net get key none 3 base w in (without_newline r, next, after)

  unfoldable pub client_put : Network W → Bytes → Bytes → Base → World W → Result × Base × World W
  client_put net key v base w = request net put key (some v) 3 base w

  unfoldable pub client_delete : Network W → Bytes → Base → World W → Result × Base × World W
  client_delete net key base w = request net delete key none 3 base w

-- What a line asks for.
pub data LineCommand : Type 0 where
  nothing help leave : LineCommand
  usage : Bytes → LineCommand
  get_key : Bytes → LineCommand
  put_pair : Bytes → Bytes → LineCommand
  delete_key : Bytes → LineCommand
  unknown : Bytes → LineCommand

abbrev pub get_of : List Bytes → LineCommand
get_of (key ∷ []) = get_key key
get_of [] = usage (codes "Usage: get <key>")
get_of (key ∷ v ∷ vs) = usage (codes "Usage: get <key>")

abbrev pub put_of : List Bytes → LineCommand
put_of (key ∷ v ∷ vs) = put_pair key (join_with 32 (v ∷ vs))
put_of (key ∷ []) = usage (codes "Usage: put <key> <value>")
put_of [] = usage (codes "Usage: put <key> <value>")

abbrev pub delete_of : List Bytes → LineCommand
delete_of (key ∷ []) = delete_key key
delete_of [] = usage (codes "Usage: delete <key>")
delete_of (key ∷ v ∷ vs) = usage (codes "Usage: delete <key>")

unfoldable pub command_of : List Bytes → LineCommand
command_of [] = nothing
command_of (word ∷ args) =
    if equal_bytes word (codes "help")
    then help
    else (if equal_bytes word (codes "get")
        then get_of args
        else (if equal_bytes word (codes "put")
            then put_of args
            else (if equal_bytes word (codes "delete")
                then delete_of args
                else (if equal_bytes word (codes "exit")
                    then leave
                    else (if equal_bytes word (codes "quit") then leave else unknown word)))))

unfoldable pub parse_line : Bytes → LineCommand
parse_line line = elim (trim_space line) [ [] ↦ nothing | b ∷ bs ↦ command_of (fields (b ∷ bs)) ]

-- What is printed: a line, or the help.
pub data Printed : Type 0 where
  shown : Bytes → Printed
  help_shown : Printed

abbrev pub failure : Bytes → Printed
failure e = shown (codes "Error: " ++ e)

abbrev pub print_value : Result → Printed
print_value (value v) = shown v
print_value (error e) = failure e

abbrev pub print_done : Result → Printed
print_done (value v) = shown (codes "OK")
print_done (error e) = failure e

module _ {W : Type 0} where
  abbrev pub printing : (Result → Printed) → Result × Base × World W → List Printed × Base × World W
  printing p (r, base, w) = (p r ∷ [], base, w)

  unfoldable pub execute : Network W → LineCommand → Base → World W → List Printed × Base × World W
  execute net nothing base w = ([], base, w)
  execute net help base w = (help_shown ∷ [], base, w)
  execute net leave base w = (shown (codes "Goodbye!") ∷ [], base, w)
  execute net (usage t) base w = (shown t ∷ [], base, w)
  execute net (get_key key) base w = printing print_value (client_get net key base w)
  execute net (put_pair key v) base w = printing print_done (client_put net key v base w)
  execute net (delete_key key) base w = printing print_done (client_delete net key base w)
  execute net (unknown word) base w =
      (shown (codes "Unknown command: " ++ word) ∷ help_shown ∷ [], base, w)

  -- The lines read until the end of the input; what is printed, and the world after.
  unfoldable pub run_lines : Network W → List Bytes → Base → World W → List Printed × World W
  run_lines net [] base w = ([], w)
  run_lines net (line ∷ lines) base w =
      let command = parse_line line in
      let (printed, next, after) = execute net command base w in
      let (more, last) = run_lines net lines next after in
      elim command [ leave ↦ (printed, after) | _ ↦ (printed ++ more, last) ]
