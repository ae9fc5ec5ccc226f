-- ===== src/Client/Defs.antt =====
-- src/client.cc: `do_read`, `do_write` and a round of `main`. The user's words are a list, and the
-- effects a list of actions; what is only printed to ask is left out. The JSON text that the vendored
-- library prints for a book is an argument.
use c_s_online_library.Common.{
  ℕ, Bool, true, false, Option, none, some, List, [], ◌∷◌, ◌++◌, Bytes, bytes_eq, codes, find,
  length, take, ltb, ◌==◌, if◌then◌else◌, ℤ, pos, negsuc, int_eq,
}
use c_s_online_library.Library.Http.{get_text, put_text, success, failure, Reply, client_read_http}
use c_s_online_library.Library.Path.{InputType, ok, toolong, notnum, empty, checkinput}
use c_s_online_library.Request.Defs.{atoi}

-- `showbook` of a text, a line about what went wrong, a write to the server, one to a descriptor that
-- is closed, and close
pub data Action : Type 0 where
  shows sends : Bytes → Action
  no_answer unknown_error not_found unavailable sends_closed closes : Action

-- A dialog that came to its end, with the words that are left; one that waits for a word; and one
-- that reads past the answer.
pub data Dialog : Type 0 where
  done : List Action → List Bytes → Dialog
  no_input fault : Dialog

abbrev pub is_ok : InputType → Bool
is_ok ok = true
is_ok toolong = false
is_ok notnum = false
is_ok empty = false

-- The loops around `checkinput`, until a word passes
unfoldable pub ask_number : List Bytes → Option (Bytes × List Bytes)
ask_number [] = none
ask_number (w ∷ ws) =
    let again = ask_number ws in if is_ok (checkinput w) then some (w, ws) else again

-- `msg.code == code` on a field that may not be set; an unset one is taken to equal nothing.
abbrev code_is : ℕ → Option ℤ → Bool
code_is code none = false
code_is code (some c) = int_eq c (pos code)

abbrev when : Bool → Action → List Action
when true a = a ∷ []
when false a = []

-- What both dialogs do for a message that is no success
unfoldable pub report : Reply → List Action
report msg =
    when (code_is 404 msg.code) not_found
    ++ (when (code_is 503 msg.code) unavailable ++ (closes ∷ []))

-- The answer in the zeroed `buf` of DATASIZE bytes, as a C string
abbrev pub answer_text : Bytes → Option Bytes
answer_text answer = if ltb (find 0 answer) 5000 then some (take (find 0 answer) answer) else none

-- `read_http` and what follows, `ending` being the end for a success. After an unknown error the
-- descriptor is closed, and the dialog goes on.
unfoldable pub read_answer : (Reply → Option (List Action)) → Reply → Bytes → Option (List Action)
read_answer ending msg answer = elim (answer_text answer) [
  | none ↦ none
  | some text ↦ elim (client_read_http text msg) [
    | none ↦ none
    | some (stat, msg') ↦
        let before = if int_eq stat (negsuc 0) then unknown_error ∷ closes ∷ [] else [] in
        elim msg'.type [
          | failure ↦ some (before ++ report msg')
          | success ↦ elim (ending msg') [ none ↦ none | some l ↦ some (before ++ l) ]
        ]
  ]
]

-- `showbook(msg.body)`, and the end of `do_read`
abbrev pub show_body : Reply → Option (List Action)
show_body msg = elim msg.body [ none ↦ none | some text ↦ some (shows text ∷ closes ∷ []) ]

abbrev pub close_only : Reply → Option (List Action)
close_only msg = some (closes ∷ [])

abbrev finish_dialog : List Action → List Bytes → Option (List Action) → Dialog
finish_dialog before ws none = fault
finish_dialog before ws (some l) = done (before ++ l) ws

-- `do_read`. `peer` gives what read returns for what was written, `none` for -1; `msg` is the message
-- before it is read.
unfoldable pub do_read : (Bytes → Option Bytes) → Reply → List Bytes → Dialog
do_read peer msg ws = elim (ask_number ws) [
  | none ↦ no_input
  | some (id, ws') ↦ elim (peer (get_text id)) [
    | none ↦ done (sends (get_text id) ∷ no_answer ∷ closes ∷ []) ws'
    | some answer ↦ finish_dialog (sends (get_text id) ∷ []) ws' (read_answer show_body msg answer)
  ]
]

-- The words that `put_msg` reads: name, author, publisher, introduction and ISBN
unfoldable pub put_msg :
    (Bytes → Bytes → Bytes → Bytes → Bytes → Bytes) → List Bytes → Option (Bytes × List Bytes)
put_msg to_json (name ∷ author ∷ publisher ∷ introduction ∷ isbn ∷ ws) =
    some (to_json name author publisher introduction isbn, ws)
put_msg to_json _ = none

-- The loop until "y" or "n"
unfoldable pub confirm : List Bytes → Option (Bool × List Bytes)
confirm [] = none
confirm (w ∷ ws) =
    let again = confirm ws in
    if bytes_eq w (codes "y")
    then some (true, ws)
    else if bytes_eq w (codes "n")
    then some (false, ws)
    else again

-- The end of `do_write`: an answer of no bytes is no answer.
unfoldable pub send_change :
    (Bytes → Option Bytes) → Reply → Bytes → List Bytes → List Action → Dialog
send_change peer msg text ws before = elim (peer text) [
  | none ↦ done (before ++ (sends text ∷ no_answer ∷ closes ∷ [])) ws
  | some answer ↦
      if length answer == 0
      then done (before ++ (sends text ∷ no_answer ∷ closes ∷ [])) ws
      else finish_dialog (before ++ (sends text ∷ [])) ws (read_answer close_only msg answer)
]

-- `do_write` behind the question. After "n" the descriptor is closed, and the dialog goes on with it:
-- write and read fail, and it is closed again.
unfoldable pub change_confirmed :
    (Bytes → Option Bytes) → Reply → Bytes → Bytes → List Bytes → Bool → Dialog
change_confirmed peer msg id json ws true =
    send_change peer msg (put_text id json) ws (shows json ∷ [])
change_confirmed peer msg id json ws false =
    done (shows json ∷ closes ∷ sends_closed ∷ no_answer ∷ closes ∷ []) ws

-- `do_write`
unfoldable pub do_write :
    (Bytes → Bytes → Bytes → Bytes → Bytes → Bytes)
    → (Bytes → Option Bytes)
    → Reply
    → List Bytes
    → Dialog
do_write to_json peer msg ws = elim (ask_number ws) [
  | none ↦ no_input
  | some (id, ws1) ↦ elim (put_msg to_json ws1) [
    | none ↦ no_input
    | some (json, ws2) ↦ elim (confirm ws2) [
      | none ↦ no_input
      | some (yes_, ws3) ↦ change_confirmed peer msg id json ws3 yes_
    ]
  ]
]

-- A round of `main` with its connection: the dialog, and whether the program goes on.
unfoldable pub main_round :
    (Bytes → Bytes → Bytes → Bytes → Bytes → Bytes)
    → (Bytes → Option Bytes)
    → Reply
    → List Bytes
    → Dialog × Bool
main_round to_json peer msg ws = elim (ask_number ws) [
  | none ↦ (no_input, true)
  | some (choose, ws') ↦
      if int_eq (atoi choose) (pos 1)
      then (do_read peer msg ws', true)
      else if int_eq (atoi choose) (pos 2)
      then (do_write to_json peer msg ws', true)
      else if int_eq (atoi choose) (pos 0)
      then (done (closes ∷ []) ws', false)
      else (done (closes ∷ []) ws', true)
]
