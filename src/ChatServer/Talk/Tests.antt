-- ===== src/ChatServer/Talk/Tests.antt =====
-- Two clients and the server at small inputs, ChatServer/src.
use cpp_tiny_lab.Base.{none, inl, read_all, ◌>>=◌, ◌≡◌, refl, true, some, [], ◌∷◌, map, arith}
use cpp_tiny_lab.Base.Bytes.{Bytes, codes, bytes_eq}
use cpp_tiny_lab.Base.Int.{pos, minus_one}
use cpp_tiny_lab.ChatServer.{one_chat_msg, User, Group}
use cpp_tiny_lab.ChatServer.Json.{int, Fields}
use cpp_tiny_lab.ChatServer.Json.Coded.{coded, coded-IsJson}
use cpp_tiny_lab.ChatServer.Models.Memory.{memory}
use cpp_tiny_lab.ChatServer.Service.{Service, insert, receive, take_offline}
use cpp_tiny_lab.ChatServer.Answers.{answer_fields, friend_text, group_text}
use cpp_tiny_lab.ChatServer.Service.Delivery.{delivered}
use cpp_tiny_lab.ChatServer.Client.{Client, new_client, chatting, choosing, print, Tm}
use cpp_tiny_lab.ChatServer.Client.Commands.{
  login_choice, register_choice, get_start, run_line, main_step,
}
use cpp_tiny_lab.ChatServer.Client.Commands.LoginOrder.{login_order, sent_login}
use cpp_tiny_lab.ChatServer.Client.Commands.Lines.{chat_line}
use cpp_tiny_lab.ChatServer.Client.Responses.{read_task_handler}
use cpp_tiny_lab.ChatServer.Client.Responses.Messages.{message_line, registered_line}
use cpp_tiny_lab.ChatServer.Client.Responses.LoginAnswer.{logged_in, read_task_handler-answer}
use cpp_tiny_lab.ChatServer.Talk.Login.{IsReadable, login-shown}
use cpp_tiny_lab.ChatServer.Talk.Register.{register-shown}
use cpp_tiny_lab.ChatServer.Talk.Relay.{relay-throws}
use cpp_tiny_lab.ChatServer.Talk.{chat-shown}

abbrev noon : Tm
noon = record { year = 124; mon = 0; mday = 2; hour = 12; min = 0; sec = 5 }

abbrev ann : User
ann = record { id = pos 1; name = codes "ann"; password = codes "p"; state = codes "offline" }

abbrev bob : User
bob = record { id = pos 2; name = codes "bob"; password = []; state = codes "online" }

abbrev walkers : Group
walkers = record {
  id = pos 4;
  name = codes "walk";
  desc = [];
  users = record { user = bob; role = codes "creator" } ∷ [];
}

abbrev client : Client
client = record new_client { current_user = ann; pc = chatting; is_main_menu_running = true }

abbrev server : Service memory coded
server = record { user_conn_map = (pos 1, 7) ∷ (pos 2, 9) ∷ []; db = []; sent = [] }

chat-shown_example :
    (b : Bytes) × ((run_line coded noon (chat_line (pos 2) (codes "a:b")) client).sent ≡ b ∷ [])
    × (receive memory coded 7 b server ≡ some (delivered memory coded (pos 2 ∷ []) b server))
    × (read_task_handler coded b new_client
        ≡ some (print (message_line noon (pos 1) (codes "ann") (codes "a:b")) new_client))
unfolding coded
chat-shown_example =
    chat-shown memory coded coded-IsJson noon (pos 2) (codes "a:b") client new_client 7 server
      (omega arith) refl

abbrev login_text : Bytes
login_text = coded.dump (
    coded.object (
      answer_fields ann [] (map (friend_text coded) (bob ∷ []))
        (map (group_text coded) (walkers ∷ []))))

read_task_handler-answer_example :
    read_task_handler coded login_text new_client
    ≡ some (logged_in ann (bob ∷ []) (walkers ∷ []) [] new_client)
unfolding coded read_all
read_task_handler-answer_example =
    read_task_handler-answer coded coded-IsJson ann [] [] (bob ∷ []) (walkers ∷ []) new_client refl
      (refl, tt) ((refl, (refl, tt)), tt) refl

login_order_example :
    (after before : Client) × ((main_step (sent_login new_client)
        >>= read_task_handler coded login_text
        >>= main_step)
      ≡ some after)
    × (after.pc ≡ chatting)
    × ((read_task_handler coded login_text (sent_login new_client) >>= main_step >>= main_step)
        ≡ some before)
    × (before.pc ≡ choosing)
unfolding coded read_all
login_order_example =
    login_order coded coded-IsJson ann [] [] (bob ∷ []) (walkers ∷ []) new_client refl (refl, tt)
      ((refl, (refl, tt)), tt) refl

register-shown_example :
    (b a : Bytes) × ((get_start coded (register_choice (codes "eve") (codes "q")) new_client).sent
      ≡ b ∷ [])
    × (receive memory coded 7 b server ≡ some (record server { sent = (7, a) ∷ [] }))
    × ((read_task_handler coded a
            (get_start coded (register_choice (codes "eve") (codes "q")) new_client)
          >>= main_step)
        ≡ some (record new_client {
          pc = choosing;
          printed = registered_line true minus_one ∷ [];
          sent = b ∷ [];
        }))
unfolding coded
register-shown_example =
    register-shown memory coded coded-IsJson (codes "eve") (codes "q") new_client 7 server refl refl

-- A message to user 2 with no time, name or text.
abbrev bare : Fields
bare = (codes "msgid", int one_chat_msg) ∷ (codes "to", int (pos 2)) ∷ []

relay-throws_example :
    (receive memory coded 7 (coded.dump (coded.object bare)) server
      ≡ some (delivered memory coded (pos 2 ∷ []) (coded.dump (coded.object bare)) server))
    × (read_task_handler coded (coded.dump (coded.object bare)) new_client ≡ none)
unfolding coded bytes_eq
relay-throws_example =
    relay-throws memory coded coded-IsJson bare (pos 2) 7 server new_client refl refl refl
      (inl refl)

nothing_stored : IsReadable memory coded coded-IsJson (pos 3) [] []
unfolding coded take_offline read_all
nothing_stored = record { answer = refl; friends = tt; groups = tt; messages = refl }

login-shown_example :
    (b a : Bytes) × (d : Client) × ((get_start coded
        (login_choice (pos 3) (codes "p"))
        new_client).sent
      ≡ b ∷ [])
    × (receive memory coded 7 b server
        ≡ some (record server {
          user_conn_map = insert (pos 3) 7 server.user_conn_map;
          sent = (7, a) ∷ [];
        }))
    × ((main_step (get_start coded (login_choice (pos 3) (codes "p")) new_client)
          >>= read_task_handler coded a
          >>= main_step)
        ≡ some d)
    × (d.pc ≡ chatting)
    × (d.current_user.id ≡ pos 3)
    × (d.current_user.name ≡ codes "n")
unfolding coded bytes_eq take_offline
login-shown_example =
    login-shown memory coded coded-IsJson (pos 3) (codes "p") [] new_client 7 server refl refl refl
      nothing_stored
