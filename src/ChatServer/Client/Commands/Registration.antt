-- ===== src/ChatServer/Client/Commands/Registration.antt =====
-- A registration in the main thread of the client, ChatServer/src/client/clientservice.cpp.
use cpp_tiny_lab.Base.{◌≡◌, refl, arith, ◌+◌, some, [], ◌∷◌, ◌++◌}
use cpp_tiny_lab.Base.Bytes.{Bytes, codes}
use cpp_tiny_lab.ChatServer.{reg_msg}
use cpp_tiny_lab.ChatServer.Json.{int, text, Fields, JsonLibrary}
use cpp_tiny_lab.ChatServer.Client.{Client, register_wait, choosing}
use cpp_tiny_lab.ChatServer.Client.Commands.{register_choice, get_start, main_step}

abbrev pub reg_fields : Bytes → Bytes → Fields
reg_fields name pwd =
    (codes "msgid", int reg_msg) ∷ (codes "name", text name) ∷ (codes "password", text pwd) ∷ []

-- The client that has sent the registration.
abbrev pub registering : JsonLibrary → Bytes → Bytes → Client → Client
registering library name pwd c = record c {
  pc = register_wait;
  sent = c.sent ++ library.dump (library.object (reg_fields name pwd)) ∷ [];
}

pub get_start-register :
    (library : JsonLibrary) (name pwd : Bytes) (c : Client)
    → get_start library (register_choice name pwd) c ≡ registering library name pwd c
unfolding get_start
get_start-register library name pwd c = refl

-- Once the semaphore was posted the start menu is back.
pub main_step-registered :
    (c : Client)
    → main_step (record c { pc = register_wait; rwsem = c.rwsem + 1 })
      ≡ some (record c { pc = choosing })
unfolding main_step
main_step-registered c = ground arith
