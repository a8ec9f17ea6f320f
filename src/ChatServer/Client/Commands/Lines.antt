-- ===== src/ChatServer/Client/Commands/Lines.antt =====
-- What the lines that a user enters send, ChatServer/src/client/clientservice.cpp.
use cpp_tiny_lab.Base.{ℕ, ◌≡◌, ◌≢◌, refl, some, [], ◌∷◌, ◌++◌, All, arith}
use cpp_tiny_lab.Base.Bytes.{Bytes, codes, bytes_eq}
use cpp_tiny_lab.Base.Int.{ℤ, pos, negsuc}
use cpp_tiny_lab.Base.Decimal.{IsDigit, decimal-IsDigit, decimal}
use cpp_tiny_lab.Base.Numerals.{IsInt, decimal_ℤ, atoi-decimal_ℤ}
use cpp_tiny_lab.ChatServer.Json.{JsonLibrary}
use cpp_tiny_lab.ChatServer.Client.{Client, split_colon, Tm}
use cpp_tiny_lab.ChatServer.Client.Commands.{
  chat_fields, groupchat_fields, send_object, chat, groupchat, run_command, run_line,
}

abbrev pub HasNoColon : Bytes → Type 0
HasNoColon s = All (λ c. c ≢ b':') s

pub split_colon-append : (s t : Bytes) → HasNoColon s → split_colon (s ++ b':' ∷ t) ≡ some (s, t)
unfolding split_colon
split_colon-append [] t h = refl
split_colon-append (c ∷ s) t h = ground (arith, h.0, split_colon-append s t h.1)

digits-HasNoColon : (s : Bytes) → All IsDigit s → HasNoColon s
digits-HasNoColon [] h = tt
digits-HasNoColon (c ∷ s) h = (ground (arith, h.0), digits-HasNoColon s h.1)

decimal_ℤ-HasNoColon : (z : ℤ) → HasNoColon (decimal_ℤ z)
unfolding decimal_ℤ
decimal_ℤ-HasNoColon (pos n) = digits-HasNoColon (decimal n) (decimal-IsDigit n)
decimal_ℤ-HasNoColon (negsuc n) =
    (ground arith, digits-HasNoColon (decimal (ℕ.suc n)) (decimal-IsDigit (ℕ.suc n)))

-- `chat:to:msg`
abbrev pub chat_line : ℤ → Bytes → Bytes
chat_line to msg = codes "chat:" ++ (decimal_ℤ to ++ b':' ∷ msg)

-- `groupchat:groupid:msg`
abbrev pub groupchat_line : ℤ → Bytes → Bytes
groupchat_line groupid msg = codes "groupchat:" ++ (decimal_ℤ groupid ++ b':' ∷ msg)

module _ (library : JsonLibrary) where
  chat-argument :
      (tm : Tm) (to : ℤ) (msg : Bytes) (c : Client)
      → IsInt to
      → chat library tm (decimal_ℤ to ++ b':' ∷ msg) c
        ≡ send_object library (chat_fields tm c.current_user.id c.current_user.name to msg) c
  unfolding chat
  chat-argument tm to msg c h =
      rw
        (split_colon-append (decimal_ℤ to) msg (decimal_ℤ-HasNoColon to), atoi-decimal_ℤ to h, chat)
        refl

  groupchat-argument :
      (tm : Tm) (to : ℤ) (msg : Bytes) (c : Client)
      → IsInt to
      → groupchat library tm (decimal_ℤ to ++ b':' ∷ msg) c
        ≡ send_object library (groupchat_fields tm c.current_user.id c.current_user.name to msg) c
  unfolding groupchat
  groupchat-argument tm to msg c h =
      rw
        (
          split_colon-append (decimal_ℤ to) msg (decimal_ℤ-HasNoColon to),
          atoi-decimal_ℤ to h,
          groupchat,
        )
        refl

  pub run_line-chat_line :
      (tm : Tm) (to : ℤ) (msg : Bytes) (c : Client)
      → IsInt to
      → run_line library tm (chat_line to msg) c
        ≡ send_object library (chat_fields tm c.current_user.id c.current_user.name to msg) c
  unfolding run_line run_command bytes_eq split_colon
  run_line-chat_line tm to msg c h = chat-argument tm to msg c h

  pub run_line-groupchat_line :
      (tm : Tm) (to : ℤ) (msg : Bytes) (c : Client)
      → IsInt to
      → run_line library tm (groupchat_line to msg) c
        ≡ send_object library (groupchat_fields tm c.current_user.id c.current_user.name to msg) c
  unfolding run_line run_command bytes_eq split_colon
  run_line-groupchat_line tm to msg c h = groupchat-argument tm to msg c h
