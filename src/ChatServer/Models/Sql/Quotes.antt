-- ===== src/ChatServer/Models/Sql/Quotes.antt =====
-- Quotes in the texts that ChatServer/src/server/model/ puts into its statements.
use cpp_tiny_lab.Base.{◌≡◌, ◌≢◌, ap, sym, ◌∙◌, [], ◌∷◌, ◌++◌, All, arith, drop, subst}
use cpp_tiny_lab.Base.Bytes.{Bytes, IsText}
use cpp_tiny_lab.ChatServer.{User}
use cpp_tiny_lab.ChatServer.Models.Database.{c_str}
use cpp_tiny_lab.ChatServer.Models.Statements.{user_insert_sql}
use cpp_tiny_lab.ChatServer.Models.Sql.Bounds.{c_str-text}

-- No NUL and no quote.
abbrev pub IsPlain : Bytes → Type 0
IsPlain s = All (λ c. (c ≢ 0) × (c ≢ 39)) s

plain-IsText : (s : Bytes) → IsPlain s → IsText s
plain-IsText [] h = tt
plain-IsText (c ∷ s) h = (h.0.0, plain-IsText s h.1)

c_str-IsPlain : (s : Bytes) → IsPlain s → IsPlain (c_str s)
c_str-IsPlain s h = subst IsPlain (sym (c_str-text s (plain-IsText s h))) h

-- What `c_str()` gives determines a plain text.
same_text : (s t : Bytes) → IsPlain s → IsPlain t → c_str s ≡ c_str t → s ≡ t
same_text s t hs ht e =
    sym (c_str-text s (plain-IsText s hs)) ∙ e ∙ c_str-text t (plain-IsText t ht)

-- What stands before the first quote, and behind it, is determined.
before_quote :
    (a b x y : Bytes) → IsPlain a → IsPlain b → a ++ 39 ∷ x ≡ b ++ 39 ∷ y → (a ≡ b) × (x ≡ y)
before_quote [] [] x y ha hb e = ground arith
before_quote [] (d ∷ b) x y ha hb e = ground (arith, hb.0)
before_quote (c ∷ a) [] x y ha hb e = ground (arith, ha.0)
before_quote (c ∷ a) (d ∷ b) x y ha hb e = ground (arith, before_quote a b x y ha.1 hb.1)

-- Two users whose texts have no NUL and no quote, and who make one and the same statement for their
-- registration, have the same name, password and state.
pub user_insert_sql-injective :
    (u v : User)
    → IsPlain u.name
    → IsPlain u.password
    → IsPlain u.state
    → IsPlain v.name
    → IsPlain v.password
    → IsPlain v.state
    → user_insert_sql u ≡ user_insert_sql v
    → (u.name ≡ v.name) × (u.password ≡ v.password) × (u.state ≡ v.state)
user_insert_sql-injective u v un up us vn vp vs e =
    let plain = c_str-IsPlain in
    let (n, e1) = before_quote _ _ _ _ (plain u.name un) (plain v.name vn) (ap (drop 48) e) in
    let (p, e2) =
      before_quote _ _ _ _ (plain u.password up) (plain v.password vp) (ap (drop 3) e1) in
    let (s, e3) = before_quote _ _ _ _ (plain u.state us) (plain v.state vs) (ap (drop 3) e2) in
    (
      same_text u.name v.name un vn n,
      same_text u.password v.password up vp p,
      same_text u.state v.state us vs s,
    )
