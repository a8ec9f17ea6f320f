-- ===== src/WebServer/Handler/Served.antt =====
-- What `http_request` of WebServer/src/webServer.cpp does to its connection, on every branch.
use cpp_tiny_lab.Base.{
  ℕ, ◌≡◌, refl, sym, subst, Option, none, some, some-injective, List, [], ◌∷◌, ◌++◌, inl, inr, map,
  Bool-cases, Option-cases, All, All-append, bind-some, map-some,
}
use cpp_tiny_lab.Base.Bytes.{Bytes, codes}
use cpp_tiny_lab.WebServer.Mime.{get_mime_type}
use cpp_tiny_lab.WebServer.Response.{max_buffer_nums, send_header, send_file, send_listing}
use cpp_tiny_lab.WebServer.Request.{Request, refused, serve, parse_request}
use cpp_tiny_lab.WebServer.Connections.{
  Hash, Effect, accepted, send, epoll_del, close, set_time, hang_up,
}
use cpp_tiny_lab.WebServer.Handler.{
  Stat, Files, Received, failed, received, send_named, send_missing, send_regular, send_directory,
  serve_path, answer, http_request,
}

abbrev pub IsSend : ℕ → Effect → Type 0
IsSend fd (send k bytes) = k ≡ fd
IsSend fd (accepted k) = ⊥
IsSend fd (epoll_del k) = ⊥
IsSend fd (close k) = ⊥

-- The request was answered by sends on its connection; then either the table is as it was, or the
-- connection is marked closed and is taken off epoll and closed, once.
pub data Served (cfd : ℕ) (h : Hash) (p : Hash × List Effect) : Type 0 where
  stays : (es : List Effect) → All (IsSend cfd) es → p ≡ (h, es) → Served cfd h p
  ends :
      (es : List Effect)
      → All (IsSend cfd) es
      → p ≡ (set_time cfd none h, es ++ hang_up cfd)
      → Served cfd h p

sends-IsSend : (fd : ℕ) (sends : List Bytes) → All (IsSend fd) (map (send fd) sends)
sends-IsSend fd [] = tt
sends-IsSend fd (s ∷ ss) = (refl, sends-IsSend fd ss)

module _ (files : Files) (cfd : ℕ) where
  send_named-IsSend :
      (name : Bytes) (es : List Effect) → send_named files cfd name ≡ some es → All (IsSend cfd) es
  unfolding send_named
  send_named-IsSend name es e = elim (Option-cases (files.open_file name)) [
    | inl o ↦
        let d : [] ≡ es = some-injective _ _ (rw (o, send_named) at e) in
        subst (All (IsSend cfd)) d tt
    | inr (c, o) ↦
        let (sends, _, d) =
          map-some _ (send_file max_buffer_nums c (files.stack name)) es
            (rw (o, send_named) at e) in
        subst (All (IsSend cfd)) d (sends-IsSend cfd sends)
  ]

  send_missing-IsSend : (es : List Effect) → send_missing files cfd ≡ some es → All (IsSend cfd) es
  unfolding send_missing
  send_missing-IsSend es e =
      let (body, b, d) = bind-some (send_named files cfd (codes "error.html")) _ es e in
      subst (All (IsSend cfd)) (some-injective _ _ d)
        (refl, send_named-IsSend (codes "error.html") body b)

  send_regular-IsSend :
      (path : Bytes) (st : Stat) (es : List Effect)
      → send_regular files cfd path st ≡ some es
      → All (IsSend cfd) es
  unfolding send_regular
  send_regular-IsSend path st es e =
      let (body, b, d) = bind-some (send_named files cfd path) _ es e in
      subst (All (IsSend cfd)) (some-injective _ _ d) (refl, send_named-IsSend path body b)

  send_directory-Served :
      (h : Hash) (path : Bytes) (st : Stat) (p : Hash × List Effect)
      → send_directory files cfd h path st ≡ some p
      → Served cfd h p
  unfolding send_directory
  send_directory-Served h path st p e =
      let (head, b, d) = bind-some (send_named files cfd (codes "html/dir_header.html")) _ p e in
      let sent = send_named-IsSend (codes "html/dir_header.html") head b in
      let first =
        send cfd
          (send_header (codes "200") (codes "OK") (get_mime_type (codes ".html")) st.st_size) in
      elim (Option-cases (files.scandir path)) [
        | inl o ↦ ends (first ∷ head) (refl, sent) (sym (some-injective _ _ (rw (o) at d)))
        | inr (namelist, o) ↦
            let (sends, _, d') =
              bind-some (send_listing max_buffer_nums namelist) _ p (rw (o) at d) in
            let (tail, t, d'') =
              bind-some (send_named files cfd (codes "html/dir_tail.html")) _ p d' in
            stays ((first ∷ head) ++ (map (send cfd) sends ++ tail))
              (
                refl,
                All-append _ head _ sent (
                    All-append _ (map (send cfd) sends) tail (sends-IsSend cfd sends)
                      (send_named-IsSend (codes "html/dir_tail.html") tail t)),
              )
              (sym (some-injective _ _ d''))
      ]

  serve_path-Served :
      (h : Hash) (path : Bytes) (st : Option Stat) (p : Hash × List Effect)
      → serve_path files cfd h path st ≡ some p
      → Served cfd h p
  unfolding serve_path
  serve_path-Served h path none p e =
      let (es, b, d) = map-some _ (send_missing files cfd) p e in
      stays es (send_missing-IsSend es b) (sym d)
  serve_path-Served h path (some st) p e = elim (Bool-cases st.is_regular) [
    | inl o ↦
        let (es, b, d) = map-some _ (send_regular files cfd path st) p (rw (o, serve_path) at e) in
        stays es (send_regular-IsSend path st es b) (sym d)
    | inr o ↦ send_directory-Served h path st p (rw (o, serve_path) at e)
  ]

  answer-Served :
      (h : Hash) (r : Request) (p : Hash × List Effect)
      → answer files cfd h r ≡ some p
      → Served cfd h p
  unfolding answer
  answer-Served h refused p e = ends [] tt (sym (some-injective _ _ e))
  answer-Served h (serve path) p e = serve_path-Served h path (files.stat path) p e

-- Whatever is received and whatever the file system answers, a request that is handled without
-- undefined behaviour only sends, and only on its own connection, and either leaves the table as it
-- was or, as its last two calls, takes the connection off epoll and closes it, marking it closed.
pub http_request-Served :
    (files : Files) (cfd : ℕ) (h : Hash) (r : Received) (p : Hash × List Effect)
    → http_request files cfd h r ≡ some p
    → Served cfd h p
unfolding http_request
http_request-Served files cfd h failed p e = ends [] tt (sym (some-injective _ _ e))
http_request-Served files cfd h (received bytes) p e =
    let (r, _, d) = bind-some (parse_request max_buffer_nums bytes) _ p e in
    answer-Served files cfd h r p d
