-- ===== src/WebServer/Handler.antt =====
-- `http_request` of WebServer/src/webServer.cpp, over a file system that answers its calls.
pub mod Served
pub mod Regular
use mathlib.Core.Option
use cpp_tiny_lab.Base.{
  ◌>>=◌, ℕ, Bool, true, false, Option, none, some, List, [], ◌∷◌, ◌++◌, if◌then◌else◌, map,
}
use cpp_tiny_lab.Base.Bytes.{Bytes, codes}
use cpp_tiny_lab.WebServer.Mime.{get_mime_type}
use cpp_tiny_lab.WebServer.Response.{max_buffer_nums, send_header, send_file, Dirent, send_listing}
use cpp_tiny_lab.WebServer.Request.{Request, refused, serve, parse_request}
use cpp_tiny_lab.WebServer.Connections.{Hash, Effect, send, set_time, hang_up}

-- What `stat` reports.
pub record Stat : Type 0 where
  pub st_size : ℕ
  pub is_regular : Bool

-- The answers of the operating system: `none` where a call fails. `stack` is what the buffer of
-- `sendFile` holds before it is first written.
pub record Files : Type 0 where
  pub stat : Bytes → Option Stat
  pub open_file : Bytes → Option Bytes
  pub scandir : Bytes → Option (List Dirent)
  pub stack : Bytes → Bytes

-- What `recv` gives: an error or the end of the stream, or some bytes.
pub data Received : Type 0 where
  failed : Received
  received : Bytes → Received

module _ (files : Files) (cfd : ℕ) where
  -- `sendFile(epfd, cfd, name)`; a file that cannot be opened is left out.
  send_named : Bytes → Option (List Effect)
  send_named name = elim (files.open_file name) [
    | none ↦ some []
    | some contents ↦
        Option.map (λ sends. map (send cfd) sends)
          (send_file max_buffer_nums contents (files.stack name))
  ]

  header : Bytes → Bytes → Bytes → ℕ → List Effect
  header code msg file_type size = send cfd (send_header code msg file_type size) ∷ []

  send_missing : Option (List Effect)
  unfolding send_named header
  send_missing = send_named (codes "error.html") >>= λ body.
      some (header (codes "404") (codes "NOT FOUND") (get_mime_type (codes ".html")) 0 ++ body)

  send_regular : Bytes → Stat → Option (List Effect)
  unfolding send_named header
  send_regular path st = send_named path >>= λ body.
      some (header (codes "200") (codes "OK") (get_mime_type path) st.st_size ++ body)

  -- The listing, or the end of the connection where `scandir` fails.
  send_directory : Hash → Bytes → Stat → Option (Hash × List Effect)
  unfolding send_named header
  send_directory h path st = send_named (codes "html/dir_header.html") >>= λ head.
      let start =
        header (codes "200") (codes "OK") (get_mime_type (codes ".html")) st.st_size ++ head in
      elim (files.scandir path) [
        | none ↦ some (set_time cfd none h, start ++ hang_up cfd)
        | some namelist ↦ send_listing max_buffer_nums namelist >>= λ sends.
            send_named (codes "html/dir_tail.html") >>= λ tail.
            some (h, start ++ (map (send cfd) sends ++ tail))
      ]

  serve_path : Hash → Bytes → Option Stat → Option (Hash × List Effect)
  unfolding send_missing send_regular send_directory
  serve_path h path none = Option.map (λ es. (h, es)) send_missing
  serve_path h path (some st) =
      if st.is_regular
      then Option.map (λ es. (h, es)) (send_regular path st)
      else send_directory h path st

  answer : Hash → Request → Option (Hash × List Effect)
  unfolding serve_path
  answer h refused = some (set_time cfd none h, hang_up cfd)
  answer h (serve path) = serve_path h path (files.stat path)

  unfoldable pub http_request : Hash → Received → Option (Hash × List Effect)
  unfolding answer
  http_request h failed = some (set_time cfd none h, hang_up cfd)
  http_request h (received bytes) = parse_request max_buffer_nums bytes >>= answer h
