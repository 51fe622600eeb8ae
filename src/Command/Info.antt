-- ===== src/Command/Info.antt =====
-- cmd/dealer/main.go: infoHandler, with the project's information of config/info.go. The version is
-- that of config/version.go, which a build sets; json.NewEncoder is a parameter.
use dealer.Base.{◌≡◌, String, some, none, [], false, arith}
use dealer.Http.Header as Header
use dealer.Http.Request.{Request}
use dealer.Http.Writer.{write, write_at, conn_write, conn_write_header, with_header}
use dealer.Plugin.Contract.{Env, Handler, on_writer}

pub record Info : Type 0 where
  pub project_name : String
  pub description : String
  pub author : String
  pub version : String

-- ProjectInfo
unfoldable pub project_info : String → Info
project_info version = record {
  project_name = "Dealer API Gateway";
  description = "A basic API Gateway developed with Go";
  author = "Gabriel Barboza";
  version = version;
}

unfoldable pub info_handler : {S : Type 0} → (Info → String) → String → Handler S
unfolding project_info
info_handler encode version r e =
    on_writer
      (λ w.
        write (encode (project_info version))
          (with_header (Header.put "Content-Type" "application/json") w))
      e

-- On a connection without layers on which nothing has happened, the information is sent as JSON
-- under the status 200.
info_handler-sent :
    {S : Type 0} (encode : Info → String) (version : String) (r : Request) (e : Env S)
    → e.writer.layers ≡ []
    → e.writer.conn.sent ≡ none
    → e.writer.conn.hijacked ≡ false
    → (info_handler encode version r e).writer.conn.sent
      ≡ some (200, Header.put "Content-Type" "application/json" e.writer.conn.header)
unfolding info_handler write write_at conn_write conn_write_header
info_handler-sent encode version r e flat unsent kept = rw flat (ground arith)
