-- ===== src/Plugin/Cors/Credentials.antt =====
-- With which origins cors of gateway/internal/plugin/cors.go shares credentials.
use dealer.Base.{String}
use dealer.Http.Header as Header
use dealer.Http.Request.{Request}
use dealer.Http.Writer.{Writer}
use dealer.Plugin.Contract.{Env}
use dealer.Plugin.Cors.{Cors, wrap_cors}

-- The header of an answer once the plugin is through: of a preflight's, which is sent, or else what
-- the handler behind is given.
abbrev pub header_behind : {S : Type 0} → Cors → Request → Env S → Header.Header
header_behind p r e = (wrap_cors p (λ r' e'. e') r e).writer.conn.header

abbrev credentials_of : Header.Header → String
credentials_of h = Header.get h "Access-Control-Allow-Credentials"
