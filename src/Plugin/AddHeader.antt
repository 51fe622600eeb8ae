-- ===== src/Plugin/AddHeader.antt =====
-- gateway/internal/plugin/add_header.go.
pub mod Effect
use dealer.Base.{List, [], String, Result, ok, err, ◌>>=◌}
use dealer.Config.Types.{Entries, get}
use dealer.Http.Request.{Request}
use dealer.Http.Writer.{put_all}
use dealer.Plugin.Contract.{Env, Handler, Plugin}
use dealer.Plugin.Values.{PluginError, string_map}

pub record AddHeader : Type 0 where
  pub headers : List (String × String)

-- The checks of the configuration are those of stringMap.
unfoldable pub new_add_header : {F : Type 0} → Entries F → Result PluginError AddHeader
unfolding get string_map
new_add_header cfg = do
  headers ← string_map "add_header: config.headers" (get cfg "headers")
  ok (record { headers = headers })

unfoldable pub wrap_add_header : {S : Type 0} → AddHeader → Handler S → Handler S
unfolding put_all
wrap_add_header p next r e = next (record r { header = put_all p.headers r.header }) e

unfoldable pub add_header_plugin : {S : Type 0} → AddHeader → Plugin S
unfolding wrap_add_header
add_header_plugin p = record { name = "add_header"; wrap = wrap_add_header p }
