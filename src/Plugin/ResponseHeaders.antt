-- ===== src/Plugin/ResponseHeaders.antt =====
-- gateway/internal/plugin/response_headers.go: the configuration and Wrap. The writer that Wrap
-- passes on is a layer of Http/Writer.antt, where its methods and `apply` are.
pub mod Applied
use dealer.Base.{
  ℕ, suc, ◌+◌, Option, none, some, List, [], ◌∷◌, ◌++◌, String, is_empty, to_lower, if◌then◌else◌,
  false, Result, ok, err, ◌>>=◌, ◌>>◌,
}
use dealer.Config.Types.{Entries, Value, Values, nil, list, dict, end, item, get}
use dealer.Http.Request.{Request}
use dealer.Http.Writer.{ResponseHeaders, ResponseHeaderRule, Layer, headers_writer, Writer, on_top}
use dealer.Plugin.Contract.{Env, Handler, Plugin, on_writer}
use dealer.Plugin.JwtAuth.{text_or_empty}
use dealer.Plugin.Values.{PluginError, required, must_be_list, must_be_map, guard, string_map}
use dealer.Plugin.Cors.{is_nil}

module _ {F : Type 0} where
  -- One round of the loop over the rules.
  unfoldable pub rule_of : Value F → Result PluginError ResponseHeaderRule
  unfolding get string_map to_lower
  rule_of (dict rule) = do
    guard (is_empty (text_or_empty (get rule "content_type")))
        (required "response_headers: config.rules.content_type")
    headers ← string_map "response_headers: config.rules.headers" (get rule "headers")
    guard (is_nil headers) (required "response_headers: config.rules.headers")
    ok (record {
      content_type = to_lower (text_or_empty (get rule "content_type"));
      headers = headers;
    })
  rule_of v = err (must_be_map "response_headers: config.rules")

  unfoldable pub rules_of : Values F → Result PluginError (List ResponseHeaderRule)
  unfolding rule_of
  rules_of end = ok []
  rules_of (item v vs) = do rule ← rule_of v; rest ← rules_of vs; ok (rule ∷ rest)

  abbrev pub rule_list : Option (Value F) → Result PluginError (List ResponseHeaderRule)
  rule_list none = ok []
  rule_list (some nil) = ok []
  rule_list (some (list vs)) = rules_of vs
  rule_list (some v) = err (must_be_list "response_headers: config.rules")

  unfoldable pub new_response_headers : Entries F → Result PluginError ResponseHeaders
  unfolding get string_map rules_of
  new_response_headers cfg = do
    headers ← string_map "response_headers: config.headers" (get cfg "headers")
    rules ← rule_list (get cfg "rules")
    ok (record { headers = headers; rules = rules })

-- The writer behind the layer on top, once the handler has returned.
abbrev pub drop_layer : List Layer → List Layer
drop_layer [] = []
drop_layer (l ∷ ls) = ls

abbrev pub pop : Writer → Writer
pop w = record w { layers = drop_layer w.layers }

unfoldable pub wrap_response_headers : {S : Type 0} → ResponseHeaders → Handler S → Handler S
wrap_response_headers p next r e =
    on_writer pop (next r (on_writer (on_top (headers_writer p false)) e))

unfoldable pub response_headers_plugin : {S : Type 0} → ResponseHeaders → Plugin S
unfolding wrap_response_headers
response_headers_plugin p = record { name = "response_headers"; wrap = wrap_response_headers p }
